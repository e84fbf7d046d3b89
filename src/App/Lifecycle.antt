-- ===== src/App/Lifecycle.antt =====
-- internal/app/app.go: how `Run` starts and how it ends.
use Prim.Native.String.{◌++◌ as ◌+++◌}
use pubsub_event_processor.Common.{
  ◌≡◌, refl, sym, ◌∙◌, ◌↔◌, ◌⊎◌, inl, inr, String, Bool, false, Option, none, some, List, [], ◌∷◌,
  map, Error, cause, wrap, text, arith, if◌then◌else◌, Has, Option-cases, Bool-cases, ap,
}
use pubsub_event_processor.HttpServer.{Wake, cancelled, served, serve, run_server}

-- The functions that `Run` puts into its errgroup.
pub data Member : Type 0 where
  subscriber : String → Member
  committer pool http : Member

unfoldable pub members : List String → List Member
members [] = committer ∷ pool ∷ http ∷ []
members (topic ∷ topics) = subscriber topic ∷ members topics

-- errgroup.Group.Wait: the first error, in the order in which the functions return.
abbrev pub group_wait {ℓ} : {E : Type ℓ} → List (Option E) → Option E
group_wait [] = none
group_wait (none ∷ rest) = group_wait rest
group_wait (some x ∷ rest) = some x

Has-http : (topics : List String) → Has http (members topics)
unfolding members
Has-http [] = inr (inr (inl refl))
Has-http (topic ∷ topics) = inr (Has-http topics)

module _ {X : Type 0} (is_canceled : Error X → Bool) where
  -- What each returns: `Subscriber.Run`, `Committer.Run` and `Pool.Run` return nil on every path.
  abbrev pub member_result : Option (Error X) → Member → Option (Error X)
  member_result answer (subscriber topic) = none
  member_result answer committer = none
  member_result answer pool = none
  member_result answer http = answer

  -- `Run` behind `g.Wait()`; a cancellation is a clean end.
  abbrev pub filtered : Option (Error X) → Option (Error X)
  filtered none = none
  filtered (some x) = if is_canceled x then none else some x

  -- `Run`, with the result of the admin server, for the functions that return in the order `ends`.
  unfoldable pub run_app : Option (Error X) → List Member → Option (Error X)
  run_app answer ends = filtered (group_wait (map (member_result answer) ends))

  all_nil : (ends : List Member) → group_wait (map (member_result none) ends) ≡ none
  all_nil [] = refl
  all_nil (subscriber t ∷ ends) = all_nil ends
  all_nil (committer ∷ ends) = all_nil ends
  all_nil (pool ∷ ends) = all_nil ends
  all_nil (http ∷ ends) = all_nil ends

  waited :
      (x : Error X) (ends : List Member)
      → Has http ends
      → group_wait (map (member_result (some x)) ends) ≡ some x
  waited x [] h = absurd h
  waited x (subscriber t ∷ ends) (inl e) = absurd (ground arith)
  waited x (committer ∷ ends) (inl e) = absurd (ground arith)
  waited x (pool ∷ ends) (inl e) = absurd (ground arith)
  waited x (subscriber t ∷ ends) (inr h) = waited x ends h
  waited x (committer ∷ ends) (inr h) = waited x ends h
  waited x (pool ∷ ends) (inr h) = waited x ends h
  waited x (http ∷ ends) h = refl

  run_app_lem :
      (answer : Option (Error X)) (ends : List Member)
      → Has http ends
      → run_app answer ends ≡ filtered answer
  unfolding run_app
  run_app_lem none ends h = ap filtered (all_nil ends)
  run_app_lem (some x) ends h = ap filtered (waited x ends h)

  filtered_lem :
      (answer : Option (Error X)) (e : Error X)
      → filtered answer ≡ some e ↔ ((answer ≡ some e) × (is_canceled e ≡ false))
  filtered_lem none e = (λ h. absurd (ground arith), λ h. absurd (ground arith))
  filtered_lem (some x) e = elim (Bool-cases (is_canceled x)) [
    | inl c ↦ (λ h. absurd (ground arith), λ h. absurd (ground arith))
    | inr c ↦ (λ h. ground arith, λ h. ground arith)
  ]

  module _ {S : Type 0} (listen : String → S → Option X × S) (shutdown : S → Option X × S)
      (is_server_closed : X → Bool) where
    -- How the admin server fails with this error: it cannot listen, its shutdown fails, or `Serve` ends with an
    -- error other than http.ErrServerClosed before the context does.
    abbrev pub ServerFails : String → Wake X → S → Error X → Type 0
    ServerFails addr wake s e =
        ((x : X) × ((listen addr s).0 ≡ some x) × (e ≡ wrap (text ("listen " +++ addr)) (cause x)))
        ⊎ ((x : X) × (wake ≡ cancelled)
            × ((shutdown (listen addr s).1).0 ≡ some x)
            × (e ≡ wrap (text "shutdown") (cause x)))
        ⊎ ((x : X) × (wake ≡ served (some x)) × (is_server_closed x ≡ false) × (e ≡ cause x))

    serve_failure :
        (wake : Wake X) (s : S) (e : Error X)
        → (serve listen shutdown is_server_closed wake s).0 ≡ some e
        → ((x : X) × (wake ≡ cancelled)
            × ((shutdown s).0 ≡ some x)
            × (e ≡ wrap (text "shutdown") (cause x)))
          ⊎ ((x : X) × (wake ≡ served (some x)) × (is_server_closed x ≡ false) × (e ≡ cause x))
    unfolding serve
    serve_failure cancelled s e h = elim (Option-cases (shutdown s).0) [
      | inl fine ↦ absurd (ground arith)
      | inr (x, bad) ↦ inl (x, refl, bad, ground arith)
    ]
    serve_failure (served none) s e h = absurd (ground arith)
    serve_failure (served (some x)) s e h = elim (Bool-cases (is_server_closed x)) [
      | inl shut ↦ absurd (ground arith)
      | inr open_still ↦ inr (x, refl, open_still, ground arith)
    ]

    server_failure :
        (addr : String) (wake : Wake X) (s : S) (e : Error X)
        → (run_server listen shutdown is_server_closed addr wake s).0 ≡ some e
        → ServerFails addr wake s e
    unfolding run_server
    server_failure addr wake s e h = elim (Option-cases (listen addr s).0) [
      | inr (x, bad) ↦ inl (x, bad, ground arith)
      | inl good ↦ inr (serve_failure wake (listen addr s).1 e (ground arith))
    ]

    -- In whatever order the functions of its errgroup return, `Run` returns an error exactly if the admin
    -- server returns it and it is no cancellation, and then the server could not listen, its shutdown
    -- failed, or `Serve` ended with an error of its own.
    pub run_error_is_http :
        (topics : List String) (addr : String) (wake : Wake X) (s : S) (ends : List Member)
        (e : Error X)
        → ((m : Member) → Has m (members topics) → Has m ends)
        → let answer = (run_server listen shutdown is_server_closed addr wake s).0 in
          (run_app answer ends ≡ some e ↔ ((answer ≡ some e) × (is_canceled e ≡ false)))
          × (run_app answer ends ≡ some e → ServerFails addr wake s e)
    run_error_is_http topics addr wake s ends e all_return =
        let answer = (run_server listen shutdown is_server_closed addr wake s).0 in
        let same = run_app_lem answer ends (all_return http (Has-http topics)) in
        let whole = filtered_lem answer e in
        (
          (λ h. whole.0 (sym same ∙ h), λ h. same ∙ whole.1 h),
          λ h. server_failure addr wake s e (whole.0 (sym same ∙ h)).0,
        )
