-- ===== src/Health.antt =====
-- internal/health: the readiness handler and the check of the credentials.
use pubsub_event_processor.Common.{
  ℕ, ◌≡◌, refl, inl, inr, String, Bool, true, false, Option, none, some, List, [], ◌∷◌, map, Result,
  ok, err, Error, wrap, text, arith, Option-cases, Bool-cases, All,
}
use pubsub_event_processor.Auth.{Credentials}

-- `Checker`
abbrev pub Checker : Type 0 → Type 0 → Type 0
Checker X S = S → Option (Error X) × S

-- What a checker's entry in the response says: "ok", or the error.
abbrev pub Answer : Type 0 → Type 0
Answer X = Option (Error X)

-- The response of /readyz; `is_ready` is its text, "ready" or "not ready".
pub record Readiness (X : Type 0) : Type 0 where
  pub status : ℕ
  pub is_ready : Bool
  pub checks : List (String × Answer X)

module _ {X S : Type 0} where
  -- The loop of `Readiness`, in the order in which the run ranges over the map.
  unfoldable pub run_checks :
      List (String × Checker X S) → S → (Bool × List (String × Answer X)) × S
  run_checks [] s = ((true, []), s)
  run_checks ((name, check) ∷ checkers) s =
      let (answer, s1) = check s in
      let (rest, s2) = run_checks checkers s1 in
      ((elim answer [ none ↦ rest.0 | some x ↦ false ], (name, answer) ∷ rest.1), s2)

  -- `Readiness`
  unfoldable pub readiness : List (String × Checker X S) → S → Readiness X × S
  unfolding run_checks
  readiness checkers s =
      let (r, s') = run_checks checkers s in
      (
        elim r.0 [
          | true ↦ record { status = 200; is_ready = true; checks = r.1 }
          | false ↦ record { status = 503; is_ready = false; checks = r.1 }
        ],
        s',
      )

  -- `authCheck.Check`; `token` is the provider's `Token`.
  unfoldable pub auth_check : (S → Result (Error X) Credentials × S) → Checker X S
  auth_check token s =
      let (r, s') = token s in
      elim r [ ok creds ↦ (none, s') | err x ↦ (some (wrap (text "salesforce token") x), s') ]

  pub checks_named :
      (checkers : List (String × Checker X S)) (s : S)
      → map (λ c. c.0) (run_checks checkers s).0.1 ≡ map (λ c. c.0) checkers
  unfolding run_checks
  checks_named [] s = refl
  checks_named ((name, check) ∷ checkers) s = ground (arith, checks_named checkers (check s).1)

  pub checks_agree :
      (checkers : List (String × Checker X S)) (s : S)
      → ((run_checks checkers s).0.0 ≡ true → All (λ c. c.1 ≡ none) (run_checks checkers s).0.1)
        × (All (λ c. c.1 ≡ none) (run_checks checkers s).0.1 → (run_checks checkers s).0.0 ≡ true)
  unfolding run_checks
  checks_agree [] s = ground arith
  checks_agree ((name, check) ∷ checkers) s = elim (Option-cases (check s).0) [
    | inl e ↦ ground (arith, checks_agree checkers (check s).1)
    | inr (x, e) ↦ ground arith
  ]

  -- The response of /readyz names every checker, in the order of the loop, is 200 if no checker fails and 503
  -- if one does.
  pub readiness_reports :
      (checkers : List (String × Checker X S)) (s : S)
      → let response = (readiness checkers s).0 in
        (map (λ c. c.0) response.checks ≡ map (λ c. c.0) checkers)
        × (All (λ c. c.1 ≡ none) response.checks → response.status ≡ 200)
        × ((All (λ c. c.1 ≡ none) response.checks → ⊥) → response.status ≡ 503)
  unfolding readiness
  readiness_reports checkers s = elim (Bool-cases (run_checks checkers s).0.0) [
    | inl e ↦ ground (arith, checks_named checkers s, checks_agree checkers s)
    | inr e ↦ ground (arith, checks_named checkers s, checks_agree checkers s)
  ]
