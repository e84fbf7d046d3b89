-- ===== src/HttpServer/Routes.antt =====
-- internal/httpserver/server.go and internal/health/health.go: the routes of `New`, and what the handlers write.
use pubsub_event_processor.Common.{
  ℕ, String, ◌≡◌, refl, ◌↔◌, Bool, true, none, some, List, [], ◌∷◌, arith, lookup, string_discrete,
  All, Bool-cases, ap, ◌∙◌, if◌then◌else◌, map,
}
use pubsub_event_processor.Health.{
  Checker, Answer, readiness, run_checks, checks_agree, checks_named,
}

-- The two JSON bodies: {"status":"ok"}, and the one of /readyz.
pub data Body (X : Type 0) : Type 0 where
  status_ok : Body X
  readiness_body : Bool → List (String × Answer X) → Body X

-- A response as its writer receives it.
pub record Response (X : Type 0) : Type 0 where
  pub content_type : String
  pub status : ℕ
  pub body : Body X

-- `writeJSON`; an error of the encoder is dropped.
abbrev pub write_json : {X : Type 0} → ℕ → Body X → Response X
write_json status body = record { content_type = "application/json"; status = status; body = body }

-- http.Handler, without the request, which the handlers here do not read.
abbrev pub HttpHandler : Type 0 → Type 0 → Type 0
HttpHandler X S = S → Response X × S

module _ {X S : Type 0} where
  -- `Healthz`
  abbrev pub healthz : HttpHandler X S
  healthz s = (write_json 200 status_ok, s)

  -- The handler that `Readiness` returns.
  abbrev pub readyz : List (String × Checker X S) → HttpHandler X S
  readyz checkers s =
      let (r, s') = readiness checkers s in
      (write_json r.status (readiness_body r.is_ready r.checks), s')

  -- The `Handle` calls of `New`; `metrics` is promhttp.Handler.
  abbrev pub routes :
      HttpHandler X S → List (String × Checker X S) → List (String × HttpHandler X S)
  routes metrics checkers =
      ("/healthz", healthz) ∷ ("/readyz", readyz checkers) ∷ ("/metrics", metrics) ∷ []

  -- `mux` is chi's router over the patterns that were registered, of which the program relies on this: a
  -- request for a path that was registered reaches its handler.
  unfoldable pub Routes : (List (String × HttpHandler X S) → String → HttpHandler X S) → Type 0
  Routes mux =
      (rs : List (String × HttpHandler X S)) (path : String) (h : HttpHandler X S)
      → lookup string_discrete path rs ≡ some h
      → mux rs path ≡ h

  -- The admin server, with `New` and a request.
  abbrev pub respond :
      (List (String × HttpHandler X S) → String → HttpHandler X S)
      → HttpHandler X S
      → List (String × Checker X S)
      → String
      → HttpHandler X S
  respond mux metrics checkers path = mux (routes metrics checkers) path

  routed :
      (mux : List (String × HttpHandler X S) → String → HttpHandler X S) (metrics : HttpHandler X S)
      (checkers : List (String × Checker X S)) (s : S)
      → Routes mux
      → (respond mux metrics checkers "/healthz" s ≡ healthz s)
        × (respond mux metrics checkers "/readyz" s ≡ readyz checkers s)
  unfolding Routes lookup string_discrete
  routed mux metrics checkers s law = (
    ap (λ h. h s) (law (routes metrics checkers) "/healthz" healthz refl),
    ap (λ h. h s) (law (routes metrics checkers) "/readyz" (readyz checkers) refl),
  )

  -- What a router makes of the two probes.
  pub probes_answer :
      (mux : List (String × HttpHandler X S) → String → HttpHandler X S) (metrics : HttpHandler X S)
      (checkers : List (String × Checker X S)) (s : S)
      → Routes mux
      → let ((all_ok, results), s') = run_checks checkers s in
        (respond mux metrics checkers "/healthz" s ≡ (write_json 200 status_ok, s))
        × (respond mux metrics checkers "/readyz" s
            ≡ (write_json (if all_ok then 200 else 503) (readiness_body all_ok results), s'))
        × ((all_ok ≡ true) ↔ All (λ c. c.1 ≡ none) results)
        × (map (λ c. c.0) results ≡ map (λ c. c.0) checkers)
  unfolding readiness
  probes_answer mux metrics checkers s law =
      let (live, ready) = routed mux metrics checkers s law in
      (
        live,
        ready ∙ ground (arith, Bool-cases (run_checks checkers s).0.0),
        checks_agree checkers s,
        checks_named checkers s,
      )
