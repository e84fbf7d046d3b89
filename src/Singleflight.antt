-- ===== src/Singleflight.antt =====
-- Callers side by side around one singleflight.Group, as `Get` of internal/schema/cache.go and `Token` of
-- internal/auth/oauth.go have them: a look at the cache, then `Do` with a function that asks the remote side.
-- golang.org/x/sync/singleflight itself is not in the repository: `Flights` states what its documentation
-- promises, and what a client does around it is a `FlightUser`.
pub mod Manned
pub mod Returning
pub mod Keys
pub mod Results
use pubsub_event_processor.Common.{
  ℕ, String, ◌≡◌, Bool, true, false, Option, none, some, ite, ℕ_discrete, string_discrete,
}

-- Which keys have an execution in flight: `start` is the call of `Do` that runs its function, and `finish` its
-- return.
pub record Flights (G : Type 0) : Type 0 where
  pub in_flight : String → G → Bool
  pub start : String → G → G
  pub finish : String → G → G
  pub in_flight-start :
      (k j : String) (g : G)
      → in_flight j (start k g) ≡ ite (string_discrete k j) true (in_flight j g)
  pub in_flight-finish :
      (k j : String) (g : G)
      → in_flight j (finish k g) ≡ ite (string_discrete k j) false (in_flight j g)

-- What the client does, each part atomically: `look` before `Do`, where E is what a call is given and sees of
-- the world, `key` the key that it gives to `Do`, and then in the function that `Do` runs `again`, a second look, and `answer`, once the remote side has answered.
pub record FlightUser (C E A R : Type 0) : Type 0 where
  pub key : E → String
  pub look : E → C → Option R × C
  pub again : String → C → Option R
  pub answer : A → String → C → R × C

-- Where a caller stands. `missed` has looked in vain and not entered `Do`, `leading` has entered it first,
-- `asking` waits for the remote side, and in `finishing` the function has returned; `waiting` has entered `Do`
-- while another leads.
pub data Caller (R : Type 0) : Type 0 where
  idle : Caller R
  missed leading asking waiting : String → Caller R
  finishing returned : String → R → Caller R

pub record FlightState (G C R : Type 0) : Type 0 where
  pub group : G
  pub cache : C
  pub callers : ℕ → Caller R

-- The key of a call in progress.
abbrev pub called_key : {R : Type 0} → Caller R → Option String
called_key idle = none
called_key (missed k) = some k
called_key (leading k) = some k
called_key (asking k) = some k
called_key (waiting k) = some k
called_key (finishing k r) = some k
called_key (returned k r) = some k

-- What a call has to return.
abbrev pub result : {R : Type 0} → Caller R → Option (String × R)
result (finishing k r) = some (k, r)
result (returned k r) = some (k, r)
result c = none

-- After the look, and after the second one.
abbrev pub looked : {R : Type 0} → String → Option R → Caller R
looked k (some r) = returned k r
looked k none = missed k

abbrev pub looked_again : {R : Type 0} → String → Option R → Caller R
looked_again k (some r) = finishing k r
looked_again k none = asking k

abbrev pub update : {A : Type 0} → (ℕ → A) → ℕ → A → ℕ → A
update f i a j = ite (ℕ_discrete i j) a (f j)

-- `Do` hands the result to the callers that wait for the key.
abbrev pub handed_on : {R : Type 0} → String → R → Caller R → Caller R
handed_on k r (waiting j) = ite (string_discrete k j) (returned j r) (waiting j)
handed_on k r c = c

module _ {G C E A R : Type 0} (f : Flights G) (cl : FlightUser C E A R) where
  pub data Step (s : FlightState G C R) : FlightState G C R → Type 0 where
    look :
        (i : ℕ) (e : E)
        → s.callers i ≡ idle
        → Step s (record {
          group = s.group;
          cache = (cl.look e s.cache).1;
          callers = update s.callers i (looked (cl.key e) (cl.look e s.cache).0);
        })
    join :
        (i : ℕ) (k : String)
        → s.callers i ≡ missed k
        → f.in_flight k s.group ≡ true
        → Step s (record s { callers = update s.callers i (waiting k) })
    lead :
        (i : ℕ) (k : String)
        → s.callers i ≡ missed k
        → f.in_flight k s.group ≡ false
        → Step s (record s { group = f.start k s.group; callers = update s.callers i (leading k) })
    look_again :
        (i : ℕ) (k : String)
        → s.callers i ≡ leading k
        → Step s (record s { callers = update s.callers i (looked_again k (cl.again k s.cache)) })
    answer :
        (i : ℕ) (k : String) (a : A)
        → s.callers i ≡ asking k
        → Step s (record {
          group = s.group;
          cache = (cl.answer a k s.cache).1;
          callers = update s.callers i (finishing k (cl.answer a k s.cache).0);
        })
    finish :
        (i : ℕ) (k : String) (r : R)
        → s.callers i ≡ finishing k r
        → Step s (record s {
          group = f.finish k s.group;
          callers = λ j. handed_on k r (update s.callers i (returned k r) j);
        })
    leave :
        (i : ℕ) (k : String) (r : R)
        → s.callers i ≡ returned k r
        → Step s (record s { callers = update s.callers i idle })

  pub data Reach (s : FlightState G C R) : FlightState G C R → Type 0 where
    here : Reach s s
    next : {t u : FlightState G C R} → Reach s t → Step t u → Reach s u

-- Nobody has called yet, and nothing is in flight.
pub record IsStart {G C R : Type 0} (f : Flights G) (s : FlightState G C R) : Type 0 where
  pub none_flying : (k : String) → f.in_flight k s.group ≡ false
  pub all_idle : (i : ℕ) → s.callers i ≡ idle
