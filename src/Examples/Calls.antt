-- ===== src/Examples/Calls.antt =====
-- The theorems on callers that share one flight of singleflight.Group, at concrete inputs.
use pubsub_event_processor.Common.{
  ℕ, ◌≡◌, refl, String, Bool, true, false, none, some, ok, lookup, insert, string_discrete, ite,
  ℕ_discrete,
}
use pubsub_event_processor.Schema.Flights.{get_client}
use pubsub_event_processor.Schema.Flights.Held.{GetState}
use pubsub_event_processor.Schema.Flights.Agree.{get_fetches_alone, gets_agree, get-CanReturn}
use pubsub_event_processor.Singleflight.{
  idle, asking, waiting, returned, Flights, look, join, lead, look_again, answer, finish, Reach,
  here, next, IsStart, called_key,
}
use pubsub_event_processor.Singleflight.Returning.{CanReturn, Reach-trans}
use pubsub_event_processor.Examples.Sessions.{parse, no_schemas}

-- A group as the set of its keys.
abbrev pub group_of_keys : Flights (String → Bool)
group_of_keys = record {
  in_flight = λ k g. g k;
  start = λ k g j. ite (string_discrete k j) true (g j);
  finish = λ k g j. ite (string_discrete k j) false (g j);
  in_flight-start = λ k j g. refl;
  in_flight-finish = λ k j g. refl;
}

abbrev nobody : GetState {G = String → Bool} group_of_keys parse
nobody = record { group = λ k. false; cache = no_schemas; callers = λ i. idle }

nobody-IsStart : IsStart group_of_keys nobody
nobody-IsStart = record { none_flying = λ k. refl; all_idle = λ i. refl }

abbrev Run : GetState {G = String → Bool} group_of_keys parse → Type 0
Run t = Reach group_of_keys (get_client parse) nobody t

-- Two callers of "a": the first one leads and asks the source, the second one waits.
abbrev asked : (t : GetState {G = String → Bool} group_of_keys parse) × Run t
unfolding lookup string_discrete ℕ_discrete
asked =
    let r1 : Run _ = next here (look 0 "a" refl) in
    let r2 : Run _ = next r1 (look 1 "a" refl) in
    let r3 : Run _ = next r2 (lead 0 "a" refl refl) in
    let r4 : Run _ = next r3 (join 1 "a" refl refl) in (_, next r4 (look_again 0 "a" refl))

a_is_asked : (asked.0.callers 0 ≡ asking "a") × (asked.0.callers 1 ≡ waiting "a")
unfolding lookup string_discrete ℕ_discrete
a_is_asked = (refl, refl)

get_fetches_alone_example :
    (◌≡◌ {A = ℕ} 0 0) × (lookup string_discrete "a" asked.0.cache.parsed ≡ none)
get_fetches_alone_example =
    get_fetches_alone group_of_keys parse 0 0 "a" nobody-IsStart asked.1 a_is_asked.0 a_is_asked.0

waits_for_a : called_key (asked.0.callers 1) ≡ some "a"
unfolding lookup string_discrete ℕ_discrete
waits_for_a = refl

get-CanReturn_example : CanReturn group_of_keys (get_client parse) asked.0 1 "a"
get-CanReturn_example =
    get-CanReturn group_of_keys parse (ok "{}") 1 "a" nobody-IsStart asked.1 waits_for_a

-- The source answers, and the flight ends.
abbrev answered :
    (t : GetState {G = String → Bool} group_of_keys parse) × Reach group_of_keys
      (get_client parse)
      asked.0
      t
unfolding lookup string_discrete ℕ_discrete
answered =
    let r1 : Reach group_of_keys (get_client parse) asked.0 _ =
      next here (answer 0 "a" (ok "{}") refl) in
    (_, next r1 (finish 0 "a" (ok 1) refl))

abbrev BothEnded : Type 0
BothEnded =
    (answered.0.callers 0 ≡ returned "a" (ok 1)) × (answered.0.callers 1 ≡ returned "a" (ok 1))

a_is_answered : BothEnded
unfolding lookup insert string_discrete ℕ_discrete
a_is_answered = (refl, refl)

abbrev answered_run : Run answered.0
answered_run = Reach-trans group_of_keys (get_client parse) asked.1 answered.1

gets_agree_example : ◌≡◌ {A = ℕ} 1 1
gets_agree_example =
    gets_agree group_of_keys parse 0 1 "a" 1 1 nobody-IsStart answered_run here a_is_answered.0
      a_is_answered.1
