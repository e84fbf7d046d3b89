-- ===== src/App/Slots.antt =====
-- The slots that `App.ack` of internal/app/app.go returns.
use pubsub_event_processor.Common.{
  ℕ, ◌+◌, ◌≡◌, inl, inr, refl, String, List, [], ◌∷◌, arith, map, Has, ite, string_discrete, ◌≢◌,
}
use pubsub_event_processor.Replay.Committer.{Committer}
use pubsub_event_processor.Worker.{RawEvent}
use pubsub_event_processor.App.{Subscription, ack_first, ack}

-- The slots of the topic that its subscribers have not requested again yet.
unfoldable pub slots_of : String → List Subscription → ℕ
slots_of t [] = 0
slots_of t (s ∷ subs) =
    let rest = slots_of t subs in ite (string_discrete s.topic t) (s.pending_ack + rest) rest

ack_first_slots :
    (t : String) (subs : List Subscription)
    → Has t (map (λ s. s.topic) subs)
    → slots_of t (ack_first t subs) ≡ slots_of t subs + 1
unfolding slots_of ack_first
ack_first_slots t [] h = absurd h
ack_first_slots t (s ∷ subs) (inl e) = grind arith
ack_first_slots t (s ∷ subs) (inr h) = grind (arith, ack_first_slots t subs h)

ack_first_others :
    (t u : String) (subs : List Subscription)
    → u ≢ t
    → slots_of u (ack_first t subs) ≡ slots_of u subs
unfolding slots_of ack_first
ack_first_others t u [] h = refl
ack_first_others t u (s ∷ subs) h = grind (arith, ack_first_others t u subs h)

-- If a subscriber has the topic of the event, then `ack` adds one to the slots that its topic gets back, and
-- the slots of every other topic stay as they were.
pub ack_returns_slot :
    (e : RawEvent) (c : Committer) (subs : List Subscription)
    → Has e.topic (map (λ s. s.topic) subs)
    → (slots_of e.topic (ack e (c, subs)).1 ≡ slots_of e.topic subs + 1)
      × ((u : String) → u ≢ e.topic → slots_of u (ack e (c, subs)).1 ≡ slots_of u subs)
unfolding ack
ack_returns_slot e c subs h =
    (ack_first_slots e.topic subs h, λ u ne. ack_first_others e.topic u subs ne)
