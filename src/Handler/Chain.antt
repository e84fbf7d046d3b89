-- ===== src/Handler/Chain.antt =====
-- internal/handler/chain.go
pub mod Order
use pubsub_event_processor.Common.{
  ℕ, ◌+◌, String, Option, none, some, List, [], ◌∷◌, Error, wrap, numbered,
}
use pubsub_event_processor.Event.{DecodedEvent}
use pubsub_event_processor.Handler.{Handler}

module _ {P X S : Type 0} where
  -- The loop of `Chain.Handle`, from handler `i` on.
  unfoldable pub chain_from : ℕ → List (Handler P X S) → DecodedEvent P → S → Option (Error X) × S
  chain_from i [] e s = (none, s)
  chain_from i (h ∷ hs) e s =
      let (r, s') = h e s in
      elim r [
        | none ↦ chain_from (i + 1) hs e s'
        | some x ↦ (some (wrap (numbered "chain step" i) x), s')
      ]

  -- `Chain.Handle`
  unfoldable pub chain : List (Handler P X S) → Handler P X S
  unfolding chain_from
  chain hs e s = chain_from 0 hs e s
