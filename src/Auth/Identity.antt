-- ===== src/Auth/Identity.antt =====
-- `tenantIDFromIdentityURL`, and the functions of `strings` that it uses, over bytes.
pub mod RoundTrip
use pubsub_event_processor.Common.{
  ℕ, Bool, true, false, List, [], ◌∷◌, ◌++◌, Result, ok, err, Error, cause, message, if◌then◌else◌,
  ◌==◌, ite, ℕ_discrete,
}
use mathlib.Core.List.{reverse}
use pubsub_event_processor.Replay.Cursor.{Bytes}

-- strings.TrimLeft(s, "/") and strings.TrimRight(s, "/") for one byte.
unfoldable pub trim_left : ℕ → Bytes → Bytes
trim_left c [] = []
trim_left c (x ∷ xs) = let rest = trim_left c xs in if x == c then rest else x ∷ xs

unfoldable pub trim_right : ℕ → Bytes → Bytes
trim_right c [] = []
trim_right c (x ∷ xs) = elim (trim_right c xs) [
  | [] ↦ if x == c then [] else x ∷ []
  | y ∷ ys ↦ x ∷ y ∷ ys
]

-- strings.Trim
abbrev pub trim : ℕ → Bytes → Bytes
trim c s = trim_right c (trim_left c s)

abbrev pub cons_head : ℕ → List Bytes → List Bytes
cons_head x [] = (x ∷ []) ∷ []
cons_head x (p ∷ ps) = (x ∷ p) ∷ ps

-- strings.Split(s, "/"): never the empty list.
unfoldable pub split : ℕ → Bytes → List Bytes
split c [] = [] ∷ []
split c (x ∷ xs) = let rest = split c xs in if x == c then [] ∷ rest else cons_head x rest

-- parts[0] != "id"
unfoldable pub is_id : Bytes → Bool
is_id (a ∷ b ∷ []) = if a == b'i' then b == b'd' else false
is_id _ = false

-- The tests on the parts of the path.
unfoldable pub tenant_of_parts : {X : Type 0} → List Bytes → Result (Error X) Bytes
unfolding is_id
tenant_of_parts [] = err (message "unexpected identity path")
tenant_of_parts (p ∷ []) = err (message "unexpected identity path")
tenant_of_parts (p ∷ [] ∷ ps) =
    if is_id p
    then err (message "empty org id segment")
    else err (message "unexpected identity path")
tenant_of_parts (p ∷ (x ∷ xs) ∷ ps) =
    if is_id p then ok (x ∷ xs) else err (message "unexpected identity path")

-- `tenantIDFromIdentityURL`; `parse_url` gives the path of the URL.
unfoldable pub tenant_id_from_identity_url :
    {X : Type 0} → (Bytes → Result X Bytes) → Bytes → Result (Error X) Bytes
unfolding tenant_of_parts
tenant_id_from_identity_url parse_url [] = err (message "identity URL is empty")
tenant_id_from_identity_url parse_url (c ∷ s) = elim (parse_url (c ∷ s)) [
  | err x ↦ err (cause x)
  | ok path ↦ tenant_of_parts (split b'/' (trim b'/' path))
]
