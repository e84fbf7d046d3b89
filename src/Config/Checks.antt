-- ===== src/Config/Checks.antt =====
-- Lists of errors that are empty: the single tests that `Validate` is made of.
use Prim.Native.String.{String}
use pubsub_event_processor.Common.{
  ◌≡◌, ◌≢◌, refl, ◌⊎◌, ◌↔◌, inl, inr, Bool, true, false, not, ◌||◌, List, [], ◌∷◌, ◌++◌,
  if◌then◌else◌, ℤ, pos, negsuc, Within, AtLeast, lt_const, gt_const, arith,
}
use pubsub_event_processor.Config.{ConfigError, check, is_empty}

pub append_nil_iff {ℓ} : {A : Type ℓ} (xs ys : List A) → (xs ++ ys ≡ []) ↔ ((xs ≡ []) × (ys ≡ []))
append_nil_iff [] ys = (λ h. (refl, h), λ h. h.1)
append_nil_iff (x ∷ xs) ys = (λ h. absurd (cc), λ h. absurd (cc (h.0)))

pub AtLeast-iff : (z : ℤ) (e : ConfigError) → (check (lt_const z 1) e ≡ []) ↔ AtLeast 1 z
AtLeast-iff (pos n) e = (λ h. ground arith, λ h. ground arith)
AtLeast-iff (negsuc n) e = (λ h. absurd (cc), λ h. absurd h)

pub Within-iff :
    (z : ℤ) (e : ConfigError) → (check (lt_const z 1 || gt_const z 1000) e ≡ []) ↔ Within 1 1000 z
Within-iff (pos n) e = (λ h. ground arith, λ h. ground arith)
Within-iff (negsuc n) e = (λ h. absurd (cc), λ h. absurd h)

pub not_empty_iff : (s : String) (e : ConfigError) → (check (is_empty s) e ≡ []) ↔ (s ≢ "")
not_empty_iff s e = (λ h. ground arith, λ h. ground arith)

pub host_port_iff : (b : Bool) (e : ConfigError) → (check (not b) e ≡ []) ↔ (b ≡ true)
host_port_iff true e = (λ h. refl, λ h. refl)
host_port_iff false e = (λ h. absurd (cc), λ h. absurd (cc))

pub join_iff {ℓ} :
    {P : Type ℓ} {Q : Type ℓ} (xs ys : List ConfigError)
    → (xs ≡ []) ↔ P
    → (ys ≡ []) ↔ Q
    → (xs ++ ys ≡ []) ↔ (P × Q)
join_iff xs ys p q =
    let split = append_nil_iff xs ys in
    (λ h. (p.0 (split.0 h).0, q.0 (split.0 h).1), λ h. split.1 (p.1 h.0, q.1 h.1))

-- A list that is empty, or that has the errors of a switched part.
pub switched_iff :
    {P : Type 0} (on : Bool) (xs : List ConfigError)
    → (xs ≡ []) ↔ P
    → ((if on then xs else []) ≡ []) ↔ ((on ≡ false) ⊎ P)
switched_iff true xs p =
    (λ h. inr (p.0 h), λ h. elim h [ inl off ↦ absurd (cc off) | inr q ↦ p.1 q ])
switched_iff false xs p = (λ h. inl refl, λ h. refl)
