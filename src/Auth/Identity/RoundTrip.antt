-- ===== src/Auth/Identity/RoundTrip.antt =====
-- `tenantIDFromIdentityURL` on the paths that the identity service documents.
use pubsub_event_processor.Common.{
  ℕ, ◌≡◌, refl, ap, ◌∙◌, ◌≢◌, [], ◌∷◌, ◌++◌, Result, ok, arith, All,
}
use pubsub_event_processor.Replay.Cursor.{Bytes}
use pubsub_event_processor.Auth.Identity.{
  trim_left, trim_right, split, is_id, tenant_of_parts, tenant_id_from_identity_url,
}

-- No byte of the segment is the separator.
unfoldable pub IsSegment : ℕ → Bytes → Type 0
IsSegment c s = All (λ x. x ≢ c) s

trim_right_segment : (c : ℕ) (s : Bytes) → IsSegment c s → trim_right c s ≡ s
unfolding trim_right IsSegment
trim_right_segment c [] h = refl
trim_right_segment c (x ∷ []) h = ground arith
trim_right_segment c (x ∷ y ∷ ys) h = ground (arith, trim_right_segment c (y ∷ ys) h.1)

trim_right_append :
    (c : ℕ) (s : Bytes) (x : ℕ) (t : Bytes)
    → trim_right c (x ∷ t) ≡ x ∷ t
    → trim_right c (s ++ x ∷ t) ≡ s ++ x ∷ t
unfolding trim_right
trim_right_append c [] x t h = h
trim_right_append c (y ∷ []) x t h = ground (arith, trim_right_append c [] x t h)
trim_right_append c (y ∷ z ∷ ys) x t h = ground (arith, trim_right_append c (z ∷ ys) x t h)

split_segment : (c : ℕ) (s : Bytes) → IsSegment c s → split c s ≡ s ∷ []
unfolding split IsSegment
split_segment c [] h = refl
split_segment c (x ∷ xs) h = ground (arith, split_segment c xs h.1)

split_append : (c : ℕ) (s t : Bytes) → IsSegment c s → split c (s ++ c ∷ t) ≡ s ∷ split c t
unfolding split IsSegment
split_append c [] t h = ground arith
split_append c (x ∷ xs) t h = ground (arith, split_append c xs t h.1)

-- The path of an identity URL: /id/ORG/USER.
abbrev pub identity_path : Bytes → Bytes → Bytes
identity_path org user = b'/' ∷ b'i' ∷ b'd' ∷ b'/' ∷ (org ++ b'/' ∷ user)

trim_left_path :
    (org user : Bytes)
    → trim_left b'/' (identity_path org user) ≡ b'i' ∷ b'd' ∷ b'/' ∷ (org ++ b'/' ∷ user)
unfolding trim_left
trim_left_path org user = ground arith

trim_right_cons :
    (c x y : ℕ) (xs : Bytes)
    → trim_right c (y ∷ xs) ≡ y ∷ xs
    → trim_right c (x ∷ y ∷ xs) ≡ x ∷ y ∷ xs
unfolding trim_right
trim_right_cons c x y xs h = ground arith

trim_path :
    (org : Bytes) (u : ℕ) (us : Bytes)
    → IsSegment b'/' (u ∷ us)
    → trim_right b'/' (b'i' ∷ b'd' ∷ b'/' ∷ (org ++ b'/' ∷ u ∷ us))
      ≡ b'i' ∷ b'd' ∷ b'/' ∷ (org ++ b'/' ∷ u ∷ us)
trim_path org u us h =
    trim_right_append b'/' (b'i' ∷ b'd' ∷ b'/' ∷ org) b'/' (u ∷ us)
      (trim_right_cons b'/' b'/' u us (trim_right_segment b'/' (u ∷ us) h))

split_path :
    (org user : Bytes)
    → IsSegment b'/' org
    → IsSegment b'/' user
    → split b'/' (b'i' ∷ b'd' ∷ b'/' ∷ (org ++ b'/' ∷ user)) ≡ (b'i' ∷ b'd' ∷ []) ∷ org ∷ user ∷ []
unfolding IsSegment
split_path org user ho hu =
    split_append b'/' (b'i' ∷ b'd' ∷ []) (org ++ b'/' ∷ user) (ground arith)
    ∙ ap (λ ps. (b'i' ∷ b'd' ∷ []) ∷ ps)
        (split_append b'/' org user ho ∙ ap (λ ps. org ∷ ps) (split_segment b'/' user hu))

module _ {X : Type 0} (parse_url : Bytes → Result X Bytes) where
  -- If the path of the identity URL is /id/ORG/USER, with ORG and USER nonempty and free of slashes, then the
  -- tenant is ORG.
  pub identity_tenant :
      (c : ℕ) (url : Bytes) (o : ℕ) (org : Bytes) (u : ℕ) (user : Bytes)
      → parse_url (c ∷ url) ≡ ok (identity_path (o ∷ org) (u ∷ user))
      → IsSegment b'/' (o ∷ org)
      → IsSegment b'/' (u ∷ user)
      → tenant_id_from_identity_url parse_url (c ∷ url) ≡ ok (o ∷ org)
  unfolding tenant_id_from_identity_url tenant_of_parts is_id
  identity_tenant c url o org u user h ho hu =
      rw
        (
          tenant_id_from_identity_url,
          h,
          trim_left_path (o ∷ org) (u ∷ user),
          trim_path (o ∷ org) u user hu,
          split_path (o ∷ org) (u ∷ user) ho hu,
        )
        refl
