-- ===== src/Images/Naming.antt =====
-- The names of images in deploy/images/record-digests.mjs: what stands before a colon, and digests.
use mathlib.Core.Option.{some-injective}
use mathlib.Core.List.{Memᴰ}
use cartyx_infrastructure.Base.{
  sym, Text, text, List, [], ◌∷◌, ◌++◌, true, not, ◌||◌, ◌==◌, Option, none, some, ◌≡◌, inl, inr,
  refl, every, Bool-cases, starts_with, text_eq_refl, arith,
}
use cartyx_infrastructure.Images.{is_lower, is_digit, is_owner, same_value}
use cartyx_infrastructure.Images.Recording.{before_colon, digest_for}

abbrev pub HasNoColon : Text → Type 0
HasNoColon s = every (λ c. not (c == b':')) s ≡ true

pub HasNoColon-append : (s t : Text) → HasNoColon s → HasNoColon t → HasNoColon (s ++ t)
HasNoColon-append [] t a b = b
HasNoColon-append (c ∷ s) t a b = ground (arith, HasNoColon-append s t)

pub before_colon-append : (s t : Text) → HasNoColon s → before_colon (s ++ (text ":" ++ t)) ≡ s
unfolding before_colon text
before_colon-append [] t h = refl
before_colon-append (c ∷ s) t h = ground (arith, before_colon-append s t)

owner_units :
    (s : Text) → every (λ c. is_lower c || is_digit c || (c == b'-')) s ≡ true → HasNoColon s
owner_units [] h = refl
owner_units (c ∷ s) h = ground (arith, owner_units s)

pub is_owner-HasNoColon : (s : Text) → is_owner s ≡ true → HasNoColon s
unfolding is_owner
is_owner-HasNoColon s h = owner_units s (ground arith)

pub same_value_refl : (v : Option Text) → same_value v v ≡ true
unfolding same_value
same_value_refl none = refl
same_value_refl (some s) = text_eq_refl s

pub digest_for-prefix :
    (repository d : Text) (ds : List Text)
    → digest_for repository ds ≡ some d
    → starts_with d (repository ++ text "@sha256:") ≡ true
unfolding digest_for
digest_for-prefix repository d [] h = cc h
digest_for-prefix repository d (d' ∷ ds) h =
    elim (Bool-cases (starts_with d' (repository ++ text "@sha256:"))) [
      | inl found ↦ (let same : some d' ≡ some d = rw found at h in cc (same, found))
      | inr other ↦ digest_for-prefix repository d ds (rw other at h)
    ]

pub digest_for-Memᴰ :
    (repository d : Text) (ds : List Text) → digest_for repository ds ≡ some d → Memᴰ d ds
unfolding digest_for
digest_for-Memᴰ repository d [] h = cc h
digest_for-Memᴰ repository d (d' ∷ ds) h =
    elim (Bool-cases (starts_with d' (repository ++ text "@sha256:"))) [
      | inl found ↦
          (let same : some d' ≡ some d = rw found at h in
            Memᴰ.head (sym (some-injective d' d same)))
      | inr other ↦ Memᴰ.tail (digest_for-Memᴰ repository d ds (rw other at h))
    ]
