-- ===== src/Core/Merge/Precedence.antt =====
-- The precedence of providers in crates/fixer-core/src/merge/policy.rs.
use fixer.Common.{
  ℕ, ◌+◌, ◌≤◌, ◌<◌, ◌≡◌, refl, ap, Bool, true, false, ◌&&◌, some, List, [], ◌∷◌, ◌++◌, ◌==◌, nat_eq,
  list_eq, if◌then◌else◌, all, contains, IsDistinct, is_empty, arith, ◌↔◌, ◌∙◌, length,
}
use fixer.Std.Text.{Text, split, push_first}
use fixer.Std.Map.{get, get-put}
use fixer.Std.Result.{ok}
use fixer.Core.Error.{MediaKind, media_kind_eq}
use fixer.Core.Identity.{ProviderId, provider_eq, provider_beq_iff}
use fixer.Core.Merge.Policy.{
  FieldPath, is_segment, is_field_path, new_field_path, field_path_eq, MergePolicy, deduplicate,
  with_media_order, with_field_order, order_for, usize_max, position, provider_rank,
  deduplicate_from-IsDistinct, contains-deduplicate_from, first_order,
}

-- Deduplication leaves every provider once: none twice, and the same providers as given.
pub deduplicate-IsDistinct :
    (order : List ProviderId)
    → IsDistinct (deduplicate order)
      × ((q : ProviderId) → contains (deduplicate order) q ≡ contains order q)
unfolding deduplicate
deduplicate-IsDistinct order =
    (deduplicate_from-IsDistinct [] order tt, contains-deduplicate_from [] order)

-- An override of a field decides that field for every media kind and no other field; an override
-- of a media kind decides the fields without an override of that media kind, and nothing else.
pub order_for_lem :
    (policy : MergePolicy) (kind media_kind : MediaKind) (field field_path : FieldPath)
    (order : List ProviderId)
    → (order_for (with_field_order field order policy) media_kind field_path ≡ (
        if field == field_path then deduplicate order else order_for policy media_kind field_path))
      × (order_for (with_media_order kind order policy) media_kind field_path
          ≡ first_order
              (get field_path policy.field_order)
              (if kind == media_kind
                then some (deduplicate order)
                else get media_kind policy.media_order)
              policy.global_order)
unfolding order_for with_field_order with_media_order
order_for_lem policy kind media_kind field field_path order = (
  ground (arith, get-put field field_path (deduplicate order) policy.field_order),
  ground (arith, get-put kind media_kind (deduplicate order) policy.media_order),
)

position_bounds :
    (l : List ProviderId) (p : ProviderId) (at : ℕ)
    → at + length l < usize_max
    → (position l p at < usize_max) ↔ (contains l p ≡ true)
unfolding position
position_bounds [] p at h = (λ k. absurd (omega arith), λ k. absurd (cc k))
position_bounds (x ∷ l) p at h = ground (arith, position_bounds l p (at + 1), h)

position_ge :
    (l : List ProviderId) (p : ProviderId) (at : ℕ)
    → at + length l < usize_max
    → at ≤ position l p at
unfolding position
position_ge [] p at h = omega arith
position_ge (x ∷ l) p at h = ground (arith, position_ge l p (at + 1), h)

position_injective :
    (l : List ProviderId) (p q : ProviderId) (at : ℕ)
    → at + length l < usize_max
    → contains l p ≡ true
    → position l p at ≡ position l q at
    → p ≡ q
unfolding position
position_injective [] p q at h c e = absurd (cc c)
position_injective (x ∷ l) p q at h c e = ground (
  arith,
  position_injective l p q (at + 1),
  position_ge l p (at + 1),
  position_ge l q (at + 1),
  provider_beq_iff x p,
  provider_beq_iff x q,
  h,
  c,
  e,
)

-- A provider that the effective order names has a rank that no other provider has, and exactly
-- the named providers rank before `usize::MAX`, where the order is shorter than that.
pub provider_rank_lem :
    (policy : MergePolicy) (media_kind : MediaKind) (field_path : FieldPath) (p q : ProviderId)
    → length (order_for policy media_kind field_path) < usize_max
    → contains (order_for policy media_kind field_path) p ≡ true
    → ((provider_rank policy media_kind field_path p ≡ provider_rank policy media_kind field_path q)
        ↔ (p ≡ q))
      × ((provider_rank policy media_kind field_path q < usize_max)
          ↔ (contains (order_for policy media_kind field_path) q ≡ true))
unfolding provider_rank
provider_rank_lem policy media_kind field_path p q h c =
    let order = order_for policy media_kind field_path in
    let h' : 0 + length order < usize_max = omega arith in
    (
      (position_injective order p q 0 h' c, λ e. ap (λ x. position order x 0) e),
      position_bounds order q 0 h',
    )

push_first-filled : (c : ℕ) (l : List Text) → is_empty (push_first c l) ≡ false
unfolding push_first
push_first-filled c [] = refl
push_first-filled c (w ∷ l) = refl

split-filled : (sep : ℕ) (s : Text) → is_empty (split sep s) ≡ false
unfolding split push_first
split-filled sep [] = refl
split-filled sep (c ∷ s) = ground (arith, push_first-filled c (split sep s))

push_first-append :
    (c : ℕ) (l m : List Text) → is_empty l ≡ false → push_first c (l ++ m) ≡ push_first c l ++ m
unfolding push_first
push_first-append c [] m h = absurd (cc h)
push_first-append c (w ∷ l) m h = refl

split-append : (sep : ℕ) (s t : Text) → split sep (s ++ sep ∷ t) ≡ split sep s ++ split sep t
unfolding split
split-append sep [] t = ground arith
split-append sep (c ∷ s) t = ground (
  arith,
  split-append sep s t,
  push_first-append c (split sep s) (split sep t) (split-filled sep s),
)

all-append {ℓ} : {A : Type ℓ} (p : A → Bool) (l m : List A) → all p (l ++ m) ≡ (all p l && all p m)
all-append p [] m = refl
all-append p (x ∷ l) m = ground (arith, all-append p l m)

is_field_path-split : (s : Text) → is_field_path s ≡ all is_segment (split b'.' s)
unfolding split
is_field_path-split [] = refl
is_field_path-split (c ∷ s) = refl

field_path-append :
    (p q : Text) → is_field_path (p ++ b'.' ∷ q) ≡ (is_field_path p && is_field_path q)
field_path-append p q =
    is_field_path-split (p ++ b'.' ∷ q)
    ∙ ap (all is_segment) (split-append b'.' p q)
    ∙ all-append is_segment (split b'.' p) (split b'.' q)
    ∙ rw (is_field_path-split p, is_field_path-split q) refl

-- Two texts joined by a dot are a field path exactly where both are field paths.
pub new_field_path-append :
    (p q : Text)
    → (new_field_path (p ++ b'.' ∷ q) ≡ ok (record { as_str = p ++ b'.' ∷ q })) ↔ (
        (new_field_path p ≡ ok (record { as_str = p }))
        × (new_field_path q ≡ ok (record { as_str = q })))
unfolding new_field_path
new_field_path-append p q =
    (λ h. ground (arith, field_path-append p q, h), λ h. ground (arith, field_path-append p q, h))
