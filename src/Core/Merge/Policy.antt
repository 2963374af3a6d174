-- ===== src/Core/Merge/Policy.antt =====
-- crates/fixer-core/src/merge/policy.rs: field paths and provider precedence.
use fixer.Common.{
  ℕ, ◌+◌, ◌-◌, ◌^◌, ◌≡◌, refl, ap, Bool, true, false, not, ◌&&◌, ◌||◌, Option, none, some, List, [],
  ◌∷◌, ◌++◌, ◌==◌, nat_eq, list_eq, if◌then◌else◌, all, contains, contains-append, IsDistinct,
  is_empty, arith, Bool-cases, inl, inr, ◌↔◌, list_beq_iff, PartialEq,
}
use fixer.Std.Text.{Text, is_ascii_alphanumeric, split}
use fixer.Std.Map.{Map, get, put}
use fixer.Std.Result.{Result, ok, err}
use fixer.Core.Error.{CoreError, MediaKind, media_kind_eq, invalid_field_path}
use fixer.Core.Identity.{ProviderId, provider_eq, provider_beq_iff}

-- `FieldPath(String)`
pub record FieldPath : Type 0 where
  pub as_str : Text

abbrev pub is_segment : Text → Bool
is_segment segment =
    not (is_empty segment)
    && all (λ ch. is_ascii_alphanumeric ch || ch == b'_' || ch == b'-') segment

abbrev pub is_field_path : Text → Bool
is_field_path value = not (is_empty value) && all is_segment (split b'.' value)

unfoldable pub new_field_path : Text → Result CoreError FieldPath
new_field_path value =
    if is_field_path value then ok (record { as_str = value }) else err (invalid_field_path value)

abbrev pub field_path_beq : FieldPath → FieldPath → Bool
field_path_beq p q = p.as_str == q.as_str

pub field_path_beq_iff : (p q : FieldPath) → (field_path_beq p q ≡ true) ↔ (p ≡ q)
field_path_beq_iff p q = (
  λ h. ground (arith, list_beq_iff p.as_str q.as_str),
  λ e. (list_beq_iff p.as_str q.as_str).1 (ap (λ (r : FieldPath). r.as_str) e),
)

instance abbrev pub field_path_eq : PartialEq FieldPath
field_path_eq = record { same = field_path_beq; same_iff = field_path_beq_iff }

pub record MergePolicy : Type 0 where
  pub global_order : List ProviderId
  pub media_order : Map MediaKind (List ProviderId)
  pub field_order : Map FieldPath (List ProviderId)

-- The loop of `deduplicate` with the providers that it has kept.
unfoldable pub deduplicate_from : List ProviderId → List ProviderId → List ProviderId
deduplicate_from result [] = result
deduplicate_from result (provider ∷ order) =
    let kept = deduplicate_from result order in
    let added = deduplicate_from (result ++ provider ∷ []) order in
    if contains result provider then kept else added

unfoldable pub deduplicate : List ProviderId → List ProviderId
unfolding deduplicate_from
deduplicate order = deduplicate_from [] order

unfoldable pub new_merge_policy : List ProviderId → MergePolicy
new_merge_policy order = record {
  global_order = deduplicate order;
  media_order = [];
  field_order = [];
}

unfoldable pub with_media_order : MediaKind → List ProviderId → MergePolicy → MergePolicy
with_media_order media_kind order policy = record policy {
  media_order = put media_kind (deduplicate order) policy.media_order;
}

unfoldable pub with_field_order : FieldPath → List ProviderId → MergePolicy → MergePolicy
with_field_order field_path order policy = record policy {
  field_order = put field_path (deduplicate order) policy.field_order;
}

-- `field.or_else(media).map_or(global)`
abbrev pub first_order :
    Option (List ProviderId) → Option (List ProviderId) → List ProviderId → List ProviderId
first_order (some field) media global = field
first_order none (some media) global = media
first_order none none global = global

unfoldable pub order_for : MergePolicy → MediaKind → FieldPath → List ProviderId
order_for policy media_kind field_path =
    first_order (get field_path policy.field_order) (get media_kind policy.media_order)
      policy.global_order

abbrev pub usize_max : ℕ
usize_max = 2 ^ 64 - 1

-- `position(..).unwrap_or(usize::MAX)`; a list in memory is shorter than that.
unfoldable pub position : List ProviderId → ProviderId → ℕ → ℕ
position [] provider at = usize_max
position (item ∷ items) provider at =
    if item == provider then at else position items provider (at + 1)

unfoldable pub provider_rank : MergePolicy → MediaKind → FieldPath → ProviderId → ℕ
unfolding order_for position
provider_rank policy media_kind field_path provider =
    position (order_for policy media_kind field_path) provider 0

IsDistinct-append :
    (l : List ProviderId) (p : ProviderId)
    → IsDistinct l
    → contains l p ≡ false
    → IsDistinct (l ++ p ∷ [])
IsDistinct-append [] p d h = (refl, tt)
IsDistinct-append (x ∷ l) p d h = (
  ground (arith, contains-append l (p ∷ []) x, d.0, h, provider_beq_iff x p, provider_beq_iff p x),
  IsDistinct-append l p d.1 (ground (arith, h)),
)

pub deduplicate_from-IsDistinct :
    (result order : List ProviderId)
    → IsDistinct result
    → IsDistinct (deduplicate_from result order)
unfolding deduplicate_from
deduplicate_from-IsDistinct result [] d = d
deduplicate_from-IsDistinct result (p ∷ order) d = elim (Bool-cases (contains result p)) [
  | inl known ↦ rw known (deduplicate_from-IsDistinct result order d)
  | inr fresh ↦
      rw fresh
        (deduplicate_from-IsDistinct (result ++ p ∷ []) order (IsDistinct-append result p d fresh))
]

pub contains-deduplicate_from :
    (result order : List ProviderId) (q : ProviderId)
    → contains (deduplicate_from result order) q ≡ (contains result q || contains order q)
unfolding deduplicate_from
contains-deduplicate_from result [] q = ground arith
contains-deduplicate_from result (p ∷ order) q = ground (
  arith,
  contains-deduplicate_from result order q,
  contains-deduplicate_from (result ++ p ∷ []) order q,
  contains-append result (p ∷ []) q,
  provider_beq_iff p q,
)
