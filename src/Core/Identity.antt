-- ===== src/Core/Identity.antt =====
-- crates/fixer-core/src/identity.rs: provider and external identifiers.
pub mod Grammar
use fixer.Common.{
  ℕ, ◌≡◌, ap, ap, ◌↔◌, Bool, true, false, not, ◌&&◌, ◌||◌, [], ◌∷◌, arith, leb, ltb, ◌==◌, nat_eq,
  list_eq, PartialEq, all, any, is_empty, list_beq_iff, list_beq_refl,
}
use fixer.Std.Text.{Text, len, is_ascii_lowercase, is_ascii_digit, is_control}
use fixer.Std.Result.{Result, ok, ◌>>◌, ensure}
use fixer.Core.Error.{CoreError, invalid_provider_id, invalid_external_id}

abbrev is_id_start : ℕ → Bool
is_id_start ch = is_ascii_lowercase ch || is_ascii_digit ch

abbrev is_id_mark : ℕ → Bool
is_id_mark ch = ch == b'.' || ch == b'-' || ch == b'_'

-- `ProviderId(String)`
pub record ProviderId : Type 0 where
  pub as_str : Text

-- The first character, then the rest.
abbrev provider_chars : Text → Bool
provider_chars [] = false
provider_chars (c ∷ rest) = is_id_start c && all (λ ch. is_id_start ch || is_id_mark ch) rest

unfoldable pub new_provider_id : Text → Result CoreError ProviderId
new_provider_id input = do
  ensure (leb (len input) 128 && provider_chars input) (invalid_provider_id input)
  ok (record { as_str = input })

pub record ExternalId : Type 0 where
  pub namespace : Text
  pub value : Text

-- `(index > 0 && matches!(ch, '.' | '-' | '_')) || lowercase || digit`, at every index.
abbrev namespace_chars : Text → Bool
namespace_chars [] = true
namespace_chars (c ∷ rest) = is_id_start c && all (λ ch. is_id_mark ch || is_id_start ch) rest

unfoldable pub new_external_id : Text → Text → Result CoreError ExternalId
new_external_id namespace value = do
  ensure (namespace_chars namespace && leb (len namespace) 128 && not (is_empty namespace))
      (invalid_external_id "namespace" namespace)
  ensure (not (is_empty value || ltb 512 (len value) || any is_control value))
      (invalid_external_id "value" value)
  ok (record { namespace = namespace; value = value })

abbrev pub provider_beq : ProviderId → ProviderId → Bool
provider_beq p q = p.as_str == q.as_str

pub provider_beq_iff : (p q : ProviderId) → (provider_beq p q ≡ true) ↔ (p ≡ q)
provider_beq_iff p q = (
  λ h. ground (arith, list_beq_iff p.as_str q.as_str),
  λ e. (list_beq_iff p.as_str q.as_str).1 (ap (λ (r : ProviderId). r.as_str) e),
)

instance abbrev pub provider_eq : PartialEq ProviderId
provider_eq = record { same = provider_beq; same_iff = provider_beq_iff }

abbrev pub external_id_beq : ExternalId → ExternalId → Bool
external_id_beq a b = a.namespace == b.namespace && a.value == b.value

pub external_id_beq_iff : (a b : ExternalId) → (external_id_beq a b ≡ true) ↔ (a ≡ b)
external_id_beq_iff a b = (
  λ h. ground (arith, list_beq_iff a.namespace b.namespace, list_beq_iff a.value b.value),
  λ e. rw e (ground (arith, list_beq_refl b.namespace, list_beq_refl b.value)),
)

instance abbrev pub external_id_eq : PartialEq ExternalId
external_id_eq = record { same = external_id_beq; same_iff = external_id_beq_iff }
