-- ===== src/Core/Identity/Grammar.antt =====
-- crates/fixer-core/src/identity.rs: the two validators accept the same namespaces.
use fixer.Common.{
  ◌≡◌, refl, false, not, ◌&&◌, ◌||◌, [], ◌∷◌, arith, nat_eq, all, any, is_empty, ◌↔◌, ◌<◌,
}
use fixer.Std.Text.{Text, len, is_control}
use fixer.Std.Result.{ok}
use fixer.Core.Identity.{
  new_provider_id, new_external_id, is_id_start, is_id_mark, provider_chars, namespace_chars,
}

rest_chars :
    (s : Text)
    → all (λ ch. is_id_mark ch || is_id_start ch) s ≡ all (λ ch. is_id_start ch || is_id_mark ch) s
rest_chars [] = refl
rest_chars (c ∷ s) = rw (rest_chars s) (ground arith)

chars-agree : (s : Text) → (namespace_chars s && not (is_empty s)) ≡ provider_chars s
chars-agree [] = refl
chars-agree (c ∷ s) = rw (rest_chars s) (ground arith)

-- An external identifier is accepted exactly where its namespace is a valid provider identifier
-- and its value is not empty, at most 512 bytes and free of control characters.
pub new_external_id_iff :
    (namespace value : Text)
    → (new_external_id namespace value ≡ ok (record { namespace = namespace; value = value })) ↔ (
        (new_provider_id namespace ≡ ok (record { as_str = namespace }))
        × (is_empty value ≡ false)
        × (len value < 513)
        × (any is_control value ≡ false))
unfolding new_external_id new_provider_id
new_external_id_iff namespace value =
    (λ h. ground (arith, chars-agree namespace), λ h. ground (arith, chars-agree namespace))
