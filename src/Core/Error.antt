-- ===== src/Core/Error.antt =====
-- crates/fixer-core/src/error.rs, and `MediaKind` of provider.rs.
use fixer.Common.{
  ℕ, zero, suc, String, ◌≡◌, refl, ap, sym, ◌∙◌, ◌↔◌, Bool, true, PartialEq, nat_beq, nat_beq_iff,
}
use fixer.Std.Text.{Text}

pub data MediaKind : Type 0 where
  movie television anime music book : MediaKind

abbrev media_kind_code : MediaKind → ℕ
media_kind_code movie = 0
media_kind_code television = 1
media_kind_code anime = 2
media_kind_code music = 3
media_kind_code book = 4

media_kind_of : ℕ → MediaKind
media_kind_of zero = movie
media_kind_of (suc zero) = television
media_kind_of (suc (suc zero)) = anime
media_kind_of (suc (suc (suc zero))) = music
media_kind_of (suc (suc (suc (suc n)))) = book

media_kind_of-code : (k : MediaKind) → media_kind_of (media_kind_code k) ≡ k
unfolding media_kind_of
media_kind_of-code movie = refl
media_kind_of-code _ = refl

abbrev pub media_kind_beq : MediaKind → MediaKind → Bool
media_kind_beq a b = nat_beq (media_kind_code a) (media_kind_code b)

pub media_kind_beq_iff : (a b : MediaKind) → (media_kind_beq a b ≡ true) ↔ (a ≡ b)
media_kind_beq_iff a b = (
  λ h.
      sym (media_kind_of-code a)
      ∙ ap media_kind_of ((nat_beq_iff (media_kind_code a) (media_kind_code b)).0 h)
      ∙ media_kind_of-code b,
  λ e. (nat_beq_iff (media_kind_code a) (media_kind_code b)).1 (ap media_kind_code e),
)

instance abbrev pub media_kind_eq : PartialEq MediaKind
media_kind_eq = record { same = media_kind_beq; same_iff = media_kind_beq_iff }

pub data CoreError : Type 0 where
  invalid_language_tag : Text → CoreError
  invalid_provider_id : Text → CoreError
  invalid_external_id : String → Text → CoreError
  invalid_provider_target : Text → MediaKind → Text → CoreError
  invalid_domain_value : String → Text → CoreError
  invalid_field_path : Text → CoreError
