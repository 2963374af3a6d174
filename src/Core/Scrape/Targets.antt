-- ===== src/Core/Scrape/Targets.antt =====
-- crates/fixer-core/src/scrape.rs: exact TMDB targets and output fingerprints.
use fixer.Common.{
  ℕ, ◌<◌, ◌≡◌, refl, true, false, not, ◌⊎◌, ◌↔◌, [], ◌∷◌, arith, ◌==◌, nat_eq, all, any, map,
}
use fixer.Std.Text.{
  Text, text, len, len_utf8, is_control, is_ascii_digit, is_ascii_hexdigit, ascii_lower,
  to_ascii_lowercase,
}
use fixer.Std.Result.{ok}
use fixer.Core.Error.{MediaKind, movie, television}
use fixer.Core.Scrape.{ProviderTarget, tmdb, OutputFingerprint, new_fingerprint}

digits_no_control : (s : Text) → all is_ascii_digit s ≡ true → any is_control s ≡ false
digits_no_control [] h = refl
digits_no_control (c ∷ s) h = ground (arith, digits_no_control s)

abbrev pub tmdb_target : MediaKind → Text → ProviderTarget
tmdb_target media_kind id = record {
  media_kind = media_kind;
  provider = record { as_str = text "tmdb" };
  external_id = record { namespace = text "tmdb"; value = id };
}

-- A TMDB target is accepted exactly for a movie or television id of ASCII digits, not all of them
-- zero, of at most 512 bytes; it then names that id in the namespace `tmdb`.
pub tmdb_iff :
    (media_kind : MediaKind) (id : Text)
    → (tmdb media_kind id ≡ ok (tmdb_target media_kind id)) ↔ (
        ((media_kind ≡ movie) ⊎ (media_kind ≡ television))
        × (all is_ascii_digit id ≡ true)
        × (any (λ byte. not (byte == b'0')) id ≡ true)
        × (len id < 513))
unfolding tmdb
tmdb_iff media_kind id =
    (λ h. ground (arith, digits_no_control id), λ h. ground (arith, digits_no_control id))

lower_hexdigit : (c : ℕ) → is_ascii_hexdigit c ≡ true → is_ascii_hexdigit (ascii_lower c) ≡ true
unfolding ascii_lower
lower_hexdigit c h = ground arith

lower_len : (c : ℕ) → len_utf8 (ascii_lower c) ≡ len_utf8 c
unfolding ascii_lower
lower_len c = ground arith

lower_idem : (c : ℕ) → ascii_lower (ascii_lower c) ≡ ascii_lower c
unfolding ascii_lower
lower_idem c = ground arith

all-lower :
    (s : Text) → all is_ascii_hexdigit s ≡ true → all is_ascii_hexdigit (map ascii_lower s) ≡ true
all-lower [] h = refl
all-lower (c ∷ s) h = ground (arith, lower_hexdigit c, all-lower s)

len-lower : (s : Text) → len (map ascii_lower s) ≡ len s
len-lower [] = refl
len-lower (c ∷ s) = omega (arith, lower_len c, len-lower s)

map-lower_idem : (s : Text) → map ascii_lower (map ascii_lower s) ≡ map ascii_lower s
map-lower_idem [] = refl
map-lower_idem (c ∷ s) = cc (lower_idem c, map-lower_idem s)

-- A fingerprint is kept in lower case: reading back the text of an accepted fingerprint gives the
-- same fingerprint, and it has 64 hexadecimal digits.
pub new_fingerprint_idem :
    (value : Text) {fingerprint : OutputFingerprint}
    → new_fingerprint value ≡ ok fingerprint
    → (new_fingerprint fingerprint.as_str ≡ ok fingerprint)
      × (len fingerprint.as_str ≡ 64)
      × (all is_ascii_hexdigit fingerprint.as_str ≡ true)
unfolding new_fingerprint to_ascii_lowercase
new_fingerprint_idem value {fingerprint} h =
    ground (arith, all-lower value, len-lower value, map-lower_idem value)
