-- ===== src/Core/Locale.antt =====
-- crates/fixer-core/src/locale.rs: language tags, localized values and their selection. The parser
-- of BCP 47 tags (the crate language_tags) is a parameter: for a valid tag it gives the canonical
-- form and its primary language.
pub mod Parents
pub mod Select
use fixer.Common.{
  ℕ, zero, suc, Bool, true, false, Option, none, some, List, [], ◌∷◌, ◌++◌, ◌==◌, nat_eq, list_eq,
  if◌then◌else◌, length,
}
use fixer.Std.Text.{Text, text, to_ascii_lowercase}
use fixer.Std.Result.{Result, ok, err, ◌>>=◌}
use fixer.Core.Error.{CoreError, invalid_language_tag}

pub record LanguageTag : Type 0 where
  pub original : Text
  pub normalized : Text
  pub primary_language : Text

-- The parser's answer for the input: the canonical form and the primary language.
abbrev pub TagParser : Type 0
TagParser = Text → Option (Text × Text)

unfoldable pub parse_tag : TagParser → Text → Result CoreError LanguageTag
parse_tag parser input = elim (parser input) [
  | none ↦ err (invalid_language_tag input)
  | some (canonical, primary) ↦ ok (record {
    original = input;
    normalized = to_ascii_lowercase canonical;
    primary_language = to_ascii_lowercase primary;
  })
]

-- str::rsplit_once: the text before the last separator, and the text after it.
unfoldable pub rsplit_once : ℕ → Text → Option (Text × Text)
rsplit_once sep [] = none
rsplit_once sep (c ∷ s) = elim (rsplit_once sep s) [
  | some (before, after) ↦ some (c ∷ before, after)
  | none ↦ if c == sep then some ([], s) else none
]

-- The iterator of `parent_normalized_tags`, for at most the given number of steps.
unfoldable pub parents_from : ℕ → Text → List Text
parents_from zero parent = []
parents_from (suc fuel) parent = elim (rsplit_once b'-' parent) [
  | none ↦ []
  | some (next, rest) ↦ next ∷ parents_from fuel next
]

-- Each step drops at least the separator.
unfoldable pub parent_normalized_tags : LanguageTag → List Text
parent_normalized_tags tag = parents_from (length tag.normalized) tag.normalized

pub data LocalizedEntry {ℓ} (A : Type ℓ) : Type ℓ where
  tagged : LanguageTag → A → LocalizedEntry A
  untagged : A → LocalizedEntry A

abbrev pub value_of {ℓ} : {A : Type ℓ} → LocalizedEntry A → A
value_of (tagged language value) = value
value_of (untagged value) = value

abbrev pub language_of {ℓ} : {A : Type ℓ} → LocalizedEntry A → Option LanguageTag
language_of (tagged language value) = some language
language_of (untagged value) = none

pub record LocalizedValue {ℓ} (A : Type ℓ) : Type ℓ where
  pub entries : List (LocalizedEntry A)

pub record LocalePolicy : Type 0 where
  pub preferred : List LanguageTag
  pub parent_language_fallback : Bool
  pub undefined_language_fallback : Bool
  pub untagged_fallback : Bool

-- `LocalePolicy::new` collects the tags, or gives the first error.
abbrev parse_tags : TagParser → List Text → Result CoreError (List LanguageTag)
parse_tags parser [] = ok []
parse_tags parser (tag ∷ tags) = do
  first ← parse_tag parser tag
  rest ← parse_tags parser tags
  ok (first ∷ rest)

unfoldable pub new_policy : TagParser → List Text → Result CoreError LocalePolicy
new_policy parser preferred = do
  tags ← parse_tags parser preferred
  ok (record {
    preferred = tags;
    parent_language_fallback = true;
    undefined_language_fallback = true;
    untagged_fallback = true;
  })

unfoldable pub with_parent_language_fallback : Bool → LocalePolicy → LocalePolicy
with_parent_language_fallback enabled policy = record policy { parent_language_fallback = enabled }

unfoldable pub with_undefined_language_fallback : Bool → LocalePolicy → LocalePolicy
with_undefined_language_fallback enabled policy = record policy {
  undefined_language_fallback = enabled;
}

unfoldable pub with_untagged_fallback : Bool → LocalePolicy → LocalePolicy
with_untagged_fallback enabled policy = record policy { untagged_fallback = enabled }

-- `if let Some(value) = ... { return Some(value) }`, then the rest.
abbrev pub or_else {ℓ} : {A : Type ℓ} → Option A → Option A → Option A
or_else (some a) rest = some a
or_else none rest = rest

module _ {ℓ} {A : Type ℓ} where
  abbrev pub empty_value : LocalizedValue A
  empty_value = record { entries = [] }

  unfoldable pub insert_tagged :
      TagParser → Text → A → LocalizedValue A → Result CoreError (LocalizedValue A)
  insert_tagged parser language value v = do
    tag ← parse_tag parser language
    ok (record { entries = v.entries ++ tagged tag value ∷ [] })

  unfoldable pub insert_untagged : A → LocalizedValue A → LocalizedValue A
  insert_untagged value v = record { entries = v.entries ++ untagged value ∷ [] }

  unfoldable pub exact : List (LocalizedEntry A) → Text → Option A
  exact [] tag = none
  exact (tagged language value ∷ entries) tag =
      let rest = exact entries tag in if language.normalized == tag then some value else rest
  exact (untagged value ∷ entries) tag = exact entries tag

  abbrev pub first_untagged : List (LocalizedEntry A) → Option A
  first_untagged [] = none
  first_untagged (tagged language value ∷ entries) = first_untagged entries
  first_untagged (untagged value ∷ entries) = some value

  abbrev pub exact_preferred : List LanguageTag → List (LocalizedEntry A) → Option A
  exact_preferred [] entries = none
  exact_preferred (tag ∷ tags) entries =
      or_else (exact entries tag.normalized) (exact_preferred tags entries)

  abbrev pub exact_any : List Text → List (LocalizedEntry A) → Option A
  exact_any [] entries = none
  exact_any (parent ∷ parents) entries = or_else (exact entries parent) (exact_any parents entries)

  abbrev pub exact_parents : List LanguageTag → List (LocalizedEntry A) → Option A
  exact_parents [] entries = none
  exact_parents (tag ∷ tags) entries =
      or_else (exact_any (parent_normalized_tags tag) entries) (exact_parents tags entries)

  unfoldable pub select : LocalePolicy → LocalizedValue A → Option A
  select policy v = or_else (exact_preferred policy.preferred v.entries) (
      or_else
        (if policy.parent_language_fallback then exact_parents policy.preferred v.entries else none)
        (or_else (if policy.undefined_language_fallback then exact v.entries (text "und") else none)
          (if policy.untagged_fallback then first_untagged v.entries else none)))
