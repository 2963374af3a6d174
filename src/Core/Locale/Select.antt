-- ===== src/Core/Locale/Select.antt =====
-- Which value crates/fixer-core/src/locale.rs selects.
use fixer.Common.{
  ◌≡◌, refl, ap, Bool, true, false, ◌&&◌, ◌||◌, Option, none, some, List, [], ◌∷◌, ◌++◌, nat_eq,
  list_eq, if◌then◌else◌, contains, any, arith, ◌↔◌, list_beq_iff, ◌∙◌,
}
use fixer.Std.Text.{Text, text}
use fixer.Core.Locale.{
  LanguageTag, LocalizedEntry, tagged, untagged, LocalizedValue, LocalePolicy, exact, exact_any,
  exact_preferred, exact_parents, first_untagged, select, or_else, parent_normalized_tags,
}

abbrev preferred_keys : List LanguageTag → List Text
preferred_keys [] = []
preferred_keys (tag ∷ tags) = tag.normalized ∷ preferred_keys tags

abbrev parent_keys : List LanguageTag → List Text
parent_keys [] = []
parent_keys (tag ∷ tags) = parent_normalized_tags tag ++ parent_keys tags

-- The tags that a policy looks up, the most preferred one first: the preferred tags, then the
-- parents of each of them, then `und`.
abbrev pub lookup_keys : LocalePolicy → List Text
lookup_keys policy =
    preferred_keys policy.preferred
    ++ (if policy.parent_language_fallback then parent_keys policy.preferred else [])
    ++ (if policy.undefined_language_fallback then text "und" ∷ [] else [])

module _ {ℓ} {A : Type ℓ} where
  -- The entry has no tag of the list.
  abbrev pub is_tagged_in : List Text → LocalizedEntry A → Bool
  is_tagged_in keys (tagged language value) = contains keys language.normalized
  is_tagged_in keys (untagged value) = false

  abbrev pub is_untagged : LocalizedEntry A → Bool
  is_untagged (tagged language value) = false
  is_untagged (untagged value) = true

  exact_any-append :
      (l m : List Text) (entries : List (LocalizedEntry A))
      → exact_any (l ++ m) entries ≡ or_else (exact_any l entries) (exact_any m entries)
  exact_any-append [] m entries = refl
  exact_any-append (k ∷ l) m entries = ground (arith, exact_any-append l m entries)

  exact_preferred_keys :
      (tags : List LanguageTag) (entries : List (LocalizedEntry A))
      → exact_preferred tags entries ≡ exact_any (preferred_keys tags) entries
  exact_preferred_keys [] entries = refl
  exact_preferred_keys (tag ∷ tags) entries = ground (arith, exact_preferred_keys tags entries)

  exact_parent_keys :
      (tags : List LanguageTag) (entries : List (LocalizedEntry A))
      → exact_parents tags entries ≡ exact_any (parent_keys tags) entries
  exact_parent_keys [] entries = refl
  exact_parent_keys (tag ∷ tags) entries =
      rw (exact_any-append (parent_normalized_tags tag) (parent_keys tags) entries) (
        ap (or_else (exact_any (parent_normalized_tags tag) entries))
          (exact_parent_keys tags entries))

  exact_any_if :
      (b : Bool) (l : List Text) (entries : List (LocalizedEntry A))
      → exact_any (if b then l else []) entries ≡ (if b then exact_any l entries else none)
  exact_any_if true l entries = refl
  exact_any_if false l entries = refl

  or_else_assoc : (a b c : Option A) → or_else (or_else a b) c ≡ or_else a (or_else b c)
  or_else_assoc none b c = refl
  or_else_assoc (some a) b c = refl

  exact_single :
      (entries : List (LocalizedEntry A)) (k : Text) → exact_any (k ∷ []) entries ≡ exact entries k
  exact_single entries k = ground arith

  exact_any-append3 :
      (k l m : List Text) (entries : List (LocalizedEntry A))
      → exact_any (k ++ l ++ m) entries
        ≡ or_else (exact_any k entries) (or_else (exact_any l entries) (exact_any m entries))
  exact_any-append3 k l m entries =
      exact_any-append (k ++ l) m entries
      ∙ ap (λ (z : Option A). or_else z (exact_any m entries)) (exact_any-append k l entries)
      ∙ or_else_assoc (exact_any k entries) (exact_any l entries) (exact_any m entries)

  -- The selection is one search: the first tag of the lookup order that has an entry decides, and
  -- only if there is none, the first untagged entry where the policy falls back to it.
  pub select_lem :
      (policy : LocalePolicy) (v : LocalizedValue A)
      → select policy v
        ≡ or_else
            (exact_any (lookup_keys policy) v.entries)
            (if policy.untagged_fallback then first_untagged v.entries else none)
  unfolding select
  select_lem policy v = ground (
    arith,
    exact_preferred_keys policy.preferred v.entries,
    exact_parent_keys policy.preferred v.entries,
    exact_any-append3 (preferred_keys policy.preferred)
        (if policy.parent_language_fallback then parent_keys policy.preferred else [])
        (if policy.undefined_language_fallback then text "und" ∷ [] else []) v.entries,
    exact_any_if policy.parent_language_fallback (parent_keys policy.preferred) v.entries,
    exact_any_if policy.undefined_language_fallback (text "und" ∷ []) v.entries,
    exact_single v.entries (text "und"),
  )

  exact-eq-none :
      (entries : List (LocalizedEntry A)) (k : Text)
      → (exact entries k ≡ none) ↔ (any (is_tagged_in (k ∷ [])) entries ≡ false)
  unfolding exact
  exact-eq-none [] k = (λ h. refl, λ h. refl)
  exact-eq-none (tagged language value ∷ entries) k = ground (
    arith,
    exact-eq-none entries k,
    list_beq_iff language.normalized k,
    list_beq_iff k language.normalized,
  )
  exact-eq-none (untagged value ∷ entries) k = exact-eq-none entries k

  any-tagged :
      (k : Text) (keys : List Text) (entries : List (LocalizedEntry A))
      → any (is_tagged_in (k ∷ keys)) entries
        ≡ (any (is_tagged_in (k ∷ [])) entries || any (is_tagged_in keys) entries)
  any-tagged k keys [] = refl
  any-tagged k keys (tagged language value ∷ entries) = ground (arith, any-tagged k keys entries)
  any-tagged k keys (untagged value ∷ entries) = any-tagged k keys entries

  none-tagged : (entries : List (LocalizedEntry A)) → any (is_tagged_in []) entries ≡ false
  none-tagged [] = refl
  none-tagged (tagged language value ∷ entries) = none-tagged entries
  none-tagged (untagged value ∷ entries) = none-tagged entries

  exact_any-eq-none :
      (keys : List Text) (entries : List (LocalizedEntry A))
      → (exact_any keys entries ≡ none) ↔ (any (is_tagged_in keys) entries ≡ false)
  exact_any-eq-none [] entries = (λ h. none-tagged entries, λ h. refl)
  exact_any-eq-none (k ∷ keys) entries =
      ground
        (arith, exact-eq-none entries k, any-tagged k keys entries, exact_any-eq-none keys entries)

  first_untagged-eq-none :
      (entries : List (LocalizedEntry A))
      → (first_untagged entries ≡ none) ↔ (any is_untagged entries ≡ false)
  first_untagged-eq-none [] = (λ h. refl, λ h. refl)
  first_untagged-eq-none (tagged language value ∷ entries) = first_untagged-eq-none entries
  first_untagged-eq-none (untagged value ∷ entries) = (λ h. absurd (cc h), λ h. absurd (cc h))

  -- Nothing is selected exactly where no entry has a tag of the lookup order, and the policy does
  -- not fall back to untagged entries or there is none.
  pub select-eq-none :
      (policy : LocalePolicy) (v : LocalizedValue A)
      → (select policy v ≡ none) ↔ (
          (any (is_tagged_in (lookup_keys policy)) v.entries ≡ false)
          × ((policy.untagged_fallback && any is_untagged v.entries) ≡ false))
  select-eq-none policy v = ground (
    arith,
    select_lem policy v,
    exact_any-eq-none (lookup_keys policy) v.entries,
    first_untagged-eq-none v.entries,
  )
