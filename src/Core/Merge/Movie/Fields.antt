-- ===== src/Core/Merge/Movie/Fields.antt =====
-- What the fields of a movie are merged to in crates/fixer-core/src/merge/mod.rs.
use fixer.Common.{
  ◌<◌, length, ◌≡◌, refl, sym, ap, ◌∙◌, true, false, List, [], ◌∷◌, list_eq, nat_eq, All, arith,
  is_empty,
}
use fixer.Std.Text.{Text, text}
use fixer.Std.Sort.{sort_by_key, by_key, All-sort_by}
use fixer.Std.Result.{Result, ok, ◌>>=◌, ok-injective}
use fixer.Core.Error.{movie}
use fixer.Core.Locale.{LocalizedEntry, LocalizedValue, TagParser}
use fixer.Core.Media.Movie.{Movie}
use fixer.Core.Merge.Policy.{MergePolicy, FieldPath, is_field_path, new_field_path}
use fixer.Core.Merge.Provenance.{ProvenanceMap}
use fixer.Core.Merge.Unique.{MergeError, Sourced, ordered_documents, source_rank}
use fixer.Core.Merge.Kept.{values_of, first_of_each, all_values}
use fixer.Core.Merge.First.{merge_unique_lem}
use fixer.Core.Merge.Localized.{MergeConflict, merge_localized, language_key}
use fixer.Core.Merge.Localized.Languages.{IsParsed}
use fixer.Core.Merge.Localized.Fields.{AreParsed, merge_localized-merge_unique}
use fixer.Core.Merge.Movie.{
  Documents, credit_id, release_key, genre_key, artwork_key, rating_key, content_rating_key,
  merge_field,
}
use fixer.Core.Merge.Movie.People.{first_credits}

-- What is computed, and has a property.
abbrev pub Has : {A : Type 0} → Result MergeError A → (A → Type 0) → Type 0
Has {A} r P = (a : A) × (r ≡ ok a) × P a

pub bind_has :
    {A B : Type 0} {P : A → Type 0} {Q : B → Type 0} (r : Result MergeError A)
    (f : A → Result MergeError B)
    → Has r P
    → ((a : A) → P a → Has (f a) Q)
    → Has (r >>= f) Q
bind_has r f (a, e, p) rest = let (b, e', q) = rest a p in (b, rw e e', q)

module _ {A : Type 0} where
  pub length_empty : (xs : List A) → is_empty xs ≡ true → length xs ≡ 0
  length_empty [] h = refl
  length_empty (x ∷ xs) h = absurd (cc h)

  pub length_some : (xs : List A) → is_empty xs ≡ false → 0 < length xs
  length_some [] h = absurd (cc h)
  length_some (x ∷ xs) h = omega arith

abbrev pub at_path : Text → FieldPath
at_path path = record { as_str = path }

module _ {F : Type 0} (policy : MergePolicy) where
  abbrev pub by_rank : Text → Documents F → Documents F
  by_rank path documents = sort_by_key (source_rank policy movie (at_path path)) documents

  -- The first value of each key, over the documents by the precedence of a field.
  abbrev pub firsts : {T : Type 0} → Text → (T → Text) → (Movie F → List T) → Documents F → List T
  firsts path key select documents =
      values_of key (first_of_each key [] (all_values key select (by_rank path documents)))

  pub ordered-ok :
      (path : Text) (documents : Documents F)
      → is_field_path path ≡ true
      → ordered_documents policy movie path documents ≡ ok (by_rank path documents)
  unfolding ordered_documents new_field_path
  ordered-ok path documents valid = rw valid refl

module _ {F : Type 0} (to_lowercase : Text → Text) (policy : MergePolicy) where
  -- A movie with the identity of a base and each field merged on its own.
  pub record IsMerged (base : Movie F) (documents : Documents F) (merged : Movie F) : Type 0 where
    pub id : merged.id ≡ base.id
    pub titles :
        merged.titles.entries
        ≡ firsts policy (text "movie.titles") language_key (λ value. value.titles.entries) documents
    pub summaries :
        merged.summaries.entries
        ≡ firsts policy
            (text "movie.summaries")
            language_key
            (λ value. value.summaries.entries)
            documents
    pub releases :
        merged.releases
        ≡ firsts policy (text "movie.releases") release_key (λ value. value.releases) documents
    pub credits :
        merged.credits
        ≡ values_of credit_id (
            first_credits to_lowercase [] [] (
              all_values credit_id
                (λ (value : Movie F). value.credits)
                (by_rank policy (text "movie.credits") documents)))
    pub genres :
        merged.genres
        ≡ firsts policy
            (text "movie.genres")
            (genre_key to_lowercase)
            (λ value. value.genres)
            documents
    pub artwork :
        merged.artwork
        ≡ firsts policy
            (text "movie.artwork")
            (artwork_key to_lowercase)
            (λ value. value.artwork)
            documents
    pub ratings :
        merged.ratings
        ≡ firsts policy
            (text "movie.ratings")
            (rating_key to_lowercase)
            (λ value. value.ratings)
            documents
    pub content_ratings :
        merged.content_ratings
        ≡ firsts policy
            (text "movie.content_ratings")
            (content_rating_key to_lowercase)
            (λ value. value.content_ratings)
            documents

-- The tags of a document are what the parser gives for their text.
abbrev pub IsRead : {F : Type 0} → TagParser → Sourced (Movie F) → Type 0
IsRead parser document =
    All (IsParsed parser) document.value.titles.entries
    × All (IsParsed parser) document.value.summaries.entries

module _ {F : Type 0} (to_lowercase : Text → Text) (parser : TagParser) (policy : MergePolicy) where
  pub field-firsts :
      {T : Type 0} (path : Text) (key : T → Text) (select : Movie F → List T)
      (documents : Documents F) (provenance : ProvenanceMap)
      → is_field_path path ≡ true
      → Has
          (merge_field to_lowercase parser policy path key select documents provenance)
          (λ merged. merged.0 ≡ firsts policy path key select documents)
  unfolding merge_field
  field-firsts path key select documents provenance valid =
      let (provenance', kept, _) =
        merge_unique_lem path key select (by_rank policy path documents) provenance valid in
      (
        (firsts policy path key select documents, provenance'),
        rw (ordered-ok policy path documents valid, kept) refl,
        refl,
      )

  AreParsed-of_All :
      (path : Text) (select : Movie F → LocalizedValue Text) (documents : Documents F)
      → All
          (λ (document : Sourced (Movie F)). All (IsParsed parser) (select document.value).entries)
          documents
      → AreParsed to_lowercase parser path select documents
  AreParsed-of_All path select [] h = tt
  AreParsed-of_All path select (document ∷ documents) (h, k) =
      (h, AreParsed-of_All path select documents k)

  pub localized-firsts :
      (path : Text) (select : Movie F → LocalizedValue Text) (documents : Documents F)
      (conflicts : List MergeConflict) (provenance : ProvenanceMap)
      → is_field_path path ≡ true
      → All
          (λ (document : Sourced (Movie F)). All (IsParsed parser) (select document.value).entries)
          documents
      → Has
          (merge_localized to_lowercase parser path policy movie select documents conflicts
            provenance)
          (λ merged.
            merged.result.entries
            ≡ firsts policy path language_key (λ value. (select value).entries) documents)
  localized-firsts path select documents conflicts provenance valid parsed =
      let ordered = by_rank policy path documents in
      let (merged, a, b) =
        merge_localized-merge_unique to_lowercase parser path select policy movie documents ordered
          conflicts provenance valid (ordered-ok policy path documents valid)
          (AreParsed-of_All path select ordered (
            All-sort_by (by_key (source_rank policy movie (at_path path)))
              (λ (document : Sourced (Movie F)).
                All (IsParsed parser) (select document.value).entries)
              documents parsed)) in
      let (provenance', kept, _) =
        merge_unique_lem path language_key (λ (value : Movie F). (select value).entries) ordered
          provenance valid in
      (
        merged,
        a,
        ap (λ (z : List (LocalizedEntry Text) × ProvenanceMap). z.0) (ok-injective (sym b ∙ kept)),
      )
