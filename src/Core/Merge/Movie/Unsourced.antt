-- ===== src/Core/Merge/Movie/Unsourced.antt =====
-- The provenance of the movie merger of crates/fixer-core/src/merge/mod.rs, and the paths of its
-- conflicts.
use fixer.Common.{
  ◌≡◌, refl, ap, ◌∙◌, true, List, [], ◌∷◌, list_eq, nat_eq, All, All-imp, not, is_empty, arith,
  subst,
}
use fixer.Std.Text.{Text, text, split, push_first}
use fixer.Std.Result.{Result, ok, ◌>>=◌, map_err, >>=-eq-ok, ok-injective, ensure}
use fixer.Core.Error.{movie}
use fixer.Core.Locale.{TagParser}
use fixer.Core.Merge.Policy.{MergePolicy, is_field_path, new_field_path}
use fixer.Core.Merge.Provenance.{ProvenanceMap, sources_for}
use fixer.Std.Sort.{sort_by_key}
use fixer.Core.Merge.Unique.{no_documents, source_rank, MergeError, invalid, ordered_documents}
use fixer.Core.Merge.First.{merge_unique_lem}
use fixer.Core.Merge.Localized.{MergeConflict}
use fixer.Core.Media.Parts.{Credit}
use fixer.Core.Media.Movie.{Movie}
use fixer.Core.Merge.Movie.{
  merge_credits, release_key, genre_key, artwork_key, rating_key, content_rating_key, Documents,
  Resolved, merge_field, merge_fields, merge_sorted, merge_movies,
}
use fixer.Core.Merge.Movie.Credits.{merge_credits-kept}
use fixer.Core.Merge.Localized.Unsourced.{
  IsShallow, IsDeep, IsUnsourced, other_path, dots, merge_localized-Tidy,
}

start-IsShallow : (key : Text) → sources_for key [] ≡ []
unfolding sources_for
start-IsShallow key = refl

pub paths :
    (is_field_path (text "movie.titles") ≡ true)
    × (is_field_path (text "movie.summaries") ≡ true)
    × (is_field_path (text "movie.releases") ≡ true)
    × (is_field_path (text "movie.genres") ≡ true)
    × (is_field_path (text "movie.artwork") ≡ true)
    × (is_field_path (text "movie.ratings") ≡ true)
    × (is_field_path (text "movie.content_ratings") ≡ true)
unfolding split push_first
paths = (refl, refl, refl, refl, refl, refl, refl)

-- What is computed, if it is, has a property.
abbrev Gives : {A : Type 0} → Result MergeError A → (A → Type 0) → Type 0
Gives {A} r P = (a : A) → r ≡ ok a → P a

bind_gives :
    {A B : Type 0} {P : A → Type 0} {Q : B → Type 0} (r : Result MergeError A)
    (f : A → Result MergeError B)
    → Gives r P
    → ((a : A) → P a → Gives (f a) Q)
    → Gives (r >>= f) Q
bind_gives r f first rest b h = let (a, e, e') = >>=-eq-ok r f h in rest a (first a e) b e'

module _ {F : Type 0} (to_lowercase : Text → Text) (parser : TagParser) (policy : MergePolicy) where
  field-IsShallow :
      {T : Type 0} (path : Text) (key : T → Text) (select : Movie F → List T)
      (documents : Documents F) (provenance : ProvenanceMap) {merged : List T × ProvenanceMap}
      → is_field_path path ≡ true
      → dots path ≡ 1
      → merge_field to_lowercase parser policy path key select documents provenance ≡ ok merged
      → IsShallow provenance
      → IsShallow merged.1
  unfolding merge_field
  field-IsShallow path key select documents provenance {merged} valid one h before other deep =
      let (ordered, _, h') = >>=-eq-ok (ordered_documents policy movie path documents) _ h in
      let (provenance', kept, sources) =
        merge_unique_lem path key select ordered provenance valid in
      let same : merged.1 ≡ provenance' = ground (arith, kept, h') in
      ap (sources_for other) same
      ∙ sources other
      ∙ rw (other_path path other (omega (arith, one)) deep) (before other deep)

  credits-IsShallow :
      (documents : Documents F) (provenance : ProvenanceMap) {merged : List Credit × ProvenanceMap}
      → merge_credits to_lowercase (λ (value : Movie F). value.credits) documents provenance
        ≡ ok merged
      → IsShallow provenance
      → IsShallow merged.1
  credits-IsShallow documents provenance {merged} h before other deep =
      let (kept, after, made, _, _, _, _, _, others) =
        merge_credits-kept to_lowercase (λ (value : Movie F). value.credits) documents provenance in
      let same : merged.1 ≡ after = ground (arith, made, h) in
      ap (sources_for other) same
      ∙ others other (other_path (text "movie.credits") other (omega arith) deep)
      ∙ before other deep

  fields-IsUnsourced :
      (base : Movie F) (documents : Documents F)
      → Gives
          (merge_fields to_lowercase parser policy base documents)
          (λ resolved. IsUnsourced resolved.conflicts resolved.provenance)
  unfolding merge_fields
  fields-IsUnsourced base documents =
      let (
        titles_path, summaries_path, releases_path, genres_path, artwork_path, ratings_path,
        content_ratings_path,
      ) =
        paths in
      bind_gives _ _
        (λ titles h.
          merge_localized-Tidy to_lowercase parser (text "movie.titles") titles_path refl policy
            movie (λ (value : Movie F). value.titles) documents [] [] h
            (tt, λ key deep. start-IsShallow key))
        λ titles t.
          bind_gives _ _
            (λ summaries h.
              merge_localized-Tidy to_lowercase parser (text "movie.summaries") summaries_path refl
                policy movie (λ (value : Movie F). value.summaries) documents titles.conflicts
                titles.provenance h t)
            λ summaries (deep, s).
              bind_gives _ _
                (λ releases h.
                  field-IsShallow (text "movie.releases") release_key
                    (λ (value : Movie F). value.releases) documents summaries.provenance
                    releases_path refl h s)
                λ releases s.
                  bind_gives {P = λ _. Unit {0}}
                    (ordered_documents policy movie (text "movie.credits") documents) _ (λ _ _. tt)
                    λ by_credits _.
                      bind_gives
                        (merge_credits to_lowercase (λ (value : Movie F). value.credits) by_credits
                          releases.1)
                        _ (λ credits h. credits-IsShallow by_credits releases.1 h s)
                        λ credits s.
                          bind_gives _ _
                            (λ genres h.
                              field-IsShallow (text "movie.genres") (genre_key to_lowercase)
                                (λ (value : Movie F). value.genres) documents credits.1 genres_path
                                refl h s)
                            λ genres s.
                              bind_gives _ _
                                (λ artwork h.
                                  field-IsShallow (text "movie.artwork") (artwork_key to_lowercase)
                                    (λ (value : Movie F). value.artwork) documents genres.1
                                    artwork_path refl h s)
                                λ artwork s.
                                  bind_gives _ _
                                    (λ ratings h.
                                      field-IsShallow (text "movie.ratings")
                                        (rating_key to_lowercase)
                                        (λ (value : Movie F). value.ratings) documents artwork.1
                                        ratings_path refl h s)
                                    λ ratings s.
                                      bind_gives _ _
                                        (λ content_ratings h.
                                          field-IsShallow (text "movie.content_ratings")
                                            (content_rating_key to_lowercase)
                                            (λ (value : Movie F). value.content_ratings) documents
                                            ratings.1 content_ratings_path refl h s)
                                        λ content_ratings s. λ resolved h. (
                                          subst (All IsDeep)
                                              (ap (λ (r : Resolved (Movie F)). r.conflicts)
                                                (ok-injective h))
                                              deep,
                                          subst IsShallow
                                              (ap (λ (r : Resolved (Movie F)). r.provenance)
                                                (ok-injective h))
                                              s,
                                        )

  sorted-IsUnsourced :
      (documents : Documents F) {resolved : Resolved (Movie F)}
      → merge_sorted to_lowercase parser policy documents ≡ ok resolved
      → IsUnsourced resolved.conflicts resolved.provenance
  sorted-IsUnsourced [] h = absurd (cc h)
  sorted-IsUnsourced (document ∷ documents) h =
      fields-IsUnsourced document.value (document ∷ documents) _ h

  -- Where movies are merged, no conflict's path has a source: what is looked up there is the path
  -- of one language of a field, and sources are kept by the field.
  pub merge_movies-unsourced :
      (documents : Documents F) (resolved : Resolved (Movie F))
      → merge_movies to_lowercase parser policy documents ≡ ok resolved
      → All
          (λ (conflict : MergeConflict). sources_for conflict.field_path resolved.provenance ≡ [])
          resolved.conflicts
  unfolding merge_movies
  merge_movies-unsourced documents resolved h =
      let (_, _, h1) = >>=-eq-ok (ensure (not (is_empty documents)) no_documents) _ h in
      let (base_path, _, h2) = >>=-eq-ok (map_err invalid (new_field_path (text "movie"))) _ h1 in
      let (deep, shallow) =
        sorted-IsUnsourced (sort_by_key (source_rank policy movie base_path) documents) h2 in
      All-imp IsDeep
        (λ (conflict : MergeConflict). sources_for conflict.field_path resolved.provenance ≡ [])
        resolved.conflicts (λ conflict two. shallow conflict.field_path two) deep
