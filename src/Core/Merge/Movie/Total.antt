-- ===== src/Core/Merge/Movie/Total.antt =====
-- What the movie merger of crates/fixer-core/src/merge/mod.rs merges documents to.
use fixer.Common.{
  ℕ, ◌≡◌, refl, ap, ◌∙◌, false, [], ◌∷◌, list_eq, nat_eq, All, All-imp, arith, Bool-cases, inl, inr,
  is_empty, subst,
}
use fixer.Std.Text.{Text, text}
use fixer.Std.Sort.{sort_by_key, by_key, All-sort_by, length-sort_by}
use fixer.Std.Result.{ok}
use fixer.Core.Error.{movie}
use fixer.Core.Locale.{TagParser}
use fixer.Core.Media.Movie.{Movie}
use fixer.Core.Merge.Policy.{MergePolicy}
use fixer.Core.Merge.Provenance.{ProvenanceMap}
use fixer.Core.Merge.Unique.{Sourced, ordered_documents, source_rank}
use fixer.Core.Merge.Kept.{values_of, all_values}
use fixer.Core.Merge.Movie.{
  Documents, Resolved, credit_id, release_key, genre_key, artwork_key, rating_key,
  content_rating_key, merge_credits, merge_fields, merge_sorted, merge_movies,
}
use fixer.Core.Merge.Movie.Order.{base_path, base-new_field_path}
use fixer.Core.Merge.Movie.Unsourced.{paths}
use fixer.Core.Merge.Movie.People.{first_credits}
use fixer.Core.Merge.Movie.Credits.{credits_path, merge_credits_lem}
use fixer.Core.Merge.Movie.Fields.{
  Has, bind_has, by_rank, IsMerged, IsRead, ordered-ok, field-firsts, localized-firsts,
  length_empty, length_some,
}

module _ {F : Type 0} (to_lowercase : Text → Text) (parser : TagParser) (policy : MergePolicy) where
  credits-firsts :
      (documents : Documents F) (provenance : ProvenanceMap)
      → Has
          (merge_credits to_lowercase (λ (value : Movie F). value.credits) documents provenance)
          (λ merged.
            merged.0
            ≡ values_of credit_id (
                first_credits to_lowercase [] []
                  (all_values credit_id (λ (value : Movie F). value.credits) documents)))
  credits-firsts documents provenance =
      let (after, made, _, _) =
        merge_credits_lem to_lowercase (λ (value : Movie F). value.credits) documents provenance in
      (_, made, refl)

  fields-IsMerged :
      (base : Movie F) (documents : Documents F)
      → All (IsRead parser) documents
      → Has
          (merge_fields to_lowercase parser policy base documents)
          (λ resolved. IsMerged to_lowercase policy base documents resolved.value)
  unfolding merge_fields
  fields-IsMerged base documents read =
      let (
        titles_path, summaries_path, releases_path, genres_path, artwork_path, ratings_path,
        content_ratings_path,
      ) =
        paths in
      bind_has _ _
        (localized-firsts to_lowercase parser policy (text "movie.titles")
          (λ (value : Movie F). value.titles) documents [] [] titles_path
          (All-imp (IsRead parser) _ documents (λ d (h, k). h) read))
        λ titles t.
          bind_has _ _
            (localized-firsts to_lowercase parser policy (text "movie.summaries")
              (λ (value : Movie F). value.summaries) documents titles.conflicts titles.provenance
              summaries_path (All-imp (IsRead parser) _ documents (λ d (h, k). k) read))
            λ summaries s.
              bind_has _ _
                (field-firsts to_lowercase parser policy (text "movie.releases") release_key
                  (λ (value : Movie F). value.releases) documents summaries.provenance
                  releases_path)
                λ releases r.
                  bind_has
                    {P = λ ordered. ordered ≡ by_rank policy (text "movie.credits") documents}
                    (ordered_documents policy movie (text "movie.credits") documents) _
                    (
                      by_rank policy (text "movie.credits") documents,
                      ordered-ok policy (text "movie.credits") documents credits_path,
                      refl,
                    )
                    λ by_credits o.
                      bind_has
                        (merge_credits to_lowercase (λ (value : Movie F). value.credits) by_credits
                          releases.1)
                        _ (credits-firsts by_credits releases.1)
                        λ credits c.
                          bind_has _ _
                            (field-firsts to_lowercase parser policy (text "movie.genres")
                              (genre_key to_lowercase) (λ (value : Movie F). value.genres) documents
                              credits.1 genres_path)
                            λ genres g.
                              bind_has _ _
                                (field-firsts to_lowercase parser policy (text "movie.artwork")
                                  (artwork_key to_lowercase) (λ (value : Movie F). value.artwork)
                                  documents genres.1 artwork_path)
                                λ artwork a.
                                  bind_has _ _
                                    (field-firsts to_lowercase parser policy (text "movie.ratings")
                                      (rating_key to_lowercase) (λ (value : Movie F). value.ratings)
                                      documents artwork.1 ratings_path)
                                    λ ratings x.
                                      bind_has _ _
                                        (field-firsts to_lowercase parser policy
                                          (text "movie.content_ratings")
                                          (content_rating_key to_lowercase)
                                          (λ (value : Movie F). value.content_ratings) documents
                                          ratings.1 content_ratings_path)
                                        λ content_ratings y. (
                                          _,
                                          refl,
                                          record {
                                            id = refl;
                                            titles = t;
                                            summaries = s;
                                            releases = r;
                                            credits =
                                                c
                                                ∙ ap
                                                    (λ (z : Documents F). values_of credit_id (
                                                      first_credits to_lowercase [] [] (
                                                        all_values credit_id
                                                          (λ (value : Movie F). value.credits) z)))
                                                    o;
                                            genres = g;
                                            artwork = a;
                                            ratings = x;
                                            content_ratings = y;
                                          },
                                        )

  sorted-IsMerged :
      (documents : Documents F)
      → is_empty documents ≡ false
      → All (IsRead parser) documents
      → (first : Sourced (Movie F)) × (rest : Documents F) × (documents ≡ first ∷ rest)
        × Has
            (merge_sorted to_lowercase parser policy documents)
            (λ resolved. IsMerged to_lowercase policy first.value documents resolved.value)
  sorted-IsMerged [] some_there read = absurd (cc some_there)
  sorted-IsMerged (first ∷ rest) some_there read =
      (first, rest, refl, fields-IsMerged first.value (first ∷ rest) read)

  sort-is_empty :
      (key : Sourced (Movie F) → ℕ) (documents : Documents F)
      → is_empty documents ≡ false
      → is_empty (sort_by_key key documents) ≡ false
  sort-is_empty key documents some_there =
      elim (Bool-cases (is_empty (sort_by_key key documents))) [
        | inl empty ↦ absurd (
            omega (
              arith,
              length_empty (sort_by_key key documents) empty,
              length_some documents some_there,
              length-sort_by (by_key key) documents,
            ))
        | inr some_there' ↦ some_there'
      ]

  -- Movies whose language tags are what the parser gives for their text are merged, and never to an
  -- error: to a movie with the identity of the document of the best rank, each of whose fields has
  -- the first value of each key, over the documents by the rank that their providers have for that
  -- field (the documents by their rank for movies where it is equal).
  pub merge_movies-IsMerged :
      (documents : Documents F)
      → is_empty documents ≡ false
      → All (IsRead parser) documents
      → (first : Sourced (Movie F)) × (rest : Documents F) × (by_rank policy
            (text "movie")
            documents
          ≡ first ∷ rest)
        × (resolved : Resolved (Movie F)) × (merge_movies to_lowercase parser policy documents
            ≡ ok resolved)
        × IsMerged to_lowercase policy first.value (first ∷ rest) resolved.value
  unfolding merge_movies
  merge_movies-IsMerged documents some_there read =
      let ordered = by_rank policy (text "movie") documents in
      let (first, rest, same, (resolved, made, merged)) =
        sorted-IsMerged ordered
          (sort-is_empty (source_rank policy movie base_path) documents some_there)
          (All-sort_by (by_key (source_rank policy movie base_path)) (IsRead parser) documents
            read) in
      (
        first,
        rest,
        same,
        resolved,
        rw (some_there, base-new_field_path) made,
        subst (λ (z : Documents F). IsMerged to_lowercase policy first.value z resolved.value) same
            merged,
      )
