-- ===== src/Jobs/Artifacts/Unsourced.antt =====
-- The sources of conflicts in the views of crates/fixer-server/src/jobs/artifacts.rs.
use fixer.Common.{ℕ, zero, suc, ◌≡◌, refl, false, List, [], ◌∷◌, take, All}
use fixer.Std.Text.{Text}
use fixer.Std.Result.{ok}
use fixer.Core.Locale.{TagParser}
use fixer.Core.Media.Movie.{Movie}
use fixer.Core.Merge.Policy.{MergePolicy}
use fixer.Core.Merge.Provenance.{sources_for}
use fixer.Core.Merge.Localized.{MergeConflict}
use fixer.Core.Merge.Movie.{Documents, Resolved, merge_movies}
use fixer.Core.Merge.Movie.Unsourced.{merge_movies-unsourced}
use fixer.Jobs.Artifacts.{
  ConflictArtifact, max_conflicts, number_from, conflict_artifact, diagnostics,
}

abbrev pub HasNoSources : ConflictArtifact → Type 0
HasNoSources view = (view.sources ≡ []) × (view.sources_truncated ≡ false)

module _ {A : Type 0} (resolved : Resolved A) where
  views-HasNoSources :
      (most index : ℕ) (conflicts : List MergeConflict)
      → All
          (λ (conflict : MergeConflict). sources_for conflict.field_path resolved.provenance ≡ [])
          conflicts
      → All HasNoSources (number_from (conflict_artifact resolved) index (take most conflicts))
  unfolding conflict_artifact
  views-HasNoSources zero index conflicts h = tt
  views-HasNoSources (suc most) index [] h = tt
  views-HasNoSources (suc most) index (conflict ∷ conflicts) (h, k) =
      (rw h (refl, refl), views-HasNoSources most (suc index) conflicts k)

-- What a review shows of a merged movie has no source for any conflict, whoever supplied the values
-- that differ.
pub diagnostics-HasNoSources :
    {F : Type 0} (to_lowercase : Text → Text) (parser : TagParser) (policy : MergePolicy)
    (documents : Documents F) (resolved : Resolved (Movie F))
    → merge_movies to_lowercase parser policy documents ≡ ok resolved
    → All HasNoSources (diagnostics resolved).conflicts
unfolding diagnostics
diagnostics-HasNoSources to_lowercase parser policy documents resolved merged =
    views-HasNoSources resolved max_conflicts 0 resolved.conflicts
      (merge_movies-unsourced to_lowercase parser policy documents resolved merged)
