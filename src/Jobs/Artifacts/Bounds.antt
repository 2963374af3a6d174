-- ===== src/Jobs/Artifacts/Bounds.antt =====
-- The bounds of the views of crates/fixer-server/src/jobs/artifacts.rs.
use fixer.Common.{
  ℕ, ◌<◌, ◌≤◌, ◌≡◌, refl, ◌∙◌, Option, none, some, List, map, take, length, ltb, arith, All,
}
use fixer.Std.Text.{Text}
use fixer.Std.Decimal.{u64_max}
use fixer.Std.Result.{ok}
use fixer.Core.Identity.{ExternalId, ProviderId}
use fixer.Core.Matching.{Candidate}
use fixer.Core.Merge.Provenance.{sources_for}
use fixer.Core.Merge.Movie.{Resolved}
use fixer.Core.Output.{
  OutputOperation, create_directory, write_bytes, copy, move, symlink, hardlink, reflink,
  OutputPlan, source_of, target_of,
}
use fixer.Jobs.Artifacts.{
  JobFlowError, index_overflow, count_overflow, max_candidates, max_warnings, max_conflicts,
  max_sources_per_conflict, max_operations, max_text_chars, CandidateArtifact, WarningArtifact,
  ConflictArtifact, OperationArtifact, PlanArtifacts, bounded, bounded_id, kind_name, option_map,
  to_u64, candidate_artifact, candidates, source_artifact, warning_artifact, conflict_artifact,
  diagnostics, content_bytes_of, operation_artifact, plan_artifacts,
}
use fixer.Jobs.Artifacts.Cut.{
  cut, AllFrom, length-take, take_short, All-take, everything, All-map, length-map,
  number_from-AllFrom, length-number_from, collect_from-AllFrom,
}

abbrev pub IsShort : Text → Type 0
IsShort s = length s ≤ max_text_chars

abbrev pub IsShortOption : Option Text → Type 0
IsShortOption none = Unit
IsShortOption (some s) = IsShort s

abbrev pub IsShortId : ExternalId → Type 0
IsShortId id = IsShort id.namespace × IsShort id.value

bounded-IsShort : (s : Text) → IsShort (bounded s)
bounded-IsShort s = take_short max_text_chars s

bounded-IsShortOption : (s : Option Text) → IsShortOption (option_map bounded s)
bounded-IsShortOption none = tt
bounded-IsShortOption (some s) = bounded-IsShort s

in_u64 : (n : ℕ) (e : JobFlowError) → n ≤ u64_max → to_u64 n e ≡ ok n
in_u64 n e h = ground arith

abbrev pub IsBoundedCandidate : ℕ → CandidateArtifact → Type 0
IsBoundedCandidate index view =
    (view.index ≡ index)
    × IsShort view.title
    × IsShortId view.external_id
    × IsShortOption view.sequence

candidate_artifact-IsBounded :
    (index : ℕ) (candidate : Candidate)
    → index < max_candidates
    → (view : CandidateArtifact) × (candidate_artifact index candidate ≡ ok view)
      × IsBoundedCandidate index view
unfolding candidate_artifact
candidate_artifact-IsBounded index candidate few =
    let view : CandidateArtifact = record {
      index = index;
      media_kind = candidate.media_kind;
      provider = candidate.provider.as_str;
      external_id = bounded_id candidate.external_id;
      title = bounded candidate.title;
      year = candidate.year;
      sequence = option_map bounded candidate.sequence;
    } in
    (
      view,
      rw (in_u64 index index_overflow (omega arith)) refl,
      (
        refl,
        bounded-IsShort candidate.title,
        (
          bounded-IsShort candidate.external_id.namespace,
          bounded-IsShort candidate.external_id.value,
        ),
        bounded-IsShortOption candidate.sequence,
      ),
    )

-- The view of candidates never fails: it is cut at 100 of them, says exactly whether it was cut,
-- gives each candidate its place in the list as its index, and cuts
-- its title, its id and its sequence at 2048 characters.
pub candidates-IsBounded :
    (values : List Candidate)
    → (views : List CandidateArtifact) × (candidates values
        ≡ ok (views, ltb max_candidates (length values)))
      × (length views ≡ cut max_candidates values)
      × AllFrom IsBoundedCandidate 0 views
unfolding candidates candidate_artifact
candidates-IsBounded values =
    let (views, made, long, each) =
      collect_from-AllFrom IsBoundedCandidate (λ _. Unit {0}) candidate_artifact max_candidates 0
        (take max_candidates values) (omega (arith, take_short max_candidates values))
        (everything (take max_candidates values))
        (λ i x few _. candidate_artifact-IsBounded i x few) in
    (views, rw made refl, long ∙ length-take max_candidates values, each)

few_of :
    {A B : Type 0} (f : A → B) (xs : List A)
    → length (map f (take max_sources_per_conflict xs)) ≤ max_sources_per_conflict
few_of f xs =
    omega (
      arith,
      length-map f (take max_sources_per_conflict xs),
      take_short max_sources_per_conflict xs,
    )

abbrev pub IsBoundedConflict : ℕ → ConflictArtifact → Type 0
IsBoundedConflict index view =
    (view.index ≡ index)
    × IsShort view.field_path
    × IsShort view.message
    × (length view.providers ≤ max_sources_per_conflict)
    × (length view.sources ≤ max_sources_per_conflict)

-- The view of diagnostics is cut at 100 warnings and 200 conflicts, each with 20 providers and 20
-- sources at most, says exactly whether it was cut, gives each conflict its place as its index, and
-- cuts the texts of warnings and the paths and messages of conflicts at 2048 characters.
pub diagnostics-IsBounded :
    {A : Type 0} (resolved : Resolved A)
    → (length (diagnostics resolved).warnings ≡ cut max_warnings resolved.warnings)
      × ((diagnostics resolved).warnings_truncated ≡ ltb max_warnings (length resolved.warnings))
      × All
          (λ (view : WarningArtifact). IsShort view.code × IsShort view.message)
          (diagnostics resolved).warnings
      × (length (diagnostics resolved).conflicts ≡ cut max_conflicts resolved.conflicts)
      × ((diagnostics resolved).conflicts_truncated ≡ ltb max_conflicts (length resolved.conflicts))
      × AllFrom IsBoundedConflict 0 (diagnostics resolved).conflicts
unfolding diagnostics conflict_artifact
diagnostics-IsBounded resolved = (
  length-map warning_artifact (take max_warnings resolved.warnings)
      ∙ length-take max_warnings resolved.warnings,
  refl,
  All-map (λ (view : WarningArtifact). IsShort view.code × IsShort view.message) warning_artifact
      (take max_warnings resolved.warnings)
      (λ w. (bounded-IsShort w.code, bounded-IsShort w.message)),
  length-number_from (conflict_artifact resolved) 0 (take max_conflicts resolved.conflicts)
      ∙ length-take max_conflicts resolved.conflicts,
  refl,
  number_from-AllFrom IsBoundedConflict (conflict_artifact resolved) max_conflicts 0
      (take max_conflicts resolved.conflicts)
      (omega (arith, take_short max_conflicts resolved.conflicts))
      (λ i c few. (
        ground arith,
        bounded-IsShort c.field_path,
        bounded-IsShort c.message,
        few_of (λ (provider : ProviderId). provider.as_str) c.providers,
        few_of source_artifact (sources_for c.field_path resolved.provenance),
      )),
)

-- What a write has is counted in a u64.
abbrev pub IsCounted : OutputOperation → Type 0
IsCounted (write_bytes target content) = length content.bytes ≤ u64_max
IsCounted operation = Unit

abbrev pub IsBoundedOperation : ℕ → OperationArtifact → Type 0
IsBoundedOperation index view =
    (view.index ≡ index) × IsShortOption view.source × IsShort view.target

content_bytes-ok :
    (operation : OutputOperation)
    → IsCounted operation
    → (n : Option ℕ) × (content_bytes_of operation ≡ ok n)
content_bytes-ok (create_directory target) h = (none, refl)
content_bytes-ok (write_bytes target content) h =
    (some (length content.bytes), rw (in_u64 (length content.bytes) count_overflow h) refl)
content_bytes-ok (copy source target) h = (none, refl)
content_bytes-ok (move source target) h = (none, refl)
content_bytes-ok (symlink source target) h = (none, refl)
content_bytes-ok (hardlink source target) h = (none, refl)
content_bytes-ok (reflink source target) h = (none, refl)

operation_artifact-IsBounded :
    (index : ℕ) (operation : OutputOperation)
    → index < max_operations
    → IsCounted operation
    → (view : OperationArtifact) × (operation_artifact index operation ≡ ok view)
      × IsBoundedOperation index view
unfolding operation_artifact
operation_artifact-IsBounded index operation few h =
    let (content_bytes, counted) = content_bytes-ok operation h in
    let view : OperationArtifact = record {
      index = index;
      kind = kind_name operation;
      source = option_map bounded (source_of operation);
      target = bounded (target_of operation);
      content_bytes = content_bytes;
    } in
    (
      view,
      rw (counted, in_u64 index index_overflow (omega arith)) refl,
      (refl, bounded-IsShortOption (source_of operation), bounded-IsShort (target_of operation)),
    )

-- The view of a plan, where the sizes of its writes are counted in a u64, never fails: it is cut at
-- 1000 operations, says exactly whether it was cut, gives each operation its place as its index,
-- and cuts every path at 2048 characters.
pub plan_artifacts-IsBounded :
    (plan : OutputPlan)
    → All IsCounted plan.operations
    → (view : PlanArtifacts) × (plan_artifacts plan ≡ ok view)
      × (view.operations_truncated ≡ ltb max_operations (length plan.operations))
      × (length view.operations ≡ cut max_operations plan.operations)
      × IsShort view.output_root
      × AllFrom IsBoundedOperation 0 view.operations
unfolding plan_artifacts operation_artifact
plan_artifacts-IsBounded plan counted =
    let (views, made, long, each) =
      collect_from-AllFrom IsBoundedOperation IsCounted operation_artifact max_operations 0
        (take max_operations plan.operations)
        (omega (arith, take_short max_operations plan.operations))
        (All-take IsCounted max_operations plan.operations counted) operation_artifact-IsBounded in
    let view : PlanArtifacts = record {
      output_root = bounded plan.output_root;
      operations = views;
      operations_truncated = ltb max_operations (length plan.operations);
    } in
    (
      view,
      rw made refl,
      refl,
      long ∙ length-take max_operations plan.operations,
      bounded-IsShort plan.output_root,
      each,
    )
