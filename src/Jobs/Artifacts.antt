-- ===== src/Jobs/Artifacts.antt =====
-- crates/fixer-server/src/jobs/artifacts.rs: the bounded views of candidates, diagnostics and plans
-- that a review shows, and the error of jobs/worker.rs. A plan's paths are texts already.
pub mod Cut
pub mod Bounds
pub mod Unsourced
use fixer.Common.{
  ℕ, suc, ◌+◌, String, Bool, false, Option, none, some, List, [], ◌∷◌, map, take, length, leb, ltb,
  if◌then◌else◌,
}
use fixer.Std.Text.{Text, text, len}
use fixer.Std.Decimal.{u64_max}
use fixer.Std.Result.{Result, ok, err, ◌>>=◌, map_err}
use fixer.Core.Error.{CoreError, MediaKind}
use fixer.Core.Identity.{ProviderId, ExternalId, new_provider_id, new_external_id}
use fixer.Core.Locale.{LanguageTag}
use fixer.Core.Matching.{Candidate}
use fixer.Core.Merge.Provenance.{SourceRef, sources_for}
use fixer.Core.Merge.Localized.{MergeConflict}
use fixer.Core.Merge.Movie.{ResolutionWarning, Resolved}
use fixer.Core.Output.{
  OutputOperation, create_directory, write_bytes, copy, move, symlink, hardlink, reflink,
  OutputPlan, source_of, target_of,
}
use fixer.Core.Scrape.{ProviderTarget, new_target}

-- JobFlowError of jobs/worker.rs, without the texts and the errors of other crates.
pub data JobFlowError : Type 0 where
  invalid_input local sdk runtime_config blocking_task index_overflow : JobFlowError
  missing_book_isbn planning_failed fingerprint_failed count_overflow : JobFlowError

abbrev pub max_candidates : ℕ
max_candidates = 100

abbrev pub max_warnings : ℕ
max_warnings = 100

abbrev pub max_conflicts : ℕ
max_conflicts = 200

abbrev pub max_sources_per_conflict : ℕ
max_sources_per_conflict = 20

abbrev pub max_operations : ℕ
max_operations = 1000

abbrev pub max_text_chars : ℕ
max_text_chars = 2048

-- ExternalIdArtifact has the fields of an ExternalId.
pub record CandidateArtifact : Type 0 where
  pub index : ℕ
  pub media_kind : MediaKind
  pub provider : Text
  pub external_id : ExternalId
  pub title : Text
  pub year : Option ℕ
  pub sequence : Option Text

pub record WarningArtifact : Type 0 where
  pub code : Text
  pub message : Text

pub record SourceArtifact : Type 0 where
  pub provider : Text
  pub external_id : Option ExternalId
  pub locale : Option Text

pub record ConflictArtifact : Type 0 where
  pub index : ℕ
  pub field_path : Text
  pub message : Text
  pub providers : List Text
  pub providers_truncated : Bool
  pub sources : List SourceArtifact
  pub sources_truncated : Bool

pub record ReviewArtifacts : Type 0 where
  pub candidates : List CandidateArtifact
  pub candidates_truncated : Bool
  pub warnings : List WarningArtifact
  pub warnings_truncated : Bool
  pub conflicts : List ConflictArtifact
  pub conflicts_truncated : Bool

pub record OperationArtifact : Type 0 where
  pub index : ℕ
  pub kind : Text
  pub source : Option Text
  pub target : Text
  pub content_bytes : Option ℕ

pub record PlanArtifacts : Type 0 where
  pub output_root : Text
  pub operations : List OperationArtifact
  pub operations_truncated : Bool

-- `text` of the source
abbrev pub bounded : Text → Text
bounded value = take max_text_chars value

abbrev pub option_map : {A B : Type 0} → (A → B) → Option A → Option B
option_map f none = none
option_map f (some a) = some (f a)

abbrev pub bounded_id : ExternalId → ExternalId
bounded_id value = record { namespace = bounded value.namespace; value = bounded value.value }

-- u64::try_from
abbrev pub to_u64 : ℕ → JobFlowError → Result JobFlowError ℕ
to_u64 n overflow = if leb n u64_max then ok n else err overflow

-- `iter().enumerate().map(...).collect::<Result<Vec<_>, _>>()`, from an index on.
abbrev pub collect_from :
    {A B : Type 0} → (ℕ → A → Result JobFlowError B) → ℕ → List A → Result JobFlowError (List B)
collect_from f index [] = ok []
collect_from f index (x ∷ xs) = do y ← f index x; ys ← collect_from f (suc index) xs; ok (y ∷ ys)

abbrev pub number_from : {A B : Type 0} → (ℕ → A → B) → ℕ → List A → List B
number_from f index [] = []
number_from f index (x ∷ xs) = f index x ∷ number_from f (suc index) xs

unfoldable pub candidate_artifact : ℕ → Candidate → Result JobFlowError CandidateArtifact
candidate_artifact index candidate = do
  index' ← to_u64 index index_overflow
  ok (record {
    index = index';
    media_kind = candidate.media_kind;
    provider = candidate.provider.as_str;
    external_id = bounded_id candidate.external_id;
    title = bounded candidate.title;
    year = candidate.year;
    sequence = option_map bounded candidate.sequence;
  })

unfoldable pub candidates : List Candidate → Result JobFlowError (List CandidateArtifact × Bool)
unfolding candidate_artifact
candidates values = do
  views ← collect_from candidate_artifact 0 (take max_candidates values)
  ok (views, ltb max_candidates (length values))

-- CandidateArtifact::target
unfoldable pub candidate_target : CandidateArtifact → Result JobFlowError ProviderTarget
candidate_target candidate = do
  provider ← map_err (λ (e : CoreError). invalid_input) (new_provider_id candidate.provider)
  external_id ←
      map_err (λ (e : CoreError). invalid_input)
        (new_external_id candidate.external_id.namespace candidate.external_id.value)
  map_err (λ (e : CoreError). invalid_input) (new_target candidate.media_kind provider external_id)

abbrev pub source_artifact : SourceRef → SourceArtifact
source_artifact value = record {
  provider = value.provider.as_str;
  external_id = option_map bounded_id value.external_id;
  locale = option_map (λ (tag : LanguageTag). tag.original) value.locale;
}

abbrev pub warning_artifact : ResolutionWarning → WarningArtifact
warning_artifact value = record { code = bounded value.code; message = bounded value.message }

-- `u64::try_from(index).unwrap_or(u64::MAX)`
abbrev pub capped : ℕ → ℕ
capped index = if leb index u64_max then index else u64_max

module _ {A : Type 0} (resolved : Resolved A) where
  unfoldable pub conflict_artifact : ℕ → MergeConflict → ConflictArtifact
  conflict_artifact index value =
      let source_values = sources_for value.field_path resolved.provenance in
      record {
        index = capped index;
        field_path = bounded value.field_path;
        message = bounded value.message;
        providers =
            map (λ (provider : ProviderId). provider.as_str)
              (take max_sources_per_conflict value.providers);
        providers_truncated = ltb max_sources_per_conflict (length value.providers);
        sources = map source_artifact (take max_sources_per_conflict source_values);
        sources_truncated = ltb max_sources_per_conflict (length source_values);
      }

  unfoldable pub diagnostics : ReviewArtifacts
  unfolding conflict_artifact
  diagnostics = record {
    candidates = [];
    candidates_truncated = false;
    warnings = map warning_artifact (take max_warnings resolved.warnings);
    warnings_truncated = ltb max_warnings (length resolved.warnings);
    conflicts = number_from conflict_artifact 0 (take max_conflicts resolved.conflicts);
    conflicts_truncated = ltb max_conflicts (length resolved.conflicts);
  }

abbrev pub kind_name : OutputOperation → Text
kind_name (create_directory target) = text "create_directory"
kind_name (write_bytes target content) = text "write"
kind_name (copy source target) = text "copy"
kind_name (move source target) = text "move"
kind_name (symlink source target) = text "symlink"
kind_name (hardlink source target) = text "hardlink"
kind_name (reflink source target) = text "reflink"

abbrev pub content_bytes_of : OutputOperation → Result JobFlowError (Option ℕ)
content_bytes_of (write_bytes target content) = do
  count ← to_u64 (length content.bytes) count_overflow
  ok (some count)
content_bytes_of operation = ok none

unfoldable pub operation_artifact : ℕ → OutputOperation → Result JobFlowError OperationArtifact
unfolding source_of target_of
operation_artifact index value = do
  content_bytes ← content_bytes_of value
  index' ← to_u64 index index_overflow
  ok (record {
    index = index';
    kind = kind_name value;
    source = option_map bounded (source_of value);
    target = bounded (target_of value);
    content_bytes = content_bytes;
  })

unfoldable pub plan_artifacts : OutputPlan → Result JobFlowError PlanArtifacts
unfolding operation_artifact
plan_artifacts plan = do
  operations ← collect_from operation_artifact 0 (take max_operations plan.operations)
  ok (record {
    output_root = bounded plan.output_root;
    operations = operations;
    operations_truncated = ltb max_operations (length plan.operations);
  })
