-- ===== src/Jobs/Model.antt =====
-- The data transfer objects of crates/fixer-server/src/jobs/model.rs. The schema version is a
-- constant of the encoding and is left out.
pub mod Same
use fixer.Common.{ℕ, String, Bool, true, false, Option, none, some, List, []}
use fixer.Core.Scrape.{ScrapeSelection, automatic, ProviderTarget, OperationReport}

pub data JobMediaKind : Type 0 where
  anime book movie music television : JobMediaKind

-- crates/fixer-server/src/ingestion/model.rs
pub data RulePlacement : Type 0 where
  move copy hardlink symlink reflink : RulePlacement

pub record JobOrganizationDto : Type 0 where
  pub destination_path : String
  pub placement : RulePlacement
  pub path_template : Option String
  pub origin_rule_id : Option ℕ
  pub auto_execute : Bool

pub record JobInputDto : Type 0 where
  pub media_kind : JobMediaKind
  pub input_path : String
  pub apply : Bool
  pub selection : ScrapeSelection
  pub unattended : Bool
  pub correction_of : Option ℕ
  pub retry_of : Option ℕ
  pub organization : Option JobOrganizationDto

abbrev pub new_input : JobMediaKind → String → Bool → JobInputDto
new_input media_kind input_path apply = record {
  media_kind = media_kind;
  input_path = input_path;
  apply = apply;
  selection = automatic;
  unattended = false;
  correction_of = none;
  retry_of = none;
  organization = none;
}

pub record ProgressSummary : Type 0 where
  pub stage : String
  pub completed_items : ℕ
  pub total_items : Option ℕ

abbrev pub new_progress : String → ℕ → Option ℕ → ProgressSummary
new_progress stage completed_items total_items = record {
  stage = stage;
  completed_items = completed_items;
  total_items = total_items;
}

pub data AutoReviewReason : Type 0 where
  manual_job candidate_list_truncated no_candidates metadata_conflicts : AutoReviewReason
  provider_enrichment_failed diagnostics_truncated : AutoReviewReason
  invalid_plan destination_collision : AutoReviewReason

pub record ReviewSummary : Type 0 where
  pub candidate_count : ℕ
  pub conflict_count : ℕ
  pub automation_reason : Option AutoReviewReason
  pub selected_target : Option ProviderTarget

pub record ReviewDecisionDto : Type 0 where
  pub candidate_index : ℕ
  pub accepted_conflict_indexes : List ℕ

pub record PlanSummary : Type 0 where
  pub operation_count : ℕ
  pub requires_confirmation : Bool
  pub fingerprint : Option String

pub record ExecutionFailureSummary : Type 0 where
  pub operation_index : Option ℕ
  pub code : String
  pub message : String
  pub phase : Option String

pub record ExecutionSummary : Type 0 where
  pub completed_operations : ℕ
  pub failed_operations : ℕ
  pub failure : Option ExecutionFailureSummary
  pub operations : List OperationReport

-- The builders of the summaries and of a job's input.
abbrev pub with_organization : JobOrganizationDto → JobInputDto → JobInputDto
with_organization organization input = record input { organization = some organization }

abbrev pub with_selection : ScrapeSelection → JobInputDto → JobInputDto
with_selection selection input = record input { selection = selection }

abbrev pub with_unattended : JobInputDto → JobInputDto
with_unattended input = record input { unattended = true }

abbrev pub with_correction_of : ℕ → JobInputDto → JobInputDto
with_correction_of run_id input = record input { correction_of = some run_id }

abbrev pub with_retry_of : ℕ → JobInputDto → JobInputDto
with_retry_of run_id input = record input { retry_of = some run_id }

abbrev pub new_review : ℕ → ℕ → ReviewSummary
new_review candidate_count conflict_count = record {
  candidate_count = candidate_count;
  conflict_count = conflict_count;
  automation_reason = none;
  selected_target = none;
}

abbrev pub with_automation_reason : AutoReviewReason → ReviewSummary → ReviewSummary
with_automation_reason reason review = record review { automation_reason = some reason }

abbrev pub with_selected_target : ProviderTarget → ReviewSummary → ReviewSummary
with_selected_target target review = record review { selected_target = some target }

abbrev pub new_plan_summary : ℕ → Bool → PlanSummary
new_plan_summary operation_count requires_confirmation = record {
  operation_count = operation_count;
  requires_confirmation = requires_confirmation;
  fingerprint = none;
}

abbrev pub with_fingerprint : String → PlanSummary → PlanSummary
with_fingerprint fingerprint summary = record summary { fingerprint = some fingerprint }

abbrev pub new_failure : Option ℕ → String → String → ExecutionFailureSummary
new_failure operation_index code message = record {
  operation_index = operation_index;
  code = code;
  message = message;
  phase = none;
}

abbrev pub with_phase : String → ExecutionFailureSummary → ExecutionFailureSummary
with_phase phase failure = record failure { phase = some phase }

abbrev pub new_execution : ℕ → ℕ → ExecutionSummary
new_execution completed_operations failed_operations = record {
  completed_operations = completed_operations;
  failed_operations = failed_operations;
  failure = none;
  operations = [];
}

abbrev pub with_failure : ExecutionFailureSummary → ExecutionSummary → ExecutionSummary
with_failure failure summary = record summary { failure = some failure }

abbrev pub with_operations : List OperationReport → ExecutionSummary → ExecutionSummary
with_operations operations summary = record summary { operations = operations }

abbrev pub without_operations : ExecutionSummary → ExecutionSummary
without_operations summary = record summary { operations = [] }
