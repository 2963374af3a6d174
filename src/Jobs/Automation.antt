-- ===== src/Jobs/Automation.antt =====
-- The automatic decision of crates/fixer-server/src/jobs/worker.rs over the review artifacts of
-- jobs/artifacts.rs.
pub mod Decision
use fixer.Common.{
  ℕ, String, Bool, true, false, not, ◌&&◌, ◌||◌, Option, none, some, List, [], ◌∷◌, ◌==◌, nat_eq,
  list_eq, if◌then◌else◌, any, first,
}
use fixer.Std.Text.{Text, text}
use fixer.Core.Error.{MediaKind}
use fixer.Core.Identity.{ExternalId}
use fixer.Jobs.Artifacts.{CandidateArtifact, WarningArtifact, ReviewArtifacts}
use fixer.Jobs.Model.{
  JobInputDto, JobOrganizationDto, AutoReviewReason, manual_job, candidate_list_truncated,
  no_candidates, metadata_conflicts, provider_enrichment_failed, diagnostics_truncated,
}

pub data AutoDecision : Type 0 where
  execute : ℕ → AutoDecision
  needs_review : AutoReviewReason → AutoDecision

abbrev is_some {ℓ} : {A : Type ℓ} → Option A → Bool
is_some none = false
is_some (some a) = true

-- The rule that created the job asks for automatic execution.
abbrev pub automatic_rule : Option JobOrganizationDto → Bool
automatic_rule none = false
automatic_rule (some organization) =
    organization.auto_execute && is_some organization.origin_rule_id

unfoldable pub automatic_execution : JobInputDto → Bool
automatic_execution input = input.unattended || (input.apply && automatic_rule input.organization)

abbrev pub is_provider_failure : WarningArtifact → Bool
is_provider_failure warning =
    warning.code == text "provider_search_failed" || warning.code == text "provider_fetch_failed"

-- The last two tests, once there is nothing else to review.
abbrev decide_candidate : Option CandidateArtifact → Bool → AutoDecision
decide_candidate none blocked = needs_review no_candidates
decide_candidate (some candidate) blocked =
    if blocked then needs_review metadata_conflicts else execute candidate.index

unfoldable pub auto_decision : JobInputDto → ReviewArtifacts → ℕ → AutoDecision
unfolding automatic_execution
auto_decision input review conflicts =
    if not (automatic_execution input)
    then needs_review manual_job
    else if review.warnings_truncated
    then needs_review diagnostics_truncated
    else if any is_provider_failure review.warnings
    then needs_review provider_enrichment_failed
    else if review.candidates_truncated
    then needs_review candidate_list_truncated
    else decide_candidate (first review.candidates) (not (conflicts == 0) && not input.unattended)
