-- ===== src/Jobs/Runtime/Unattended.antt =====
-- When crates/fixer-server/src/jobs/mod.rs has a job executed without a review, with its plan.
use fixer.Common.{
  ℕ, ◌≡◌, Bool, true, false, not, ◌&&◌, Option, none, some, any, first, nat_eq, string_eq, ◌⊎◌,
  List, if◌then◌else◌,
}
use fixer.Std.Result.{Result, ok}
use fixer.Core.Output.{OutputPlan}
use fixer.Jobs.Artifacts.{CandidateArtifact, ReviewArtifacts, JobFlowError}
use fixer.Jobs.Model.{JobInputDto, invalid_plan, destination_collision}
use fixer.Jobs.Automation.{AutoDecision, execute, needs_review, automatic_rule, is_provider_failure}
use fixer.Jobs.Runtime.Course.{PlanChecks, ResolvedArtifact, SearchArtifact}
use fixer.Jobs.Runtime.Flow.{PreparedReview, is_some, collides}

-- No target is in the way of a job that is neither a correction nor a retry.
abbrev pub IsFree : PlanChecks → JobInputDto → OutputPlan → Type 0
IsFree checks input plan =
    (is_some input.correction_of ≡ true)
    ⊎ ((is_some input.retry_of ≡ true) ⊎ (any (collides checks plan) plan.operations ≡ false))

-- The plan is there, the policy accepts it, and no target is in the way of a job that is neither a
-- correction nor a retry.
abbrev pub CanRun : PlanChecks → JobInputDto → Result JobFlowError OutputPlan → Type 0
CanRun checks input planned =
    (plan : OutputPlan) × (planned ≡ ok plan)
    × ((validate_plan : OutputPlan → Bool) × (checks.fs_policy ≡ some validate_plan)
        × (validate_plan plan ≡ true))
    × IsFree checks input plan

-- What is decided under a policy.
abbrev pub under :
    PlanChecks → JobInputDto → OutputPlan → ℕ → Option (OutputPlan → Bool) → AutoDecision
under checks input plan index none = needs_review invalid_plan
under checks input plan index (some validate_plan) =
    if not (validate_plan plan)
    then needs_review invalid_plan
    else if not (is_some input.correction_of)
        && not (is_some input.retry_of)
        && any (collides checks plan) plan.operations
    then needs_review destination_collision
    else execute index

-- A job, a review of it and a number of conflicts that let the candidate `index` be executed.
abbrev pub MayExecute : JobInputDto → ReviewArtifacts → ℕ → ℕ → Type 0
MayExecute input review conflicts index =
    ((input.unattended ≡ true)
      ⊎ ((input.apply ≡ true) × (automatic_rule input.organization ≡ true) × (conflicts ≡ 0)))
    × (review.warnings_truncated ≡ false)
    × (any is_provider_failure review.warnings ≡ false)
    × (review.candidates_truncated ≡ false)
    × ((candidate : CandidateArtifact) × (first review.candidates ≡ some candidate)
        × (candidate.index ≡ index))

-- What a review that was prepared is about.
pub record Prepared (search : SearchArtifact) (prepared : PreparedReview) : Type 0 where
  pub candidates : List CandidateArtifact
  pub candidates_truncated : Bool
  pub resolved : ResolvedArtifact
  pub found : search.candidates ≡ ok (candidates, candidates_truncated)
  pub resolves : search.resolve_selected 0 ≡ ok resolved
  pub counted : resolved.conflict_count ≡ ok prepared.conflict_count

abbrev pub review_of :
    {search : SearchArtifact} {prepared : PreparedReview}
    → Prepared search prepared
    → ReviewArtifacts
review_of p = record p.resolved.diagnostics {
  candidates = p.candidates;
  candidates_truncated = p.candidates_truncated;
}
