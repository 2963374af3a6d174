-- ===== src/Jobs/Runtime/Flow.antt =====
-- How the runtime in crates/fixer-server/src/jobs/mod.rs reconstructs the plan of a review, and what
-- it prepares for one.
use fixer.Common.{
  ℕ, zero, suc, Bool, true, false, not, ◌&&◌, Option, none, some, List, [], ◌∷◌, ◌++◌, any, first,
  ◌==◌, nat_eq, list_eq, if◌then◌else◌,
}
use fixer.Common.{String}
use fixer.Std.Result.{Result, ok, err, ◌>>=◌, ◌>>◌, ensure, map_err}
use fixer.Core.Scrape.{ProviderTarget}
use fixer.Core.Output.{OutputPlan, OutputOperation, create_directory}
use fixer.Jobs.Artifacts.{CandidateArtifact, ReviewArtifacts, JobFlowError}
use fixer.Jobs.Model.{JobInputDto, ReviewDecisionDto, invalid_plan, destination_collision}
use fixer.Jobs.Automation.{AutoDecision, execute, needs_review, auto_decision}
use fixer.Jobs.Runtime.{
  RuntimeError, filesystem_policy, flow, conflict_acknowledgement_mismatch, stale_plan,
}
use fixer.Jobs.Runtime.Course.{PlanChecks, ResolvedArtifact, SearchArtifact, Scan}

-- The numbers below `n`, in order.
abbrev pub below : ℕ → List ℕ
below zero = []
below (suc n) = below n ++ n ∷ []

-- `?` on an error of the flow
abbrev pub of_flow {ℓ} : {A : Type ℓ} → Result JobFlowError A → Result RuntimeError A
of_flow result = map_err flow result

abbrev pub decision_beq : AutoDecision → AutoDecision → Bool
decision_beq (execute index) (execute index') = index == index'
decision_beq _ _ = false

-- `auto_decision(..) != AutoDecision::Execute { candidate_index }`, where it is asked for
unfoldable pub automatic_agrees :
    JobInputDto → ReviewArtifacts → ℕ → ReviewDecisionDto → Bool → Bool
unfolding auto_decision
automatic_agrees input diagnostics conflicts decision false = true
automatic_agrees input diagnostics conflicts decision true =
    decision_beq (auto_decision input diagnostics conflicts) (execute decision.candidate_index)

-- A plan with its fingerprint, and what is said of it.
pub record Reconstructed : Type 0 where
  pub plan : OutputPlan
  pub fingerprint : String
  pub checks : PlanChecks

unfoldable pub reconstruct_plan :
    Scan → JobInputDto → ReviewDecisionDto → Bool → Result RuntimeError Reconstructed
unfolding automatic_agrees
reconstruct_plan scan input decision automatic = do
  scanned ← of_flow scan
  search ← of_flow scanned
  (candidates, candidates_truncated) ← of_flow search.candidates
  resolved ← of_flow (search.resolve_selected decision.candidate_index)
  conflict_count ← of_flow resolved.conflict_count
  let diagnostics : ReviewArtifacts = record resolved.diagnostics {
    candidates = candidates;
    candidates_truncated = candidates_truncated;
  }
  ensure (automatic_agrees input diagnostics conflict_count decision automatic) stale_plan
  ensure (decision.accepted_conflict_indexes == below conflict_count)
      (conflict_acknowledgement_mismatch conflict_count)
  plan ← of_flow resolved.plan
  fingerprint ← of_flow (resolved.fingerprint decision plan)
  ok (record { plan = plan; fingerprint = fingerprint; checks = search.checks })

-- `policy.validate_plan(&plan)?`, if there is a policy
abbrev pub check_plan : Option (OutputPlan → Bool) → OutputPlan → Result RuntimeError (Unit {0})
check_plan none plan = ok tt
check_plan (some validate_plan) plan = if validate_plan plan then ok tt else err filesystem_policy

pub record PreparedReview : Type 0 where
  pub candidate_count : ℕ
  pub conflict_count : ℕ
  pub selected_target : Option ProviderTarget
  pub automatic : AutoDecision

abbrev pub is_some {ℓ} : {A : Type ℓ} → Option A → Bool
is_some none = false
is_some (some a) = true

-- Whether the target of an operation is in the way.
abbrev pub collides : PlanChecks → OutputPlan → OutputOperation → Bool
collides checks plan (create_directory target) =
    checks.exists plan (create_directory target)
    && not (checks.is_dir plan (create_directory target))
collides checks plan operation = checks.exists plan operation

unfoldable pub auto_plan_decision :
    PlanChecks → JobInputDto → OutputPlan → AutoDecision → AutoDecision
auto_plan_decision checks input plan approved = elim checks.fs_policy [
  | none ↦ needs_review invalid_plan
  | some validate_plan ↦
      if not (validate_plan plan)
      then needs_review invalid_plan
      else if not (is_some input.correction_of)
          && not (is_some input.retry_of)
          && any (collides checks plan) plan.operations
      then needs_review destination_collision
      else approved
]

abbrev pub planned_decision :
    PlanChecks → JobInputDto → Result JobFlowError OutputPlan → AutoDecision → AutoDecision
planned_decision checks input (err e) approved = needs_review invalid_plan
planned_decision checks input (ok plan) approved = auto_plan_decision checks input plan approved

-- The plan is looked at only where the decision is to execute.
abbrev pub decided : PlanChecks → JobInputDto → ResolvedArtifact → AutoDecision → AutoDecision
decided checks input resolved (needs_review reason) = needs_review reason
decided checks input resolved (execute index) =
    planned_decision checks input resolved.plan (execute index)

-- `first().map(..).transpose()?`
abbrev pub first_target :
    (CandidateArtifact → Result JobFlowError ProviderTarget)
    → Option CandidateArtifact
    → Result JobFlowError (Option ProviderTarget)
first_target target none = ok none
first_target target (some candidate) = do selected ← target candidate; ok (some selected)

unfoldable pub prepare_review : JobInputDto → SearchArtifact → Result JobFlowError PreparedReview
unfolding auto_decision auto_plan_decision
prepare_review input search = do
  (candidates, candidates_truncated) ← search.candidates
  selected_target ← first_target search.target (first candidates)
  resolved ← search.resolve_selected 0
  conflict_count ← resolved.conflict_count
  let review : ReviewArtifacts = record resolved.diagnostics {
    candidates = candidates;
    candidates_truncated = candidates_truncated;
  }
  ok (record {
    candidate_count = search.candidate_count;
    conflict_count = conflict_count;
    selected_target = selected_target;
    automatic = decided search.checks input resolved (auto_decision input review conflict_count);
  })
