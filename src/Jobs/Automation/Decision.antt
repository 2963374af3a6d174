-- ===== src/Jobs/Automation/Decision.antt =====
-- When crates/fixer-server/src/jobs/worker.rs decides, before a plan is made, to execute a job without
-- a review.
use fixer.Common.{
  ℕ, ◌≡◌, true, false, some, nat_eq, string_eq, any, first, arith, ◌↔◌, ◌⊎◌, inl, inr, Option-cases,
}
use fixer.Jobs.Artifacts.{CandidateArtifact, ReviewArtifacts}
use fixer.Jobs.Model.{JobInputDto}
use fixer.Jobs.Automation.{
  execute, automatic_execution, automatic_rule, is_provider_failure, auto_decision,
}

-- The decision before a plan is made is to execute exactly where the job is unattended, whatever
-- its conflicts, or applied by a rule that asks for it and the number of conflicts given is 0; and
-- in both cases neither the warnings nor the candidates were cut, no provider failed, and the first
-- candidate is the one to execute. The plan of it is judged afterwards, by another function.
pub auto_decision-execute :
    (input : JobInputDto) (review : ReviewArtifacts) (conflicts index : ℕ)
    → (auto_decision input review conflicts ≡ execute index) ↔ (
        ((input.unattended ≡ true)
          ⊎ ((input.apply ≡ true) × (automatic_rule input.organization ≡ true) × (conflicts ≡ 0)))
        × (review.warnings_truncated ≡ false)
        × (any is_provider_failure review.warnings ≡ false)
        × (review.candidates_truncated ≡ false)
        × ((candidate : CandidateArtifact) × (first review.candidates ≡ some candidate)
            × (candidate.index ≡ index)))
unfolding auto_decision automatic_execution
auto_decision-execute input review conflicts index = elim (Option-cases (first review.candidates)) [
  | inl absent ↦ (λ h. ground (arith, h, absent), λ h. ground (arith, h, absent))
  | inr present ↦
      let (candidate, at) = present in
      (
        λ h. (
          ground (arith, h, at),
          ground (arith, h, at),
          ground (arith, h, at),
          ground (arith, h, at),
          (candidate, at, ground (arith, h, at)),
        ),
        λ (who, clear, working, whole, (chosen, at', index_of)).
            let same : candidate.index ≡ index = cc (at, at', index_of) in
            ground (arith, who, clear, working, whole, at, same),
      )
]
