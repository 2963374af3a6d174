-- ===== src/Sdk/Operations/Written.antt =====
-- What an operation that succeeds has written.
use fixer.Common.{◌≡◌}
use fixer.Std.Text.{Text}
use fixer.Std.FilePath.{FilePath}
use fixer.Std.Result.{ok}
use fixer.Std.Action.Achieves.{
  Achieves, achieves-Nothing, then_achieves, seq_achieves, pure_achieves, achieved,
}
use fixer.Std.Fs.{World}
use fixer.Std.Fs.Done.{HoldsFile}
use fixer.Core.Output.{write_bytes, PlannedContent}
use fixer.Sdk.Report.{no_overwrite, ExecutionPolicy, OperationStatus}
use fixer.Sdk.Targets.{Host, absolute_target}
use fixer.Sdk.Temp.Written.{write_temp_achieves, publish_temp_achieves}
use fixer.Sdk.Operations.{execute_operation}

write_bytes_achieves :
    (host : Host) (target : Text) (content : PlannedContent) (root : FilePath)
    (policy : ExecutionPolicy) (world : World)
    → policy.overwrite ≡ no_overwrite
    → Achieves (execute_operation host (write_bytes target content) root policy) world (λ _ after.
      HoldsFile content.bytes (absolute_target root (write_bytes target content)) after)
unfolding execute_operation
write_bytes_achieves host target content root policy world keep =
    seq_achieves (achieves-Nothing _ world) (λ w1 p1.
      then_achieves
        (write_temp_achieves host (absolute_target root (write_bytes target content)) content.bytes
          w1)
        (λ temp w2 held.
          seq_achieves
            {P = λ _ t.
              HoldsFile content.bytes (absolute_target root (write_bytes target content)) t}
            (rw keep (
              publish_temp_achieves content.bytes temp
                (absolute_target root (write_bytes target content)) w2 held))
            (λ w3 done. pure_achieves _ done)))

-- Where no overwriting is allowed, a write that succeeds has put a file with exactly the planned
-- bytes at its target.
pub execute_operation_written :
    (host : Host) (target : Text) (content : PlannedContent) (root : FilePath)
    (policy : ExecutionPolicy) (world after : World) {status : OperationStatus}
    → policy.overwrite ≡ no_overwrite
    → execute_operation host (write_bytes target content) root policy world ≡ (ok status, after)
    → HoldsFile content.bytes (absolute_target root (write_bytes target content)) after
execute_operation_written host target content root policy world after keep e =
    achieved (λ _ t. HoldsFile content.bytes (absolute_target root (write_bytes target content)) t)
      _ (write_bytes_achieves host target content root policy world keep) e
