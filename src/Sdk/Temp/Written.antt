-- ===== src/Sdk/Temp/Written.antt =====
-- What a temporary file holds, and that its publication puts it at the target.
use fixer.Common.{ℕ, ◌≡◌, ◌≢◌, ◌∙◌, ap, List, arith, list_eq, some}
use fixer.Std.Map.{get}
use fixer.Std.FilePath.{FilePath, component_eq}
use fixer.Std.Result.{Result, ok, err}
use fixer.Std.Action.Achieves.{
  Achieves, Settled, achieves-Nothing, then_achieves, seq_achieves, pure_achieves, fail_achieves,
  map_error_achieves, attempt_achieves, achieves_of,
}
use fixer.Std.Fs.{World, write_all, sync_all, hard_link, remove_file}
use fixer.Std.Fs.Done.{HoldsFile, write_all_done, sync_all_done, hard_link_done, remove_file_done}
use fixer.Sdk.Report.{no_overwrite, ExecutionError}
use fixer.Sdk.Targets.{Host}
use fixer.Sdk.Temp.{or_remove, write_temp, publish_by, publish_temp}

-- Behind `or_remove` the result was good, and nothing was done.
pub or_remove_achieves :
    {A : Type 0} {Q : A → World → Type 0} (temp : FilePath) (r : Result ExecutionError A)
    (world : World)
    → Settled Q r world
    → Achieves (or_remove temp r) world Q
or_remove_achieves temp (ok a) world h = pure_achieves a h
or_remove_achieves temp (err e) world h =
    then_achieves (achieves-Nothing _ world) (λ r t p. fail_achieves e)

pub write_temp_achieves :
    (host : Host) (target : FilePath) (content : List ℕ) (world : World)
    → Achieves (write_temp host target content) world (λ temp after. HoldsFile content temp after)
unfolding write_temp
write_temp_achieves host target content world = seq_achieves (achieves-Nothing _ world) (λ w1 p1.
    then_achieves (achieves-Nothing _ w1) (λ temp w2 p2.
      seq_achieves (achieves-Nothing _ w2) (λ w3 p3.
        then_achieves
          (attempt_achieves (
            seq_achieves {Q = λ _ after. HoldsFile content temp after}
              (map_error_achieves _ (
                achieves_of (write_all temp content) w3
                  (λ a t e. write_all_done temp content w3 e)))
              (λ w4 (entry, at, holds). map_error_achieves _ (
                achieves_of sync_all w4
                  (λ a t e. (entry, ap (get temp) (sync_all_done w4 e) ∙ at, holds))))))
          (λ r w5 held.
            seq_achieves (or_remove_achieves temp r w5 held)
              (λ w6 kept. pure_achieves temp kept)))))

publish_by_achieves :
    (content : List ℕ) (temp target : FilePath) (world : World)
    → HoldsFile content temp world
    → Achieves
        (publish_by no_overwrite temp target)
        world
        (λ _ after. HoldsFile content target after)
publish_by_achieves content temp target world (entry, at, holds) =
    seq_achieves {P = λ _ t. (target ≢ temp) × (get target t.entries ≡ some entry)}
      (map_error_achieves _ (
        achieves_of (hard_link temp target) world (λ a t e.
          let (gap, there) = hard_link_done temp target world e in
          (
            λ same. absurd (ground (arith, ap (λ (p : FilePath). get p world.entries) same)),
            there ∙ at,
          ))))
      (λ w1 (apart, there). map_error_achieves _ (
        achieves_of (remove_file temp) w1
          (λ a t e. (entry, remove_file_done temp target w1 apart e ∙ there, holds))))

pub publish_temp_achieves :
    (content : List ℕ) (temp target : FilePath) (world : World)
    → HoldsFile content temp world
    → Achieves
        (publish_temp temp target no_overwrite)
        world
        (λ _ after. HoldsFile content target after)
unfolding publish_temp
publish_temp_achieves content temp target world held =
    then_achieves (attempt_achieves (publish_by_achieves content temp target world held))
      (λ r w1 done. or_remove_achieves temp r w1 done)
