-- ===== src/Jobs/Runtime/Worked.antt =====
-- Reviews, executions and the worker of jobs/mod.rs, mixed with what others do.
use fixer.Common.{ℕ, String, false, List, [], ◌∷◌, nat_eq, All}
use fixer.Std.Action.Ensures.{Ensures, Any}
use fixer.Jobs.State.{state_eq}
use fixer.Jobs.Model.{ReviewDecisionDto}
use fixer.Jobs.Store.Steps.{History}
use fixer.Jobs.Events.{JobEvent}
use fixer.Jobs.Events.Log.{IsLog}
use fixer.Jobs.Runtime.Course.{Course}
use fixer.Jobs.Runtime.Review.{review, review_with_auto_guard, auto_execution_key}
use fixer.Jobs.Runtime.Review as Reviews
use fixer.Jobs.Runtime.Worker.{worker_round}
use fixer.Jobs.Runtime.Interleaved.{Since, Since-same, Since-kept, run_plan-Since, IsLawful}
use fixer.Jobs.Runtime.Stages.{
  review_with_auto_guard-Behaves, run_if_reserved-Behaves, execute-Behaves,
}
use fixer.Jobs.Runtime.Rounds.{worker_round-Behaves}

executes-Since :
    (from : Course) (id : ℕ) (key : String) → Ensures (Since from) (Reviews.execute id key) Any
executes-Since from id key =
    execute-Behaves (Since from) (Since-kept from)
      (run_if_reserved-Behaves (Since from) (Since-kept from) (run_plan-Since from)) id key

-- Work that runs while others move the runtime.
pub data Work : Type 0 where
  reviewing : ℕ → ReviewDecisionDto → Work
  executing : ℕ → String → Work
  working : Work

module _ (rounds : ℕ) where
  abbrev pub do_work : Work → Course → Course
  do_work (reviewing id decision) course = (review id decision course).1
  do_work (executing id key) course = (Reviews.execute id key course).1
  do_work working course = (worker_round rounds rounds course).1

  abbrev pub do_all : List Work → Course → Course
  do_all [] course = course
  do_all (work ∷ works) course = do_all works (do_work work course)

  do_work-Since :
      (work : Work) (from course : Course) → Since from course → Since from (do_work work course)
  unfolding review
  do_work-Since (reviewing id decision) from course h =
      ((review_with_auto_guard-Behaves (Since from) (Since-kept from) id decision false).run course
        h).0
  do_work-Since (executing id key) from course h = ((executes-Since from id key).run course h).0
  do_work-Since working from course h =
      ((worker_round-Behaves (Since from) (Since-kept from) (executes-Since from) rounds rounds).run
        course h).0

  do_all-Since :
      (works : List Work) (from course : Course)
      → Since from course
      → Since from (do_all works course)
  do_all-Since [] from course h = h
  do_all-Since (work ∷ works) from course h =
      do_all-Since works from (do_work work course) (do_work-Since work from course h)

  -- Whatever reviews, executions and rounds of the worker run, with any moves of others between
  -- their steps that are made of statements and events, at any times and with any scans and ends of
  -- plans: the tables are reached by a history of the store's statements, and the retained events
  -- stay the end of everything that was sent.
  pub do_all-History :
      (works : List Work) (course : Course) (dropped : List JobEvent)
      → All IsLawful course.moves
      → IsLog course.runtime.hub dropped course.runtime.sent
      → History course.runtime.tables (do_all works course).runtime.tables
        × ((dropped' : List JobEvent) × IsLog
              (do_all works course).runtime.hub
              dropped'
              (do_all works course).runtime.sent)
  do_all-History works course dropped lawful logged =
      let since = do_all-Since works course course (Since-same course lawful) in
      (since.progress.history, since.progress.logged dropped logged)
