-- ===== src/Jobs/State/Paths.antt =====
-- What the transition relation of crates/fixer-server/src/jobs/model.rs allows over whole runs.
use fixer.Common.{◌≡◌, ◌≢◌, refl, Bool, true, false, ◌⊎◌, inl, inr, some, arith, Bool-cases}
use fixer.Jobs.State.{
  JobState, queued, resolving, awaiting_confirmation, planning, writing, completed, interrupted,
  can_transition_to, to_string, from_str, is_terminal, state_beq, state_beq_iff,
}

-- Every state is read back from its text.
pub from_str-to_string : (s : JobState) → from_str (to_string s) ≡ some s
unfolding from_str to_string
from_str-to_string queued = refl
from_str-to_string _ = refl

-- A run of transitions, oldest step first.
pub data Run : JobState → JobState → Type 0 where
  done : (s : JobState) → Run s s
  step : {s t u : JobState} → can_transition_to s t ≡ true → Run t u → Run s u

pub one : {s t : JobState} → can_transition_to s t ≡ true → Run s t
one {t = t} h = step h (done t)

pub join : {s t u : JobState} → Run s t → Run t u → Run s u
join (done s) r = r
join (step h q) r = step h (join q r)

-- The run stands in `q` at some point.
abbrev pub Visits : JobState → {s u : JobState} → Run s u → Type 0
Visits q (done s) = s ≡ q
Visits q (step {s = s} h r) = (s ≡ q) ⊎ Visits q r

Visits-end : {s u : JobState} (r : Run s u) → Visits u r
Visits-end (done s) = refl
Visits-end (step h r) = inr (Visits-end r)

-- `p` is the one state that leads to `q`.
abbrev OnlyFrom : JobState → JobState → Type 0
OnlyFrom p q = (s : JobState) → can_transition_to s q ≡ true → s ≡ p

module _ (p q : JobState) (only : OnlyFrom p q) where
  Visits-before : {s u : JobState} (r : Run s u) → s ≢ q → Visits q r → Visits p r
  Visits-before (done s) ne v = absurd (ne v)
  Visits-before (step {s = s} h r) ne (inl e) = absurd (ne e)
  Visits-before (step {s = s} {t = t} h r) ne (inr v) = elim (Bool-cases (state_beq t q)) [
    | inl e ↦ inl (only s (rw (← (state_beq_iff t q).0 e) h))
    | inr n ↦ inr (Visits-before r (λ e. true-ne-false ((state_beq_iff t q).1 e) n) v)
  ]
    where
      true-ne-false : {b : Bool} → b ≡ true → b ≡ false → ⊥
      true-ne-false e n = cc

only_planning-writing : OnlyFrom planning writing
unfolding can_transition_to
only_planning-writing s h = ground arith

only_writing-completed : OnlyFrom writing completed
unfolding can_transition_to
only_writing-completed s h = ground arith

only_awaiting-planning : OnlyFrom awaiting_confirmation planning
unfolding can_transition_to
only_awaiting-planning s h = ground arith

only_resolving-awaiting : OnlyFrom resolving awaiting_confirmation
unfolding can_transition_to
only_resolving-awaiting s h = ground arith

-- A run from `queued` that visits `completed` has visited `awaiting_confirmation`, `planning` and
-- `writing`.
pub completed_run :
    {u : JobState} (r : Run queued u)
    → Visits completed r
    → Visits awaiting_confirmation r × Visits planning r × Visits writing r
completed_run r v =
    let w = Visits-before writing completed only_writing-completed r (ground arith) v in
    let p = Visits-before planning writing only_planning-writing r (ground arith) w in
    let a =
      Visits-before awaiting_confirmation planning only_awaiting-planning r (ground arith) p in
    (a, p, w)

-- `completed`, `failed` and `cancelled` are final: no run leaves them.
pub final_run : {s u : JobState} → is_terminal s ≡ true → s ≢ interrupted → Run s u → u ≡ s
unfolding can_transition_to is_terminal
final_run t ne (done s) = refl
final_run t ne (step {s = s} {t = t'} h r) = absurd (ground arith)
