-- ===== src/Jobs/State.antt =====
-- crates/fixer-server/src/jobs/model.rs: the persistent worker lifecycle state.
pub mod Paths
use fixer.Common.{
  ℕ, zero, suc, String, ◌≡◌, refl, sym, ap, ◌∙◌, ◌↔◌, Bool, true, false, Option, none, some, List,
  [], ◌∷◌, PartialEq, nat_beq, nat_beq_iff, string_eq, ◌==◌, if◌then◌else◌,
}

pub data JobState : Type 0 where
  queued scanning searching resolving awaiting_confirmation planning : JobState
  writing completed failed cancelled interrupted : JobState

abbrev pub all_states : List JobState
all_states =
    queued ∷ scanning ∷ searching ∷ resolving ∷ awaiting_confirmation ∷ planning ∷ writing
    ∷ completed ∷ failed ∷ cancelled ∷ interrupted ∷ []

unfoldable pub can_transition_to : JobState → JobState → Bool
can_transition_to queued scanning = true
can_transition_to queued cancelled = true
can_transition_to scanning queued = true
can_transition_to scanning searching = true
can_transition_to scanning failed = true
can_transition_to scanning cancelled = true
can_transition_to scanning interrupted = true
can_transition_to searching resolving = true
can_transition_to searching failed = true
can_transition_to searching cancelled = true
can_transition_to searching interrupted = true
can_transition_to resolving awaiting_confirmation = true
can_transition_to resolving failed = true
can_transition_to resolving cancelled = true
can_transition_to resolving interrupted = true
can_transition_to awaiting_confirmation planning = true
can_transition_to awaiting_confirmation failed = true
can_transition_to awaiting_confirmation cancelled = true
can_transition_to planning writing = true
can_transition_to planning failed = true
can_transition_to planning cancelled = true
can_transition_to planning interrupted = true
can_transition_to writing completed = true
can_transition_to writing failed = true
can_transition_to writing interrupted = true
can_transition_to interrupted queued = true
can_transition_to _ _ = false

-- `Display`
unfoldable pub to_string : JobState → String
to_string queued = "queued"
to_string scanning = "scanning"
to_string searching = "searching"
to_string resolving = "resolving"
to_string awaiting_confirmation = "awaiting_confirmation"
to_string planning = "planning"
to_string writing = "writing"
to_string completed = "completed"
to_string failed = "failed"
to_string cancelled = "cancelled"
to_string interrupted = "interrupted"

-- `FromStr`: `none` stands for `JobStateParseError`.
unfoldable pub from_str : String → Option JobState
from_str value =
    if value == "queued"
    then some queued
    else if value == "scanning"
    then some scanning
    else if value == "searching"
    then some searching
    else if value == "resolving"
    then some resolving
    else if value == "awaiting_confirmation"
    then some awaiting_confirmation
    else if value == "planning"
    then some planning
    else if value == "writing"
    then some writing
    else if value == "completed"
    then some completed
    else if value == "failed"
    then some failed
    else if value == "cancelled"
    then some cancelled
    else if value == "interrupted"
    then some interrupted
    else none

-- `is_terminal` of jobs/mod.rs
unfoldable pub is_terminal : JobState → Bool
is_terminal completed = true
is_terminal failed = true
is_terminal cancelled = true
is_terminal interrupted = true
is_terminal _ = false

-- ACTIVE_STATES of store/sqlite.rs
unfoldable pub is_active : JobState → Bool
is_active scanning = true
is_active searching = true
is_active resolving = true
is_active planning = true
is_active writing = true
is_active _ = false

-- `derive(PartialEq)`, by the discriminant.
abbrev state_code : JobState → ℕ
state_code queued = 0
state_code scanning = 1
state_code searching = 2
state_code resolving = 3
state_code awaiting_confirmation = 4
state_code planning = 5
state_code writing = 6
state_code completed = 7
state_code failed = 8
state_code cancelled = 9
state_code interrupted = 10

state_of : List JobState → ℕ → JobState
state_of [] n = interrupted
state_of (s ∷ states) zero = s
state_of (s ∷ states) (suc n) = state_of states n

state_of-code : (s : JobState) → state_of all_states (state_code s) ≡ s
unfolding state_of
state_of-code queued = refl
state_of-code _ = refl

abbrev pub state_beq : JobState → JobState → Bool
state_beq a b = nat_beq (state_code a) (state_code b)

pub state_beq_iff : (a b : JobState) → (state_beq a b ≡ true) ↔ (a ≡ b)
state_beq_iff a b = (
  λ h.
      sym (state_of-code a)
      ∙ ap (state_of all_states) ((nat_beq_iff (state_code a) (state_code b)).0 h)
      ∙ state_of-code b,
  λ e. (nat_beq_iff (state_code a) (state_code b)).1 (ap state_code e),
)

instance abbrev pub state_eq : PartialEq JobState
state_eq = record { same = state_beq; same_iff = state_beq_iff }
