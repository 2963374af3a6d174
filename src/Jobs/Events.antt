-- ===== src/Jobs/Events.antt =====
-- crates/fixer-server/src/jobs/events.rs: the bounded event history and its subscriptions. The
-- broadcast channel is the list of the events that it delivers to a subscription: those published
-- after it, in their order, up to a lag or the end, where the stream ends.
pub mod Log
pub mod Resume
use fixer.Common.{
  ℕ, suc, ◌+◌, ◌-◌, ◌^◌, ◌≡◌, Bool, true, false, not, ◌&&◌, ◌||◌, Option, none, some, List, [], ◌∷◌,
  ◌++◌, ltb, leb, ◌==◌, nat_eq, list_eq, if◌then◌else◌, filter, any, length, is_empty,
}
use fixer.Std.Text.{Text}
use fixer.Std.Decimal.{u64_max, to_decimal, parse_u64}
use fixer.Std.Result.{Result, ok, err, ◌>>=◌, ◌>>◌, ensure}
use fixer.Jobs.State.{JobState}
use fixer.Jobs.Model.{ProgressSummary, ExecutionSummary}

-- The event's kind with its JSON data.
pub data EventData : Type 0 where
  state : JobState → EventData
  progress : ProgressSummary → EventData
  completion : ExecutionSummary → EventData
  review : ℕ → ℕ → EventData

pub record JobEvent : Type 0 where
  pub sequence : ℕ
  pub job_id : ℕ
  pub body : EventData

-- `EventState` with the hub's capacity. A hub is built with a positive capacity.
pub record JobEventHub : Type 0 where
  pub capacity : ℕ
  pub epoch : Text
  pub next_sequence : ℕ
  pub retained : List JobEvent

pub data SubscribeError : Type 0 where
  expired invalid sequence_exhausted : SubscribeError

unfoldable pub new_hub : ℕ → Text → JobEventHub
new_hub capacity epoch = record {
  capacity = capacity;
  epoch = epoch;
  next_sequence = 0;
  retained = [];
}

-- `while retained.len() > capacity { retained.pop_front(); }`
unfoldable pub trim : ℕ → List JobEvent → List JobEvent
trim capacity [] = []
trim capacity (event ∷ events) =
    if ltb capacity (length (event ∷ events)) then trim capacity events else event ∷ events

-- Returns the hub and the event that was sent to the channel.
unfoldable pub publish :
    ℕ → EventData → JobEventHub → Result SubscribeError (JobEventHub × JobEvent)
unfolding trim
publish job_id body hub = do
  ensure (leb (hub.next_sequence + 1) u64_max) sequence_exhausted
  let sequence = hub.next_sequence + 1
  let event : JobEvent = record { sequence = sequence; job_id = job_id; body = body }
  ok (
    record hub {
      next_sequence = sequence;
      retained = trim hub.capacity (hub.retained ++ event ∷ []);
    },
    event,
  )

unfoldable pub publish_state :
    ℕ → JobState → JobEventHub → Result SubscribeError (JobEventHub × JobEvent)
unfolding publish
publish_state job_id s hub = publish job_id (state s) hub

unfoldable pub publish_progress :
    ℕ → ProgressSummary → JobEventHub → Result SubscribeError (JobEventHub × JobEvent)
unfolding publish
publish_progress job_id summary hub = publish job_id (progress summary) hub

unfoldable pub publish_completion :
    ℕ → ExecutionSummary → JobEventHub → Result SubscribeError (JobEventHub × JobEvent)
unfolding publish
publish_completion job_id execution hub = publish job_id (completion execution) hub

unfoldable pub publish_review :
    ℕ → ℕ → ℕ → JobEventHub → Result SubscribeError (JobEventHub × JobEvent)
unfolding publish
publish_review job_id candidate_count conflict_count hub =
    publish job_id (review candidate_count conflict_count) hub

-- Publishes only if no event of the job is retained.
unfoldable pub ensure_state :
    ℕ → JobState → JobEventHub → Result SubscribeError (JobEventHub × Option JobEvent)
unfolding publish
ensure_state job_id s hub =
    if any (λ event. event.job_id == job_id) hub.retained
    then ok (hub, none)
    else (publish job_id (state s) hub >>= λ r. ok (r.0, some r.1))

-- `value.split_once(':')`
unfoldable pub split_once : ℕ → Text → Option (Text × Text)
split_once sep [] = none
split_once sep (c ∷ s) =
    let rest = split_once sep s in
    if c == sep
    then some ([], s)
    else (elim rest [ none ↦ none | some (before, after) ↦ some (c ∷ before, after) ])

unfoldable pub parse_cursor : Text → Result SubscribeError (Text × ℕ)
parse_cursor value = elim (split_once b':' value) [
  | none ↦ err invalid
  | some (epoch, sequence) ↦
      if is_empty epoch
      then err invalid
      else (elim (parse_u64 sequence) [ none ↦ err invalid | some n ↦ ok (epoch, n) ])
]

-- The id of `into_sse`.
unfoldable pub event_id : Text → JobEvent → Text
event_id epoch event = epoch ++ (b':' ∷ to_decimal event.sequence)

-- Whether the cursor's successor is older than everything that is retained.
abbrev pub check_retained : ℕ → List JobEvent → Result SubscribeError (Unit {0})
check_retained sequence [] = ok tt
check_retained sequence (oldest ∷ events) = do
  ensure (leb (sequence + 1) u64_max) invalid
  ensure (not (ltb (sequence + 1) oldest.sequence)) expired

-- The start of the subscription: `none` replays everything that is retained.
abbrev pub cursor_of : Option Text → JobEventHub → Result SubscribeError (Option ℕ)
cursor_of none hub = ok none
cursor_of (some raw) hub = do
  (epoch, sequence) ← parse_cursor raw
  ensure (epoch == hub.epoch) expired
  ensure (not (ltb hub.next_sequence sequence)) invalid
  check_retained sequence hub.retained
  ok (some sequence)

abbrev pub is_after : Option ℕ → JobEvent → Bool
is_after none event = true
is_after (some sequence) event = ltb sequence event.sequence

pub record Subscription : Type 0 where
  pub epoch : Text
  pub job_id : ℕ
  pub replay : List JobEvent

unfoldable pub subscribe : ℕ → Option Text → JobEventHub → Result SubscribeError Subscription
subscribe job_id raw_cursor hub = do
  cursor ← cursor_of raw_cursor hub
  ok (record {
    epoch = hub.epoch;
    job_id = job_id;
    replay = filter (λ event. event.job_id == job_id && is_after cursor event) hub.retained;
  })

-- `into_stream`: the replay, then the job's events among those that the channel delivers.
unfoldable pub stream : Subscription → List JobEvent → List JobEvent
stream subscription received =
    subscription.replay ++ filter (λ event. event.job_id == subscription.job_id) received
