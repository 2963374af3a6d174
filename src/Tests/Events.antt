-- ===== src/Tests/Events.antt =====
-- The event history of crates/fixer-server at small sizes, and instances of the theorems of
-- Jobs/Events and of the decimal text.
use fixer.Common.{ℕ, ◌≡◌, refl, some, List, [], ◌∷◌, ◌++◌, ◌&&◌, arith, ltb, ◌==◌, nat_eq, filter}
use fixer.Std.Text.{text}
use fixer.Std.Decimal.{to_decimal, parse_u64, parse_u64-to_decimal}
use fixer.Std.Result.{Result, ok, err}
use fixer.Jobs.State.{queued, scanning}
use fixer.Jobs.Events.{
  EventData, JobEvent, JobEventHub, Subscription, SubscribeError, new_hub, publish, parse_cursor,
  split_once, subscribe, stream, event_id, expired,
}
use fixer.Jobs.Events.Log.{IsLog, new_hub-IsLog}
use fixer.Jobs.Events.Resume.{publish_all, publish_all-IsLog, resume, parse_cursor-event_id}

abbrev calls : List (ℕ × EventData)
calls =
    (1, EventData.state queued) ∷ (2, EventData.state queued) ∷ (1, EventData.state scanning) ∷ []

abbrev hub : JobEventHub
hub = record { capacity = 2; epoch = text "e1"; next_sequence = 0; retained = [] }

abbrev result : Result SubscribeError (JobEventHub × List JobEvent) → JobEventHub × List JobEvent
result (ok r) = r
result (err e) = (hub, [])

published : JobEventHub × List JobEvent
unfolding publish_all publish
published = result (publish_all calls hub)

publishes : publish_all calls hub ≡ ok (published.0, published.1)
unfolding published
publishes = refl

hub-IsLog : IsLog hub [] []
unfolding new_hub
hub-IsLog = new_hub-IsLog 2 (text "e1") (omega arith)

more : JobEventHub × List JobEvent
unfolding published
more = result (publish_all calls published.0)

publishes_more : publish_all calls published.0 ≡ ok (more.0, more.1)
unfolding more
publishes_more = refl

abbrev from_start : Subscription
from_start = record { epoch = text "e1"; job_id = 1; replay = [] }

abbrev subscription_of : Result SubscribeError Subscription → Subscription
subscription_of (ok s) = s
subscription_of (err e) = from_start

subscribed : Subscription
unfolding published subscribe parse_cursor split_once parse_u64
subscribed = subscription_of (subscribe 1 (some (text "e1:2")) published.0)

subscribes : subscribe 1 (some (text "e1:2")) published.0 ≡ ok subscribed
unfolding subscribed
subscribes = refl

parses : parse_cursor (text "e1:2") ≡ ok (text "e1", 2)
unfolding parse_cursor split_once parse_u64
parses = refl

published-IsLog : (dropped : List JobEvent) × IsLog published.0 dropped ([] ++ published.1)
published-IsLog = publish_all-IsLog calls hub [] [] hub-IsLog publishes

resume_example :
    stream subscribed more.1
    ≡ filter (λ event. event.job_id == 1 && ltb 2 event.sequence) (([] ++ published.1) ++ more.1)
resume_example =
    resume 1 2 (text "e1:2") (text "e1") published.0 published-IsLog.0 ([] ++ published.1) calls
      published-IsLog.1 parses subscribes publishes_more

-- A cursor before what is retained is refused.
too_old : subscribe 1 (some (text "e1:0")) more.0 ≡ err expired
unfolding more subscribe parse_cursor split_once parse_u64
too_old = refl

abbrev event : JobEvent
event = record { sequence = 1024; job_id = 3; body = EventData.state queued }

parse_cursor-event_id_example :
    parse_cursor (event_id (text "a1-2f-1") event) ≡ ok (text "a1-2f-1", 1024)
parse_cursor-event_id_example = parse_cursor-event_id (text "a1-2f-1") event refl refl (omega arith)

shows : event_id (text "a1-2f-1") event ≡ text "a1-2f-1:1024"
unfolding event_id to_decimal
shows = refl

parse_u64-to_decimal_example :
    parse_u64 (to_decimal 18446744073709551615) ≡ some 18446744073709551615
parse_u64-to_decimal_example = parse_u64-to_decimal 18446744073709551615 (omega arith)
