-- ===== src/Jobs/Events/Resume.antt =====
-- A client that reconnects to crates/fixer-server/src/jobs/events.rs with the id of an event.
use fixer.Common.{
  ℕ, ◌+◌, ◌≤◌, ◌<◌, ◌^◌, ◌≡◌, refl, sym, ap, ◌∙◌, Bool, false, ◌&&◌, Option, some, List, [], ◌∷◌,
  ◌++◌, ltb, ◌==◌, nat_eq, list_eq, filter, length, is_empty, arith, inl, inr, ◌⊎◌, contains,
  list_beq_iff, subst,
}
use mathlib.Core.List.{append_assoc, append-nil}
use fixer.Std.Text.{Text}
use fixer.Std.Decimal.{to_decimal, parse_u64, parse_u64-to_decimal}
use fixer.Std.Result.{Result, ok, ◌>>=◌, >>=-eq-ok}
use fixer.Jobs.Events.{
  EventData, JobEvent, JobEventHub, SubscribeError, Subscription, publish, parse_cursor, split_once,
  check_retained, cursor_of, is_after, subscribe, stream, event_id,
}
use fixer.Jobs.Events.Log.{
  IsLog, IsNumbered, publish-IsLog, publish_inv, IsNumbered-split, numbered_le, numbered_gt,
  filter-append, filter_old, filter_new,
}

-- Publishes one event after the other, and returns what the channel delivers.
unfoldable pub publish_all :
    List (ℕ × EventData) → JobEventHub → Result SubscribeError (JobEventHub × List JobEvent)
publish_all [] hub = ok (hub, [])
publish_all ((job_id, body) ∷ calls) hub = do
  (hub', event) ← publish job_id body hub
  (last, events) ← publish_all calls hub'
  ok (last, event ∷ events)

publish_all-IsNumbered :
    (calls : List (ℕ × EventData)) (hub : JobEventHub) {hub' : JobEventHub} {events : List JobEvent}
    → publish_all calls hub ≡ ok (hub', events)
    → IsNumbered hub.next_sequence events
unfolding publish_all
publish_all-IsNumbered [] hub {hub'} {events} h = let e : [] ≡ events = ground arith in rw (← e) tt
publish_all-IsNumbered ((job_id, body) ∷ calls) hub {hub'} {events} h =
    let (first, published, rest) =
      >>=-eq-ok (publish job_id body hub) (λ r. publish_all calls r.0 >>= λ s. ok (s.0, r.1 ∷ s.1))
        h in
    let (last, others, built) =
      >>=-eq-ok (publish_all calls first.0) (λ s. ok (s.0, first.1 ∷ s.1)) rest in
    let (e, e') = publish_inv job_id body hub published in
    let numbered = publish_all-IsNumbered calls first.0 others in
    let same : first.1 ∷ last.1 ≡ events = ground arith in
    rw (← same) (
      omega (arith, ap (λ (x : JobEvent). x.sequence) e),
      subst (λ n. IsNumbered n last.1) (omega (arith, ap (λ (x : JobEventHub). x.next_sequence) e'))
          numbered,
    )

-- Publishing any events keeps the hub's history the end of the log: it retains everything, or
-- exactly `capacity` events.
pub publish_all-IsLog :
    (calls : List (ℕ × EventData)) (hub : JobEventHub) (dropped log : List JobEvent)
    {hub' : JobEventHub} {events : List JobEvent}
    → IsLog hub dropped log
    → publish_all calls hub ≡ ok (hub', events)
    → (dropped' : List JobEvent) × IsLog hub' dropped' (log ++ events)
unfolding publish_all
publish_all-IsLog [] hub dropped log {hub'} {events} l h =
    let e : hub ≡ hub' = ground arith in
    let none : [] ≡ events = ground arith in (dropped, rw (← e, ← none, append-nil) l)
publish_all-IsLog ((job_id, body) ∷ calls) hub dropped log {hub'} {events} l h =
    let (first, published, rest) =
      >>=-eq-ok (publish job_id body hub) (λ r. publish_all calls r.0 >>= λ s. ok (s.0, r.1 ∷ s.1))
        h in
    let (last, others, built) =
      >>=-eq-ok (publish_all calls first.0) (λ s. ok (s.0, first.1 ∷ s.1)) rest in
    let (cut, l') = publish-IsLog job_id body hub dropped log l published in
    let (cut', l'') = publish_all-IsLog calls first.0 cut (log ++ first.1 ∷ []) l' others in
    let same : first.1 ∷ last.1 ≡ events = ground arith in
    let ended : last.0 ≡ hub' = ground arith in
    let moved : (log ++ first.1 ∷ []) ++ last.1 ≡ log ++ events =
      append_assoc log (first.1 ∷ []) last.1 ∙ ap (λ (z : List JobEvent). log ++ z) same in
    (
      cut',
      subst (λ z. IsLog hub' cut' z) moved
          (subst (λ x. IsLog x cut' ((log ++ first.1 ∷ []) ++ last.1)) ended l''),
    )

-- The cursor's successor is not older than what is retained.
abbrev Covers : ℕ → List JobEvent → Type 0
Covers n [] = Unit
Covers n (oldest ∷ events) = oldest.sequence ≤ n + 1

check_retained_inv :
    (n : ℕ) (events : List JobEvent) → check_retained n events ≡ ok tt → Covers n events
check_retained_inv n [] h = tt
check_retained_inv n (oldest ∷ events) h = ground arith

cursor_inv :
    (n : ℕ) (raw epoch : Text) (hub : JobEventHub) {cursor : Option ℕ}
    → parse_cursor raw ≡ ok (epoch, n)
    → cursor_of (some raw) hub ≡ ok cursor
    → (cursor ≡ some n)
      × (n ≤ hub.next_sequence)
      × (epoch ≡ hub.epoch)
      × (check_retained n hub.retained ≡ ok tt)
cursor_inv n raw epoch hub {cursor} p h =
    let h' = rw p at h in ground (arith, h', list_beq_iff epoch hub.epoch)

abbrev subscription_at : JobEventHub → ℕ → Option ℕ → Subscription
subscription_at hub job_id cursor = record {
  epoch = hub.epoch;
  job_id = job_id;
  replay = filter (λ event. event.job_id == job_id && is_after cursor event) hub.retained;
}

subscription_of :
    (hub : JobEventHub) (job_id n : ℕ) (cursor : Option ℕ) {subscription : Subscription}
    → cursor ≡ some n
    → subscription ≡ subscription_at hub job_id cursor
    → subscription ≡ subscription_at hub job_id (some n)
subscription_of hub job_id n cursor c e = e ∙ ap (subscription_at hub job_id) c

subscribe_inv :
    (job_id n : ℕ) (raw epoch : Text) (hub : JobEventHub) {subscription : Subscription}
    → parse_cursor raw ≡ ok (epoch, n)
    → subscribe job_id (some raw) hub ≡ ok subscription
    → (subscription ≡ record {
      epoch = hub.epoch;
      job_id = job_id;
      replay = filter (λ event. event.job_id == job_id && is_after (some n) event) hub.retained;
    })
      × (n ≤ hub.next_sequence)
      × (epoch ≡ hub.epoch)
      × Covers n hub.retained
unfolding subscribe
subscribe_inv job_id n raw epoch hub {subscription} p h =
    let (cursor, found, built) =
      >>=-eq-ok (cursor_of (some raw) hub)
        (λ (c : Option ℕ). ok (record {
          epoch = hub.epoch;
          job_id = job_id;
          replay = filter (λ event. event.job_id == job_id && is_after c event) hub.retained;
        }))
        h in
    let (c, le, same, checked) = cursor_inv n raw epoch hub p found in
    (
      subscription_of hub job_id n cursor c (ground arith),
      le,
      same,
      check_retained_inv n hub.retained checked,
    )

-- Where the retained events start at most one after the cursor, all dropped events are before it.
covered :
    (n : ℕ) (dropped kept log : List JobEvent) (capacity : ℕ)
    → log ≡ dropped ++ kept
    → IsNumbered 0 (dropped ++ kept)
    → 0 < capacity
    → (dropped ≡ []) ⊎ (length kept ≡ capacity)
    → Covers n kept
    → length dropped ≤ n
covered n dropped [] log capacity r m pos (inl none_dropped) c =
    omega (arith, ap length none_dropped)
covered n dropped [] log capacity r m pos (inr full) c = absurd (omega arith)
covered n dropped (oldest ∷ kept) log capacity r m pos full c =
    omega (arith, (IsNumbered-split 0 dropped (oldest ∷ kept) m).1.0)

dropped_old :
    (n : ℕ) (hub : JobEventHub) (dropped log : List JobEvent)
    → IsLog hub dropped log
    → Covers n hub.retained
    → n ≤ hub.next_sequence
    → length dropped ≤ n
dropped_old n hub dropped log l c le =
    covered n dropped hub.retained log hub.capacity l.retains
      (subst (λ z. IsNumbered 0 z) l.retains l.numbered) l.positive l.full c

-- A client that subscribes with a cursor receives, from the replay and the channel together,
-- exactly the job's events of the whole log after the cursor: none is lost and none comes twice.
pub resume :
    (job_id n : ℕ) (raw epoch : Text) (hub : JobEventHub) (dropped log : List JobEvent)
    (calls : List (ℕ × EventData)) {subscription : Subscription} {hub' : JobEventHub}
    {events : List JobEvent}
    → IsLog hub dropped log
    → parse_cursor raw ≡ ok (epoch, n)
    → subscribe job_id (some raw) hub ≡ ok subscription
    → publish_all calls hub ≡ ok (hub', events)
    → stream subscription events
      ≡ filter (λ event. event.job_id == job_id && ltb n event.sequence) (log ++ events)
unfolding stream
resume job_id n raw epoch hub dropped log calls {subscription} {hub'} {events} l p s q =
    let (e, le, same, c) = subscribe_inv job_id n raw epoch hub p s in
    let fresh =
      filter_new job_id n events
        (numbered_gt hub.next_sequence n events le (publish_all-IsNumbered calls hub q)) in
    let numbered =
      IsNumbered-split 0 dropped hub.retained (subst (λ z. IsNumbered 0 z) l.retains l.numbered) in
    let old =
      filter_old job_id n dropped (
        numbered_le 0 n dropped (omega (arith, dropped_old n hub dropped log l c le)) numbered.0) in
    let test : JobEvent → Bool = λ event. event.job_id == job_id && is_after (some n) event in
    let logged : filter test log ≡ filter test hub.retained =
      ap (filter test) l.retains
      ∙ filter-append test dropped hub.retained
      ∙ ap (λ (z : List JobEvent). z ++ filter test hub.retained) old in
    let all_after : filter test (log ++ events)
        ≡ filter test hub.retained ++ filter (λ event. event.job_id == job_id) events =
      filter-append test log events
      ∙ ap (λ (z : List JobEvent). z ++ filter test events) logged
      ∙ ap (λ (z : List JobEvent). filter test hub.retained ++ z) fresh in
    rw e (sym all_after)

split_once-append :
    (epoch rest : Text)
    → contains epoch b':' ≡ false
    → split_once b':' (epoch ++ b':' ∷ rest) ≡ some (epoch, rest)
unfolding split_once
split_once-append [] rest h = refl
split_once-append (c ∷ epoch) rest h =
    rw (split_once-append epoch rest (ground arith)) (ground arith)

parse_cursor_parts :
    (value epoch sequence : Text) (n : ℕ)
    → split_once b':' value ≡ some (epoch, sequence)
    → is_empty epoch ≡ false
    → parse_u64 sequence ≡ some n
    → parse_cursor value ≡ ok (epoch, n)
unfolding parse_cursor
parse_cursor_parts value epoch sequence n split filled parsed = ground arith

-- The id under which an event is sent is read back as a cursor, with the hub's epoch and the
-- event's number.
pub parse_cursor-event_id :
    (epoch : Text) (event : JobEvent)
    → is_empty epoch ≡ false
    → contains epoch b':' ≡ false
    → event.sequence < 2 ^ 64
    → parse_cursor (event_id epoch event) ≡ ok (epoch, event.sequence)
unfolding event_id
parse_cursor-event_id epoch event filled plain fits =
    parse_cursor_parts (epoch ++ b':' ∷ to_decimal event.sequence) epoch (to_decimal event.sequence)
      event.sequence (split_once-append epoch (to_decimal event.sequence) plain) filled
      (parse_u64-to_decimal event.sequence fits)
