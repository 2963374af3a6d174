-- ===== src/Jobs/Events/Log.antt =====
-- The event history of crates/fixer-server/src/jobs/events.rs against the log of everything that
-- was ever published.
use fixer.Common.{
  ℕ, suc, ◌+◌, ◌≤◌, ◌<◌, ◌≡◌, refl, sym, ap, ◌∙◌, Bool, ◌&&◌, some, List, [], ◌∷◌, ◌++◌, ltb, ◌==◌,
  nat_eq, list_eq, filter, length, length-append, All, arith, Bool-cases, inl, inr, ◌⊎◌, ltb→lt,
  subst,
}
use mathlib.Core.List.{append_assoc}
use fixer.Std.Text.{Text}
use fixer.Std.Result.{ok}
use fixer.Jobs.Events.{EventData, JobEvent, JobEventHub, new_hub, trim, publish, is_after}

-- The events are numbered on from `lo`.
abbrev pub IsNumbered : ℕ → List JobEvent → Type 0
IsNumbered lo [] = Unit
IsNumbered lo (event ∷ events) = (event.sequence ≡ suc lo) × IsNumbered (suc lo) events

-- `log` holds everything that was published, oldest first; the hub retains its end.
pub record IsLog (hub : JobEventHub) (dropped : List JobEvent) (log : List JobEvent) : Type 0 where
  pub retains : log ≡ dropped ++ hub.retained
  pub numbered : IsNumbered 0 log
  pub counted : hub.next_sequence ≡ length log
  pub positive : 0 < hub.capacity
  pub bounded : length hub.retained ≤ hub.capacity
  pub full : (dropped ≡ []) ⊎ (length hub.retained ≡ hub.capacity)

IsNumbered-append :
    (lo : ℕ) (xs ys : List JobEvent)
    → IsNumbered lo xs
    → IsNumbered (lo + length xs) ys
    → IsNumbered lo (xs ++ ys)
IsNumbered-append lo [] ys p q = subst (λ n. IsNumbered n ys) (omega arith) q
IsNumbered-append lo (x ∷ xs) ys p q =
    (p.0, IsNumbered-append (suc lo) xs ys p.1 (subst (λ n. IsNumbered n ys) (omega arith) q))

pub IsNumbered-split :
    (lo : ℕ) (xs ys : List JobEvent)
    → IsNumbered lo (xs ++ ys)
    → IsNumbered lo xs × IsNumbered (lo + length xs) ys
IsNumbered-split lo [] ys p = (tt, subst (λ n. IsNumbered n ys) (omega arith) p)
IsNumbered-split lo (x ∷ xs) ys p =
    let rest = IsNumbered-split (suc lo) xs ys p.1 in
    ((p.0, rest.0), subst (λ n. IsNumbered n ys) (omega arith) rest.1)

pub numbered_le :
    (lo n : ℕ) (xs : List JobEvent)
    → lo + length xs ≤ n
    → IsNumbered lo xs
    → All (λ event. event.sequence ≤ n) xs
numbered_le lo n [] h p = tt
numbered_le lo n (x ∷ xs) h p = (omega arith, numbered_le (suc lo) n xs (omega arith) p.1)

pub numbered_gt :
    (lo n : ℕ) (xs : List JobEvent)
    → n ≤ lo
    → IsNumbered lo xs
    → All (λ event. n < event.sequence) xs
numbered_gt lo n [] h p = tt
numbered_gt lo n (x ∷ xs) h p = (omega arith, numbered_gt (suc lo) n xs (omega arith) p.1)

pub filter-append {ℓ} :
    {A : Type ℓ} (p : A → Bool) (xs ys : List A) → filter p (xs ++ ys) ≡ filter p xs ++ filter p ys
filter-append p [] ys = refl
filter-append p (x ∷ xs) ys = elim (Bool-cases (p x)) [
  | inl y ↦ rw y (ap (◌∷◌ x) (filter-append p xs ys))
  | inr n ↦ rw n (filter-append p xs ys)
]

-- Old events pass no cursor, new events pass it.
pub filter_old :
    (job_id n : ℕ) (xs : List JobEvent)
    → All (λ event. event.sequence ≤ n) xs
    → filter (λ event. event.job_id == job_id && is_after (some n) event) xs ≡ []
filter_old job_id n [] h = refl
filter_old job_id n (x ∷ xs) h = ground (arith, filter_old job_id n xs h.1, h.0)

pub filter_new :
    (job_id n : ℕ) (xs : List JobEvent)
    → All (λ event. n < event.sequence) xs
    → filter (λ event. event.job_id == job_id && is_after (some n) event) xs
      ≡ filter (λ event. event.job_id == job_id) xs
filter_new job_id n [] h = refl
filter_new job_id n (x ∷ xs) h = ground (arith, filter_new job_id n xs h.1, h.0)

full_after :
    (capacity : ℕ) (xs kept cut : List JobEvent)
    → xs ≡ cut ++ kept
    → length kept ≤ capacity
    → capacity < suc (length xs)
    → (cut ≡ []) ⊎ (length kept ≡ capacity)
    → length kept ≡ capacity
full_after capacity xs kept cut e bound over (inr h) = h
full_after capacity xs kept cut e bound over (inl none_cut) =
    let same : xs ≡ kept = rw none_cut at e in omega (arith, ap length same)

-- `trim` cuts a beginning off, and only as much as it must.
trim_lem :
    (capacity : ℕ) (xs : List JobEvent)
    → (cut : List JobEvent) × (xs ≡ cut ++ trim capacity xs)
      × (length (trim capacity xs) ≤ capacity)
      × ((cut ≡ []) ⊎ (length (trim capacity xs) ≡ capacity))
unfolding trim
trim_lem capacity [] = ([], refl, omega arith, inl refl)
trim_lem capacity (x ∷ xs) = elim (Bool-cases (ltb capacity (length (x ∷ xs)))) [
  | inr fits ↦ rw fits ([], refl, ground (arith, fits), inl refl)
  | inl over ↦
      let (cut, e, bound, full) = trim_lem capacity xs in
      rw over (
        x ∷ cut,
        ap (◌∷◌ x) e,
        bound,
        inr (full_after capacity xs (trim capacity xs) cut e bound (ltb→lt _ _ over) full),
      )
]

pub new_hub-IsLog :
    (capacity : ℕ) (epoch : Text) → 0 < capacity → IsLog (new_hub capacity epoch) [] []
unfolding new_hub
new_hub-IsLog capacity epoch h = record {
  retains = refl;
  numbered = tt;
  counted = refl;
  positive = h;
  bounded = omega arith;
  full = inl refl;
}

pub publish_inv :
    (job_id : ℕ) (body : EventData) (hub : JobEventHub) {hub' : JobEventHub} {event : JobEvent}
    → publish job_id body hub ≡ ok (hub', event)
    → (event ≡ record { sequence = hub.next_sequence + 1; job_id = job_id; body = body })
      × (hub' ≡ record hub {
        next_sequence = hub.next_sequence + 1;
        retained = trim hub.capacity (hub.retained ++ event ∷ []);
      })
unfolding publish
publish_inv job_id body hub h = (ground arith, ground arith)

full_drop :
    (dropped cut kept : List JobEvent) (capacity n : ℕ)
    → (dropped ≡ []) ⊎ (n ≡ capacity)
    → (cut ≡ []) ⊎ (length kept ≡ capacity)
    → n + 1 ≡ length cut + length kept
    → length kept ≤ capacity
    → (dropped ++ cut ≡ []) ⊎ (length kept ≡ capacity)
full_drop dropped cut kept capacity n p (inr h) count bound = inr h
full_drop dropped cut kept capacity n (inl d) (inl c) count bound = inl (rw (d, c))
full_drop dropped cut kept capacity n (inr f) (inl c) count bound =
    absurd (omega (arith, ap length c))

-- A published event joins the log; the hub goes on retaining its end, at most `capacity` events.
pub publish-IsLog :
    (job_id : ℕ) (body : EventData) (hub : JobEventHub) (dropped log : List JobEvent)
    {hub' : JobEventHub} {event : JobEvent}
    → IsLog hub dropped log
    → publish job_id body hub ≡ ok (hub', event)
    → (dropped' : List JobEvent) × IsLog hub' dropped' (log ++ event ∷ [])
publish-IsLog job_id body hub dropped log {hub'} {event} l h =
    let (e, e') = publish_inv job_id body hub h in
    let (cut, split, bound, full) = trim_lem hub.capacity (hub.retained ++ event ∷ []) in
    let count = ap length split in
    (
      dropped ++ cut,
      rw e' (record {
        retains =
            ap (λ (z : List JobEvent). z ++ event ∷ []) l.retains
            ∙ append_assoc dropped hub.retained (event ∷ [])
            ∙ ap (λ (z : List JobEvent). dropped ++ z) split
            ∙ sym (append_assoc dropped cut (trim hub.capacity (hub.retained ++ event ∷ [])));
        numbered =
            IsNumbered-append 0 log (event ∷ []) l.numbered
              (omega (arith, ap (λ (x : JobEvent). x.sequence) e, l.counted), tt);
        counted = omega (arith, length-append {0} log (event ∷ []), l.counted);
        positive = l.positive;
        bounded = bound;
        full =
            full_drop dropped cut (trim hub.capacity (hub.retained ++ event ∷ [])) hub.capacity
              (length hub.retained) l.full full
              (omega (
                arith,
                count,
                length-append {0} hub.retained (event ∷ []),
                length-append {0} cut (trim hub.capacity (hub.retained ++ event ∷ [])),
              ))
              bound;
      }),
    )
