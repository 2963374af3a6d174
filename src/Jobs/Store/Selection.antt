-- ===== src/Jobs/Store/Selection.antt =====
-- Selection and update by id, over the rows of store/sqlite.rs.
use fixer.Common.{
  ℕ, ◌≤◌, ◌<◌, ◌≡◌, refl, none, some, List, [], ◌∷◌, ◌++◌, arith, ◌==◌, nat_eq, if◌then◌else◌, All,
  Bool-cases, inl, inr, ◌≢◌, subst, some_injective,
}
use fixer.Jobs.Store.{JobRecord, find_job, set_job}

-- The ids ascend strictly, from above `lo`.
abbrev pub IsAscending : ℕ → List JobRecord → Type 0
IsAscending lo [] = Unit
IsAscending lo (job ∷ jobs) = (lo < job.id) × IsAscending job.id jobs

pub id-find_job :
    (i : ℕ) (jobs : List JobRecord) {job : JobRecord} → find_job i jobs ≡ some job → job.id ≡ i
unfolding find_job
id-find_job i [] h = absurd (cc h)
id-find_job i (x ∷ jobs) {job} h = ground (arith, id-find_job i jobs {job = job})

pub All-find_job {κ} :
    (P : JobRecord → Type κ) (i : ℕ) (jobs : List JobRecord) {job : JobRecord}
    → All P jobs
    → find_job i jobs ≡ some job
    → P job
unfolding find_job
All-find_job P i [] a h = absurd (cc h)
All-find_job P i (x ∷ jobs) a h = elim (Bool-cases (x.id == i)) [
  | inl e ↦ subst P (some_injective (rw e at h)) a.0
  | inr n ↦ All-find_job P i jobs a.1 (rw n at h)
]

pub find_job-set_job :
    (i j : ℕ) (new : JobRecord) (jobs : List JobRecord)
    → new.id ≡ i
    → find_job j (set_job i new jobs) ≡ (
        if i == j
        then (elim (find_job j jobs) [ none ↦ none | some _ ↦ some new ])
        else find_job j jobs)
unfolding find_job set_job
find_job-set_job i j new [] e = ground arith
find_job-set_job i j new (x ∷ jobs) e = ground (arith, find_job-set_job i j new jobs e)

pub set_job-IsAscending :
    (lo i : ℕ) (new : JobRecord) (jobs : List JobRecord)
    → new.id ≡ i
    → IsAscending lo jobs
    → IsAscending lo (set_job i new jobs)
unfolding set_job
set_job-IsAscending lo i new [] e a = tt
set_job-IsAscending lo i new (x ∷ jobs) e a = elim (Bool-cases (x.id == i)) [
  | inl s ↦ rw s (ground arith, set_job-IsAscending new.id i new jobs e (ground (arith, a.1)))
  | inr n ↦ rw n (a.0, set_job-IsAscending x.id i new jobs e a.1)
]

pub All-set_job {κ} :
    (P : JobRecord → Type κ) (i : ℕ) (new : JobRecord) (jobs : List JobRecord)
    → P new
    → All (λ job. job.id ≢ i → P job) jobs
    → All P (set_job i new jobs)
unfolding set_job
All-set_job P i new [] p a = tt
All-set_job P i new (x ∷ jobs) p a = elim (Bool-cases (x.id == i)) [
  | inl s ↦ rw s (p, All-set_job P i new jobs p a.1)
  | inr n ↦ rw n (a.0 (ground arith), All-set_job P i new jobs p a.1)
]

pub find_job-append :
    (i : ℕ) (jobs : List JobRecord) (new : JobRecord)
    → find_job i (jobs ++ new ∷ []) ≡ (elim (find_job i jobs) [
      | none ↦ if new.id == i then some new else none
      | some job ↦ some job
    ])
unfolding find_job
find_job-append i [] new = refl
find_job-append i (x ∷ jobs) new = ground (arith, find_job-append i jobs new)

pub append-IsAscending :
    (lo n : ℕ) (new : JobRecord) (jobs : List JobRecord)
    → lo ≤ n
    → n < new.id
    → All (λ job. job.id ≤ n) jobs
    → IsAscending lo jobs
    → IsAscending lo (jobs ++ new ∷ [])
append-IsAscending lo n new [] l h b a = (omega arith, tt)
append-IsAscending lo n new (x ∷ jobs) l h b a =
    (a.0, append-IsAscending x.id n new jobs b.0 h b.1 a.1)
