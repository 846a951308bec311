-- ===== src/Worker/Jobs/Drain.antt =====
-- Draining the table of due jobs ends, and keeps every job within its attempts.
use bug_han.Prelude.{
  ℕ, zero, suc, ◌+◌, ◌<◌, ◌≤◌, ◌≡◌, refl, ◌∙◌, ap, true, false, not, ◌&&◌, Option, none, some, List,
  [], ◌∷◌, Bytes, arith, leb, if◌then◌else◌, set, All, Bool-cases, Option-cases, inl, inr, and_left,
  every_under, every_under-elem, leb→le,
}
use bug_han.Prelude.Int.{ℤ, pos, ◌+ℤ◌, ltb_ℤ, ◌<ℤ◌, +ℤ_parts}
use bug_han.SourceMap.Vlq.{signed64}
use bug_han.Worker.Jobs.{
  Job, Status, pending, running, done, failed, is_due, is_pending, earliest, claim, started,
  backoff, Handlers, outcome, finish, execute, run_due,
}

-- the attempts that a status allows
abbrev pub Allows : Status → ℕ → ℕ → Type 0
Allows pending n max = n < max
Allows running n max = (1 ≤ n) × (n ≤ max)
Allows done n max = (1 ≤ n) × (n ≤ max)
Allows failed n max = n ≡ max

-- a row that the worker wrote, or Enqueue with at most 27 attempts: up to there the backoff fits an int64
pub record IsJob (j : Job) : Type 0 where
  pub within : Allows j.status j.attempts j.max_attempts
  pub few : j.max_attempts ≤ 27

unfoldable pub due_count : ℤ → List Job → ℕ
due_count now [] = 0
due_count now (j ∷ jobs) = (if is_due now j then 1 else 0) + due_count now jobs

-- up to 27 attempts the backoff is not negative and not null
backoff_table : every_under (λ n. ltb_ℤ (pos 0) (backoff (suc n))) 27 ≡ true
unfolding backoff signed64
backoff_table = refl

backoff_positive : (n : ℕ) → 1 ≤ n → n ≤ 27 → pos 0 <ℤ backoff n
backoff_positive zero lo hi = absurd (omega arith)
backoff_positive (suc n) lo hi =
    let test : ltb_ℤ (pos 0) (backoff (suc n)) ≡ true =
      every_under-elem (λ n. ltb_ℤ (pos 0) (backoff (suc n))) 27 backoff_table n (omega arith) in
    ground (arith, test)

later : (now : ℤ) (n : ℕ) → 1 ≤ n → n ≤ 27 → ltb_ℤ now (now +ℤ backoff n) ≡ true
later now n lo hi = ground (arith, +ℤ_parts now (backoff n), backoff_positive n lo hi)

pending_below : (s : Status) (n max : ℕ) → is_pending s ≡ true → Allows s n max → n < max
pending_below pending n max e h = h
pending_below running n max e h = absurd (ground arith)
pending_below done n max e h = absurd (ground arith)
pending_below failed n max e h = absurd (ground arith)

due_below : (now : ℤ) (j : Job) → IsJob j → is_due now j ≡ true → j.attempts < j.max_attempts
unfolding is_due
due_below now j h due = pending_below j.status j.attempts j.max_attempts (and_left _ _ due) h.within

-- an executed job is within its attempts and not due again
record IsSettled (now : ℤ) (j : Job) : Type 0 where
  is_job : IsJob j
  not_due : is_due now j ≡ false

finish-IsSettled :
    (now : ℤ) (j : Job) (o : Option Bytes)
    → (1 ≤ j.attempts) × (j.attempts ≤ j.max_attempts)
    → j.max_attempts ≤ 27
    → IsSettled now (finish now j o)
unfolding finish is_due
finish-IsSettled now j none h few = record {
  is_job = record { within = h; few = few };
  not_due = refl;
}
finish-IsSettled now j (some e) (lo, hi) few = elim (Bool-cases (leb j.max_attempts j.attempts)) [
  | inl last ↦ rw last (record {
    is_job = record { within = omega (arith, leb→le j.max_attempts j.attempts last); few = few };
    not_due = refl;
  })
  | inr retry ↦ rw retry (record {
    is_job = record { within = ground arith; few = few };
    not_due = rw (later now j.attempts lo (omega arith)) refl;
  })
]

-- what the claim finds: a due row, which stands at its id
record IsFound (now : ℤ) (jobs : List Job) (id : ℕ) (j : Job) : Type 0 where
  due : is_due now j ≡ true
  is_job : IsJob j
  count : (i : Job) → is_due now i ≡ false → due_count now (set jobs id i) + 1 ≡ due_count now jobs
  rows : (i : Job) → IsJob i → All IsJob (set jobs id i)

abbrev Finds : ℤ → List Job → Option (ℕ × Job) → Type 0
Finds now jobs none = due_count now jobs ≡ 0
Finds now jobs (some (id, j)) = IsFound now jobs id j

IsFound-head :
    (now : ℤ) (j : Job) (jobs : List Job)
    → IsJob j
    → All IsJob jobs
    → is_due now j ≡ true
    → IsFound now (j ∷ jobs) 0 j
unfolding due_count
IsFound-head now j jobs h hs due = record {
  due = due;
  is_job = h;
  count = λ i e. rw (e, due) (omega arith);
  rows = λ i hi. (hi, hs);
}

IsFound-tail :
    (now : ℤ) (j : Job) (jobs : List Job) (id : ℕ) (i : Job)
    → IsJob j
    → IsFound now jobs id i
    → IsFound now (j ∷ jobs) (suc id) i
unfolding due_count
IsFound-tail now j jobs id i h f = record {
  due = f.due;
  is_job = f.is_job;
  count = λ k e. omega (arith, f.count k e);
  rows = λ k hk. (h, f.rows k hk);
}

skip-due_count :
    (now : ℤ) (j : Job) (jobs : List Job)
    → is_due now j ≡ false
    → due_count now (j ∷ jobs) ≡ due_count now jobs
unfolding due_count
skip-due_count now j jobs e = rw e (omega arith)

pick-Finds :
    (now : ℤ) (j : Job) (jobs : List Job) (o : Option (ℕ × Job))
    → IsJob j
    → All IsJob jobs
    → Finds now jobs o
    → Finds now (j ∷ jobs) (elim o [
      | none ↦ if is_due now j then some (0, j) else none
      | some (id, i) ↦
          if is_due now j && not (ltb_ℤ i.run_at j.run_at) then some (0, j) else some (suc id, i)
    ])
pick-Finds now j jobs none h hs f = elim (Bool-cases (is_due now j)) [
  | inl due ↦ rw due (IsFound-head now j jobs h hs due)
  | inr due ↦ rw due (skip-due_count now j jobs due ∙ f)
]
pick-Finds now j jobs (some (id, i)) h hs f =
    elim (Bool-cases (is_due now j && not (ltb_ℤ i.run_at j.run_at))) [
      | inl first ↦ rw first (IsFound-head now j jobs h hs (and_left _ _ first))
      | inr next ↦ rw next (IsFound-tail now j jobs id i h f)
    ]

earliest-Finds : (now : ℤ) (jobs : List Job) → All IsJob jobs → Finds now jobs (earliest now jobs)
unfolding earliest
earliest-Finds now [] h = unfold due_count in refl
earliest-Finds now (j ∷ jobs) (h, hs) =
    pick-Finds now j jobs (earliest now jobs) h hs (earliest-Finds now jobs hs)

set-set : (jobs : List Job) (id : ℕ) (i j : Job) → set (set jobs id i) id j ≡ set jobs id j
set-set [] id i j = refl
set-set (k ∷ jobs) zero i j = refl
set-set (k ∷ jobs) (suc id) i j = ap (λ t. k ∷ t) (set-set jobs id i j)

-- the row after it ran
ran_row : Handlers → ℤ → Job → Job
ran_row handlers now j = finish now (started j) (outcome handlers (started j))

claim-earliest :
    (now : ℤ) (jobs : List Job) (id : ℕ) (j : Job)
    → earliest now jobs ≡ some (id, j)
    → claim now jobs ≡ (some (id, started j), set jobs id (started j))
unfolding claim
claim-earliest now jobs id j e = rw (e, claim) refl

run_due-step :
    (handlers : Handlers) (now : ℤ) (n : ℕ) (jobs : List Job) (id : ℕ) (j : Job)
    → earliest now jobs ≡ some (id, j)
    → run_due (suc n) handlers now jobs ≡ (
      (run_due n handlers now (set jobs id (ran_row handlers now j))).0,
      (run_due n handlers now (set jobs id (ran_row handlers now j))).1 + 1,
    )
unfolding run_due execute ran_row
run_due-step handlers now n jobs id j e =
    rw
      (
        claim-earliest now jobs id j e,
        run_due,
        claim-earliest now jobs id j e,
        execute,
        set-set jobs id,
      )
      refl

ran_row-IsSettled :
    (handlers : Handlers) (now : ℤ) (j : Job)
    → IsJob j
    → is_due now j ≡ true
    → IsSettled now (ran_row handlers now j)
unfolding ran_row
ran_row-IsSettled handlers now j h due =
    finish-IsSettled now (started j) (outcome handlers (started j))
      (omega arith, omega (arith, due_below now j h due)) h.few

-- With the clock at one time, as many rounds as there are due jobs drain the table of them: each runs
-- once, none is due at the end, and every row is within the attempts its status allows, where the
-- rows were so before.
pub run_due-drains :
    (handlers : Handlers) (now : ℤ) (n : ℕ) (jobs : List Job)
    → All IsJob jobs
    → due_count now jobs ≡ n
    → ((run_due n handlers now jobs).1 ≡ n)
      × (due_count now (run_due n handlers now jobs).0 ≡ 0)
      × All IsJob (run_due n handlers now jobs).0
run_due-drains handlers now zero jobs h e = unfold run_due in (refl, e, h)
run_due-drains handlers now (suc n) jobs h e =
    let found : Finds now jobs (earliest now jobs) = earliest-Finds now jobs h in
    elim (Option-cases (earliest now jobs)) [
      | inl idle ↦ absurd (omega (arith, rw idle at found))
      | inr ((id, j), some_job) ↦
          let f : IsFound now jobs id j = rw some_job at found in
          let settled = ran_row-IsSettled handlers now j f.is_job f.due in
          rw (run_due-step handlers now n jobs id j some_job) (
            let (ran, none_due, rows) =
              run_due-drains handlers now n (set jobs id (ran_row handlers now j))
                (f.rows _ settled.is_job)
                (omega (arith, f.count (ran_row handlers now j) settled.not_due)) in
            (omega (arith, ran), none_due, rows))
    ]
