-- ===== src/Outbox/Life.antt =====
-- The life of one event of the outbox, as a step relation:
-- apps/worker-geodata/src/domains/outbox/outbox-dispatcher.ts, and the actions by which an
-- administrator retries or archives it, apps/admin/features/operations/ops-actions.ts.
use planisfy.Common.{
  ℕ, ◌+◌, ◌*◌, ◌≤◌, ◌<◌, String, Bool, true, false, none, List, [], ◌∷◌, ◌++◌, if◌then◌else◌, ◌≡◌,
  refl, inl, inr, arith, Bool-cases, ltb, leb, All,
}
use planisfy.Outbox.{
  EventStatus, pending, processing, failed, archived, OutboxEvent, is_pending, claim_row,
  complete_row, fail_row, max_attempts,
}

abbrev pub outbox_stale_ms : ℕ
outbox_stale_ms = 15 * 60 * 1000

-- FAILED, or PROCESSING and last updated before the cutoff.
abbrev pub is_stale_processing : (now : ℕ) → OutboxEvent → EventStatus → Bool
is_stale_processing now e processing = ltb (e.updated_at + outbox_stale_ms) now
is_stale_processing now e _ = false

abbrev pub is_retryable : (now : ℕ) → OutboxEvent → EventStatus → Bool
is_retryable now e failed = true
is_retryable now e s = is_stale_processing now e s

abbrev pub is_archivable : (now : ℕ) → OutboxEvent → EventStatus → Bool
is_archivable now e processing = is_stale_processing now e processing
is_archivable now e _ = true

-- The update of `retryOutboxEventAction`, which keeps the attempts.
unfoldable pub retry_row : (now : ℕ) → OutboxEvent → OutboxEvent
retry_row now e = record e {
  status = pending;
  process_at = now;
  last_error = none;
  updated_at = now;
}

-- The update of `archiveOutboxEventAction`.
unfoldable pub archive_row : (now : ℕ) → OutboxEvent → OutboxEvent
archive_row now e = record e { status = archived; updated_at = now }

-- A row of the table, the attempts that the workers hold which have claimed it and not settled it,
-- and how often it was retried. A claim takes any PENDING row, since only the query before it asks
-- for the time. A worker that stops keeps what it holds and never settles it; one that is slow settles
-- the row whatever it has become.
pub data Life : OutboxEvent → (held : List ℕ) → (retries : ℕ) → Type 0 where
  enqueued : (e : OutboxEvent) → e.status ≡ pending → e.attempts ≡ 0 → Life e [] 0
  claimed :
      (now : ℕ) (e : OutboxEvent) (held : List ℕ) (retries : ℕ)
      → e.status ≡ pending
      → Life e held retries
      → Life (claim_row now e) ((claim_row now e).attempts ∷ held) retries
  settled :
      (now : ℕ) (e : OutboxEvent) (before : List ℕ) (a : ℕ) (after : List ℕ) (retries : ℕ)
      → Life e (before ++ a ∷ after) retries
      → Life (complete_row now e) (before ++ after) retries
  thrown :
      (now : ℕ) (error : String) (e : OutboxEvent) (before : List ℕ) (a : ℕ) (after : List ℕ)
      (retries : ℕ)
      → Life e (before ++ a ∷ after) retries
      → Life (fail_row a error now e) (before ++ after) retries
  retried :
      (now : ℕ) (e : OutboxEvent) (held : List ℕ) (retries : ℕ)
      → is_retryable now e e.status ≡ true
      → Life e held retries
      → Life (retry_row now e) held (retries + 1)
  put_away :
      (now : ℕ) (e : OutboxEvent) (held : List ℕ) (retries : ℕ)
      → is_archivable now e e.status ≡ true
      → Life e held retries
      → Life (archive_row now e) held retries

-- One for an attempt whose failure puts the event back.
abbrev puts_back : ℕ → ℕ
puts_back a = if ltb a max_attempts then 1 else 0

abbrev low : List ℕ → ℕ
low [] = 0
low (a ∷ held) = puts_back a + low held

abbrev waiting : EventStatus → ℕ
waiting s = if is_pending s then 1 else 0

-- `back` counts the failures that put the event back.
record Counts (e : OutboxEvent) (held : List ℕ) (retries back : ℕ) : Type 0 where
  claims : e.attempts + waiting e.status ≤ 1 + retries + back
  backs : (back + low held < max_attempts) × (back + low held ≤ e.attempts)
  seen : All (λ a. a ≤ e.attempts) held
  dead : e.status ≡ failed → max_attempts ≤ e.attempts

low-remove :
    (before : List ℕ) (a : ℕ) (after : List ℕ)
    → low (before ++ a ∷ after) ≡ puts_back a + low (before ++ after)
low-remove [] a after = refl
low-remove (b ∷ before) a after = omega (arith, low-remove before a after)

All-remove :
    (n : ℕ) (before : List ℕ) (a : ℕ) (after : List ℕ)
    → All (λ x. x ≤ n) (before ++ a ∷ after)
    → (a ≤ n) × All (λ x. x ≤ n) (before ++ after)
All-remove n [] a after (h, k) = (h, k)
All-remove n (b ∷ before) a after (h, k) = let (l, r) = All-remove n before a after k in (l, (h, r))

All-higher : (n : ℕ) (held : List ℕ) → All (λ x. x ≤ n) held → All (λ x. x ≤ n + 1) held
All-higher n [] h = tt
All-higher n (a ∷ held) (h, k) = (omega arith, All-higher n held k)

claim_row-Counts :
    (now : ℕ) (e : OutboxEvent) (held : List ℕ) (retries back : ℕ)
    → e.status ≡ pending
    → Counts e held retries back
    → Counts (claim_row now e) ((claim_row now e).attempts ∷ held) retries back
unfolding claim_row
claim_row-Counts now e held retries back s h =
    let waits : waiting e.status ≡ 1 = rw s refl in
    record {
      claims = omega (arith, h.claims, waits);
      backs = elim (Bool-cases (ltb (e.attempts + 1) max_attempts)) [
        | inl t ↦
            let below : e.attempts + 1 < max_attempts = ground arith in
            rw t (omega (arith, h.backs.1, below), omega (arith, h.backs.1))
        | inr f ↦ rw f (omega (arith, h.backs.0), omega (arith, h.backs.1))
      ];
      seen = (omega arith, All-higher e.attempts held h.seen);
      dead = λ d. cc;
    }

complete_row-Counts :
    (now : ℕ) (e : OutboxEvent) (before : List ℕ) (a : ℕ) (after : List ℕ) (retries back : ℕ)
    → Counts e (before ++ a ∷ after) retries back
    → Counts (complete_row now e) (before ++ after) retries back
unfolding complete_row
complete_row-Counts now e before a after retries back h =
    let fewer = low-remove before a after in
    record {
      claims = omega (arith, h.claims);
      backs = (omega (arith, h.backs.0, fewer), omega (arith, h.backs.1, fewer));
      seen = (All-remove e.attempts before a after h.seen).1;
      dead = λ d. cc;
    }

fail_row-Counts :
    (now : ℕ) (error : String) (e : OutboxEvent) (before : List ℕ) (a : ℕ) (after : List ℕ)
    (retries back : ℕ)
    → Counts e (before ++ a ∷ after) retries back
    → (back' : ℕ) × Counts (fail_row a error now e) (before ++ after) retries back'
unfolding fail_row
fail_row-Counts now error e before a after retries back h =
    let (mine, others) = All-remove e.attempts before a after h.seen in
    let fewer = low-remove before a after in
    elim (Bool-cases (leb max_attempts a)) [
      | inl t ↦
          let last : max_attempts ≤ a = ground arith in
          (
            back,
            record {
              claims = rw t (omega (arith, h.claims));
              backs = (omega (arith, h.backs.0, fewer), omega (arith, h.backs.1, fewer));
              seen = others;
              dead = λ d. omega (arith, last, mine);
            },
          )
      | inr f ↦
          let one : puts_back a ≡ 1 = ground arith in
          (
            back + 1,
            record {
              claims = rw f (omega (arith, h.claims));
              backs = (omega (arith, h.backs.0, fewer, one), omega (arith, h.backs.1, fewer, one));
              seen = others;
              dead = λ d. cc (rw f at d);
            },
          )
    ]

Life-Counts :
    (e : OutboxEvent) (held : List ℕ) (retries : ℕ)
    → Life e held retries
    → (back : ℕ) × Counts e held retries back
unfolding retry_row archive_row
Life-Counts _ _ _ (enqueued e s n) = (
  0,
  record {
    claims = rw (s, n) (omega arith);
    backs = (omega arith, omega arith);
    seen = tt;
    dead = λ d. cc;
  },
)
Life-Counts _ _ _ (claimed now e held retries s life) =
    let (back, h) = Life-Counts e held retries life in
    (back, claim_row-Counts now e held retries back s h)
Life-Counts _ _ _ (settled now e before a after retries life) =
    let (back, h) = Life-Counts e (before ++ a ∷ after) retries life in
    (back, complete_row-Counts now e before a after retries back h)
Life-Counts _ _ _ (thrown now error e before a after retries life) =
    let (back, h) = Life-Counts e (before ++ a ∷ after) retries life in
    fail_row-Counts now error e before a after retries back h
Life-Counts _ _ _ (retried now e held retries r life) =
    let (back, h) = Life-Counts e held retries life in
    (
      back,
      record { claims = omega (arith, h.claims); backs = h.backs; seen = h.seen; dead = λ d. cc },
    )
Life-Counts _ _ _ (put_away now e held retries r life) =
    let (back, h) = Life-Counts e held retries life in
    (
      back,
      record { claims = omega (arith, h.claims); backs = h.backs; seen = h.seen; dead = λ d. cc },
    )

-- What a row may be.
pub record IsBounded (e : OutboxEvent) (retries : ℕ) : Type 0 where
  pub at_most : e.attempts ≤ 5 + retries
  pub room : e.status ≡ pending → e.attempts < 5 + retries
  pub spent : e.status ≡ failed → 5 ≤ e.attempts

-- However its claims, successes, failures, retries and archivings are mixed, also with workers that
-- are slow or stop, an event is tried at most five times and once more for each retry by an
-- administrator; it waits only with fewer attempts than that, and is FAILED only with at least five.
pub Life-IsBounded :
    (e : OutboxEvent) (held : List ℕ) (retries : ℕ) → Life e held retries → IsBounded e retries
Life-IsBounded e held retries life =
    let (back, h) = Life-Counts e held retries life in
    record {
      at_most = omega (arith, h.claims, h.backs.0);
      room = λ s.
          let waits : waiting e.status ≡ 1 = rw s refl in omega (arith, h.claims, h.backs.0, waits);
      spent = h.dead;
    }
