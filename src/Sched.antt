-- ===== src/Sched.antt =====
-- src/sched.c, the multi-level queue scheduler. Each operation holds `queue_lock` throughout, so
-- it is one step on the scheduler's state.
pub mod Scan
pub mod Choice
pub mod Invariant
pub mod Ranked
mod Tests
use hk232_assignment_os.Base.{
  ℕ, zero, suc, ◌+◌, ◌-◌, ◌%◌, Bool, true, false, ◌&&◌, ◌||◌, ◌==◌, ltb, if◌then◌else◌, Option,
  none, some, update, ◌>>=◌, ◌>>◌, check,
}
use hk232_assignment_os.Paging.{minus_one}
use hk232_assignment_os.Queue.{Queue, empty, enqueue, dequeue}

abbrev pub max_prio : ℕ
max_prio = 140

-- The static variables of the file.
pub record Sched {ℓ} (A : Type ℓ) : Type ℓ where
  pub ready_queue : Queue A
  pub run_queue : Queue A
  pub mlq_ready_queue : ℕ → Queue A
  pub curr_prio : ℕ
  pub slot_left : ℕ

module _ {ℓ} {A : Type ℓ} where
  -- The loop of `queue_empty`: true if a queue from `prio` on holds a process.
  unfoldable pub some_ready : ℕ → ℕ → (ℕ → Queue A) → Bool
  some_ready zero prio qs = false
  some_ready (suc left) prio qs =
      let rest = some_ready left (prio + 1) qs in if empty (qs prio) then rest else true

  unfoldable pub queue_empty : Sched A → ℕ
  unfolding some_ready
  queue_empty s =
      if some_ready max_prio 0 s.mlq_ready_queue
      then minus_one
      else (if empty s.ready_queue && empty s.run_queue then 1 else 0)

  abbrev pub emptied : Queue A → Queue A
  emptied q = record q { size = 0 }

  unfoldable pub clear_from : ℕ → ℕ → (ℕ → Queue A) → ℕ → Queue A
  clear_from zero i qs = qs
  clear_from (suc left) i qs = clear_from left (i + 1) (update qs i (emptied (qs i)))

  unfoldable pub init_scheduler : Sched A → Sched A
  init_scheduler s = record s {
    mlq_ready_queue = clear_from max_prio 0 s.mlq_ready_queue;
    ready_queue = emptied s.ready_queue;
    run_queue = emptied s.run_queue;
  }

  -- The current queue cannot be served: its slots are used up or it is empty.
  abbrev pub exhausted : Sched A → Bool
  exhausted s = s.slot_left == 0 || empty (s.mlq_ready_queue s.curr_prio)

  unfoldable pub take_current : Sched A → Option A × Sched A
  take_current s =
      let (proc, q) = dequeue (s.mlq_ready_queue s.curr_prio) in
      (
        proc,
        record s {
          mlq_ready_queue = update s.mlq_ready_queue s.curr_prio q;
          slot_left = s.slot_left - 1;
        },
      )

  -- The `for` loop of `get_mlq_proc`, with its rounds left.
  unfoldable pub scan : ℕ → Sched A → Option A × Sched A
  unfolding take_current
  scan zero s = (none, s)
  scan (suc left) s =
      let next = (s.curr_prio + 1) % max_prio in
      let rest = scan left (record s { curr_prio = next; slot_left = max_prio - next }) in
      if exhausted s then rest else take_current s

  unfoldable pub get_mlq_proc : Sched A → Option A × Sched A
  get_mlq_proc s =
      scan max_prio
        (if exhausted s then record s { curr_prio = 0; slot_left = max_prio - 0 } else s)

  module _ (prio : A → ℕ) where
    -- `prio` reads the field of the process. A priority past the array's end is a fault.
    unfoldable pub put_mlq_proc : Sched A → A → Option (Sched A)
    put_mlq_proc s proc = do
      check (ltb (prio proc) max_prio)
      let q = enqueue (s.mlq_ready_queue (prio proc)) (some proc)
      some (record s { mlq_ready_queue = update s.mlq_ready_queue (prio proc) q })

    unfoldable pub add_mlq_proc : Sched A → A → Option (Sched A)
    add_mlq_proc s proc = do
      check (ltb (prio proc) max_prio)
      let q = enqueue (s.mlq_ready_queue (prio proc)) (some proc)
      some (record s { mlq_ready_queue = update s.mlq_ready_queue (prio proc) q })

    abbrev pub put_proc : Sched A → A → Option (Sched A)
    put_proc = put_mlq_proc

    abbrev pub add_proc : Sched A → A → Option (Sched A)
    add_proc = add_mlq_proc

  abbrev pub get_proc : Sched A → Option A × Sched A
  get_proc = get_mlq_proc
