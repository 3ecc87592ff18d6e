-- ===== src/Queue.antt =====
-- src/queue.c: an array of at most ten process pointers, oldest first. `none` is NULL. A queue is
-- handled by value, so the guard of `empty` against a null queue has no counterpart. `size` is
-- never negative.
pub mod Refine
pub mod Entries
mod Tests
use hk232_assignment_os.Base.{
  ℕ, zero, suc, ◌+◌, ◌-◌, Bool, ◌==◌, leb, if◌then◌else◌, Option, none, some, update,
}

abbrev pub max_queue_size : ℕ
max_queue_size = 10

-- `struct queue_t` of include/queue.h, over the type of the processes.
pub record Queue {ℓ} (A : Type ℓ) : Type ℓ where
  pub proc : ℕ → Option A
  pub size : ℕ

module _ {ℓ} {A : Type ℓ} where
  unfoldable pub empty : Queue A → Bool
  empty q = q.size == 0

  -- A full queue drops the process.
  unfoldable pub enqueue : Queue A → Option A → Queue A
  enqueue q p =
      if leb max_queue_size q.size
      then q
      else record q { size = q.size + 1; proc = update q.proc q.size p }

  -- The loop that moves the entries from `i + 1` on down by one, with its rounds left.
  unfoldable pub shift : ℕ → ℕ → (ℕ → Option A) → ℕ → Option A
  shift zero i f = f
  shift (suc left) i f = shift left (i + 1) (update f i (f (i + 1)))

  unfoldable pub dequeue : Queue A → Option A × Queue A
  unfolding empty shift
  dequeue q = if empty q then (none, q) else (
    q.proc 0,
    record q { proc = update (shift (q.size - 1) 0 q.proc) (q.size - 1) none; size = q.size - 1 },
  )
