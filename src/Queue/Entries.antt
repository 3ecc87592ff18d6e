-- ===== src/Queue/Entries.antt =====
-- Where the entries of a queue come from once a process has left or joined it.
use native.Mathlib.Decide.{ℕ_discrete}
use hk232_assignment_os.Base.{
  ℕ, ◌+◌, ◌-◌, ◌<◌, ◌≡◌, ◌⊎◌, inl, inr, false, leb, some, arith, Bool-cases,
}
use hk232_assignment_os.Queue.{Queue, max_queue_size, empty, enqueue, dequeue}
use hk232_assignment_os.Queue.Refine.{shift_lem}

module _ {ℓ} {A : Type ℓ} where
  pub dequeue_entry :
      (q : Queue A) (i : ℕ)
      → i < (dequeue q).1.size
      → (i + 1 < q.size) × ((dequeue q).1.proc i ≡ q.proc (i + 1))
  unfolding dequeue
  dequeue_entry q i b = ground (arith, b, shift_lem (q.size - 1) 0 i q.proc)

  pub dequeue_first : (q : Queue A) → empty q ≡ false → (0 < q.size) × ((dequeue q).0 ≡ q.proc 0)
  unfolding dequeue
  dequeue_first q e = ground (arith, e)

  pub enqueue_entry :
      (q : Queue A) (p : A) (i : ℕ)
      → i < (enqueue q (some p)).size
      → ((i < q.size) × ((enqueue q (some p)).proc i ≡ q.proc i))
        ⊎ ((i ≡ q.size)
            × ((enqueue q (some p)).proc i ≡ some p)
            × ((enqueue q (some p)).size ≡ q.size + 1))
  unfolding enqueue
  enqueue_entry q p i b = elim (Bool-cases (leb max_queue_size q.size)) [
    | inl full ↦ inl (ground (arith, b, full))
    | inr room ↦ elim (ℕ_discrete i q.size) [
      | yes last ↦ inr (last, ground (arith, last, room), ground (arith, room))
      | no before ↦ inl (ground (arith, b, before, room))
    ]
  ]
