-- ===== src/Sched/Ranked.antt =====
-- The priorities of the processes that wait, and of the one that `get_mlq_proc` hands out.
use hk232_assignment_os.Base.{
  ℕ, ◌+◌, ◌<◌, ◌≡◌, ◌⊎◌, inl, inr, refl, sym, ◌∙◌, true, false, Option, some, update, update_all,
  arith, Bool-cases,
}
use hk232_assignment_os.Queue.{Queue, empty, enqueue, dequeue}
use hk232_assignment_os.Queue.Entries.{dequeue_entry, dequeue_first, enqueue_entry}
use hk232_assignment_os.Sched.{Sched, max_prio, exhausted, take_current, get_mlq_proc}
use hk232_assignment_os.Sched.Scan.{
  at_prio, find-Least, least, no_ready, get_continues, get_restarts, get_cases,
}

module _ {ℓ} {A : Type ℓ} (prio : A → ℕ) where
  -- Every process waits in the queue of its own priority.
  abbrev pub AreRanked : (ℕ → Queue A) → Type ℓ
  AreRanked qs =
      (q i : ℕ) → q < max_prio → i < (qs q).size → (x : A) × ((qs q).proc i ≡ some x) × (prio x ≡ q)

  pub record IsRanked (s : Sched A) : Type ℓ where
    pub in_range : s.curr_prio < max_prio
    pub queues : AreRanked s.mlq_ready_queue

  dequeue-AreRanked :
      (qs : ℕ → Queue A) (q : ℕ) → AreRanked qs → AreRanked (update qs q (dequeue (qs q)).1)
  dequeue-AreRanked qs q h r i rb =
      update_all (λ r u. r < max_prio → i < u.size → (x : A) × (u.proc i ≡ some x) × (prio x ≡ r))
        qs q (dequeue (qs q)).1
        (λ rb' ib.
          let (ib', same) = dequeue_entry (qs q) i ib in
          let (x, ex, px) = h q (i + 1) rb' ib' in (x, same ∙ ex, px))
        (λ r' other rb' ib. h r' i rb' ib) r rb

  pub enqueue-AreRanked :
      (qs : ℕ → Queue A) (x : A)
      → AreRanked qs
      → AreRanked (update qs (prio x) (enqueue (qs (prio x)) (some x)))
  enqueue-AreRanked qs x h r i rb =
      update_all (λ r u. r < max_prio → i < u.size → (y : A) × (u.proc i ≡ some y) × (prio y ≡ r))
        qs (prio x) (enqueue (qs (prio x)) (some x))
        (λ rb' ib. elim (enqueue_entry (qs (prio x)) x i ib) [
          | inl old ↦ let (y, ey, py) = h (prio x) i rb' old.0 in (y, old.1 ∙ ey, py)
          | inr new ↦ (x, new.1, refl)
        ])
        (λ r' other rb' ib. h r' i rb' ib) r rb

  take_current-IsRanked : (s : Sched A) → IsRanked s → IsRanked (take_current s).1
  unfolding take_current
  take_current-IsRanked s h = record {
    in_range = h.in_range;
    queues = dequeue-AreRanked s.mlq_ready_queue s.curr_prio h.queues;
  }

  pub get-IsRanked : (s : Sched A) → IsRanked s → IsRanked (get_mlq_proc s).1
  get-IsRanked s h =
      get_cases (λ r. IsRanked r.1) s h.in_range (λ e. take_current-IsRanked s h)
        (λ p b e. take_current-IsRanked (at_prio s p) (record { in_range = b; queues = h.queues }))
        (record { in_range = omega arith; queues = h.queues })

  -- A process of the priority that is current afterwards is handed out: of the one that was
  -- current, or of the least that holds one.
  abbrev pub HandsOut : Sched A → Option A × Sched A → Type ℓ
  HandsOut s r =
      (x : A) × (r.0 ≡ some x)
      × (prio x ≡ r.1.curr_prio)
      × (prio x < max_prio)
      × ((prio x ≡ s.curr_prio) ⊎ ((q : ℕ) → q < prio x → (s.mlq_ready_queue q).size ≡ 0))

  take_current_lem :
      (s : Sched A)
      → IsRanked s
      → empty (s.mlq_ready_queue s.curr_prio) ≡ false
      → (x : A) × ((take_current s).0 ≡ some x)
        × (prio x ≡ s.curr_prio)
        × ((take_current s).1.curr_prio ≡ s.curr_prio)
  unfolding take_current
  take_current_lem s h e =
      let (nonempty, first) = dequeue_first (s.mlq_ready_queue s.curr_prio) e in
      let (x, ex, px) = h.queues s.curr_prio 0 h.in_range nonempty in (x, first ∙ ex, px, refl)

  size_empty : (q : Queue A) → empty q ≡ true → q.size ≡ 0
  unfolding empty
  size_empty q e = ground (arith, e)

  pub get-HandsOut :
      (s : Sched A) (p : ℕ)
      → IsRanked s
      → p < max_prio
      → 0 < (s.mlq_ready_queue p).size
      → HandsOut s (get_mlq_proc s)
  get-HandsOut s p h b holds = elim (Bool-cases (exhausted s)) [
    | inr e ↦
        let (x, ex, px, same) = take_current_lem s h (ground (arith, e)) in
        rw (get_continues s e) (x, ex, px ∙ sym same, omega (arith, px, h.in_range), inl px)
    | inl e ↦ elim (find-Least s.mlq_ready_queue max_prio) [
      | least q qb before here ↦
          let ranked : IsRanked (at_prio s q) = record { in_range = qb; queues = h.queues } in
          let (x, ex, px, same) = take_current_lem (at_prio s q) ranked here in
          rw (get_restarts s q e qb before here) (
            x,
            ex,
            px ∙ sym same,
            omega (arith, px, qb),
            inr (λ r rb. size_empty (s.mlq_ready_queue r) (before r (omega (arith, rb, px)))),
          )
      | no_ready none_left ↦
          absurd (omega (arith, holds, size_empty (s.mlq_ready_queue p) (none_left p b)))
    ]
  ]
