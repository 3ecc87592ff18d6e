-- ===== src/Sched/Invariant.antt =====
-- The scheduler's invariant, and that every operation keeps it.
use hk232_assignment_os.Base.{
  ℕ, zero, suc, ◌+◌, ◌≤◌, ◌<◌, ◌≡◌, refl, ap, true, ◌&&◌, ◌==◌, ltb, leb, if◌then◌else◌, Option,
  none, some, update, arith, Bool-cases, inl, inr,
}
use hk232_assignment_os.Queue.{Queue, max_queue_size, enqueue, dequeue}
use hk232_assignment_os.Sched.{
  Sched, max_prio, take_current, get_mlq_proc, put_mlq_proc, init_scheduler, clear_from, emptied,
}
use hk232_assignment_os.Sched.Choice.{get_mlq_proc_idle}
use hk232_assignment_os.Sched.Scan.{at_prio, get_cases}

module _ {ℓ} {A : Type ℓ} where
  -- The current priority is an index of the array, at most `140 - curr_prio` slots are left, and
  -- no queue is longer than its array.
  pub record IsValid (s : Sched A) : Type ℓ where
    pub in_range : s.curr_prio < max_prio
    pub slots : s.slot_left + s.curr_prio ≤ max_prio
    pub sizes : (q : ℕ) → q < max_prio → (s.mlq_ready_queue q).size ≤ max_queue_size

  size-dequeue : (q : Queue A) → (dequeue q).1.size ≤ q.size
  unfolding dequeue
  size-dequeue q = elim (Bool-cases (q.size == 0)) [
    | inl e ↦ rw e (omega arith)
    | inr e ↦ rw e (omega arith)
  ]

  size-enqueue :
      (q : Queue A) (p : Option A) → q.size ≤ max_queue_size → (enqueue q p).size ≤ max_queue_size
  unfolding enqueue
  size-enqueue q p h = elim (Bool-cases (leb max_queue_size q.size)) [
    | inl e ↦ rw e h
    | inr e ↦ rw e (ground arith)
  ]

  update_sizes :
      (qs : ℕ → Queue A) (p : ℕ) (q' : Queue A)
      → ((q : ℕ) → q < max_prio → (qs q).size ≤ max_queue_size)
      → q'.size ≤ max_queue_size
      → (q : ℕ) → q < max_prio
      → (update qs p q' q).size ≤ max_queue_size
  update_sizes qs p q' h h' q b = elim (Bool-cases (p == q)) [
    | inl e ↦ rw e h'
    | inr e ↦ rw e (h q b)
  ]

  take_current-IsValid : (s : Sched A) → IsValid s → IsValid (take_current s).1
  unfolding take_current
  take_current-IsValid s v = record {
    in_range = v.in_range;
    slots = omega (arith, v.slots);
    sizes =
        update_sizes s.mlq_ready_queue s.curr_prio (dequeue (s.mlq_ready_queue s.curr_prio)).1
          v.sizes
          (omega
            (arith, v.sizes s.curr_prio v.in_range, size-dequeue (s.mlq_ready_queue s.curr_prio)));
  }

  at_prio-IsValid : (s : Sched A) (p : ℕ) → p < max_prio → IsValid s → IsValid (at_prio s p)
  at_prio-IsValid s p h v = record { in_range = h; slots = omega arith; sizes = v.sizes }

  -- Choosing a process keeps the scheduler's invariant, on every path of the search.
  pub get_mlq_proc-IsValid : (s : Sched A) → IsValid s → IsValid (get_mlq_proc s).1
  get_mlq_proc-IsValid s v =
      get_cases (λ r. IsValid r.1) s v.in_range (λ _. take_current-IsValid s v)
        (λ p h _. take_current-IsValid (at_prio s p) (at_prio-IsValid s p h v))
        (at_prio-IsValid s 0 (omega arith) v)

  -- Putting back a process of a priority below 140 succeeds and keeps the invariant.
  pub put_mlq_proc-IsValid :
      (prio : A → ℕ) (s : Sched A) (x : A)
      → IsValid s
      → prio x < max_prio
      → (s' : Sched A) × (put_mlq_proc prio s x ≡ some s') × IsValid s'
  unfolding put_mlq_proc
  put_mlq_proc-IsValid prio s x v h =
      let q' = enqueue (s.mlq_ready_queue (prio x)) (some x) in
      let ok : ltb (prio x) max_prio ≡ true = ground arith in
      rw ok (
        record s { mlq_ready_queue = update s.mlq_ready_queue (prio x) q' },
        refl,
        record {
          in_range = v.in_range;
          slots = v.slots;
          sizes =
              update_sizes s.mlq_ready_queue (prio x) q' v.sizes
                (size-enqueue (s.mlq_ready_queue (prio x)) (some x) (v.sizes (prio x) h));
        },
      )

  size-clear_from :
      (n i q : ℕ) (qs : ℕ → Queue A)
      → (clear_from n i qs q).size ≡ (if leb i q && ltb q (i + n) then 0 else (qs q).size)
  unfolding clear_from
  size-clear_from zero i q qs = ground arith
  size-clear_from (suc n) i q qs =
      ground (arith, size-clear_from n (i + 1) q (update qs i (emptied (qs i))))

  pub cleared : (q : ℕ) (qs : ℕ → Queue A) → q < max_prio → (clear_from max_prio 0 qs q).size ≡ 0
  cleared q qs h = ground (arith, size-clear_from max_prio 0 q qs)

  -- `init_scheduler`, on the initial values of the static variables, gives a state that satisfies
  -- the invariant and has no process to hand out.
  pub init_scheduler_lem :
      (s : Sched A)
      → s.curr_prio ≡ 0
      → s.slot_left ≡ max_prio
      → IsValid (init_scheduler s) × ((get_mlq_proc (init_scheduler s)).0 ≡ none)
  unfolding init_scheduler
  init_scheduler_lem s c l = (
    record {
      in_range = omega arith;
      slots = omega arith;
      sizes = λ q h. omega (arith, cleared q s.mlq_ready_queue h);
    },
    ap (λ r. r.0)
        (get_mlq_proc_idle (init_scheduler s) (omega arith) (λ q h. cleared q s.mlq_ready_queue h)),
  )
