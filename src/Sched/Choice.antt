-- ===== src/Sched/Choice.antt =====
-- Which process `get_mlq_proc` chooses, and what the other operations do to the waiting processes.
use native.Mathlib.Decide.{ℕ_discrete}
use hk232_assignment_os.Base.{
  ℕ, zero, suc, ◌+◌, ◌-◌, ◌≤◌, ◌<◌, ◌≡◌, ◌≢◌, ◌⊎◌, refl, sym, ap, ◌∙◌, true, false, ◌&&◌, ◌==◌, ltb,
  if◌then◌else◌, Option, none, some, List, [], ◌∷◌, ◌++◌, update, arith, Bool-cases, inl, inr,
  update_self, update_ne,
}
use hk232_assignment_os.Paging.{minus_one}
use hk232_assignment_os.Queue.{Queue, max_queue_size, empty, enqueue}
use hk232_assignment_os.Queue.Refine.{to_list, head, tail, to_list-enqueue, to_list-dequeue}
use hk232_assignment_os.Sched.{
  Sched, max_prio, exhausted, take_current, get_mlq_proc, put_mlq_proc, add_mlq_proc, some_ready,
  queue_empty,
}
use hk232_assignment_os.Sched.Scan.{at_prio, get_continues, get_restarts, get_finds_none}

module _ {ℓ} {A : Type ℓ} where
  -- The queue of one priority as a list.
  abbrev pub waiting : Sched A → ℕ → List (Option A)
  waiting s p = to_list (s.mlq_ready_queue p)

  -- The oldest process of priority `p` is handed out, and nothing else leaves or moves.
  abbrev pub Serves : Sched A → ℕ → Option A × Sched A → Type ℓ
  Serves s p r =
      (r.0 ≡ head (waiting s p))
      × (waiting r.1 p ≡ tail (waiting s p))
      × ((q : ℕ) → q ≢ p → waiting r.1 q ≡ waiting s q)
      × (r.1.curr_prio ≡ p)

  take_current-Serves : (s : Sched A) → Serves s s.curr_prio (take_current s)
  unfolding take_current
  take_current-Serves s =
      let l = to_list-dequeue (s.mlq_ready_queue s.curr_prio) in
      (
        l.0,
        ap to_list (update_self s.mlq_ready_queue s.curr_prio _) ∙ l.1,
        (λ q other. ap to_list (update_ne s.mlq_ready_queue s.curr_prio q _ (λ e. other (sym e)))),
        refl,
      )

  take_current_slots : (s : Sched A) → (take_current s).1.slot_left ≡ s.slot_left - 1
  unfolding take_current
  take_current_slots s = refl

  empty_iff : (q : Queue A) → empty q ≡ (q.size == 0)
  unfolding empty
  empty_iff q = refl

  -- While slots are left and the current queue holds a process, its oldest is handed out, one
  -- slot is used and no other queue changes.
  pub get_mlq_proc_continues :
      (s : Sched A)
      → 0 < s.slot_left
      → 0 < (s.mlq_ready_queue s.curr_prio).size
      → Serves s s.curr_prio (get_mlq_proc s) × ((get_mlq_proc s).1.slot_left + 1 ≡ s.slot_left)
  get_mlq_proc_continues s slots nonempty =
      let go : exhausted s ≡ false = ground (arith, empty_iff (s.mlq_ready_queue s.curr_prio)) in
      rw (get_continues s go) (take_current-Serves s, omega (arith, take_current_slots s))

  -- Once the slots are used up, or the current queue is empty, the scheduler starts again at
  -- priority 0: the oldest process of the least priority that holds one is handed out, one of its
  -- `140 - p` slots is used, and no other queue changes, whatever priority was current.
  pub get_mlq_proc_restarts :
      (s : Sched A) (p : ℕ)
      → (s.slot_left ≡ 0) ⊎ ((s.mlq_ready_queue s.curr_prio).size ≡ 0)
      → p < max_prio
      → ((q : ℕ) → q < p → (s.mlq_ready_queue q).size ≡ 0)
      → 0 < (s.mlq_ready_queue p).size
      → Serves s p (get_mlq_proc s) × ((get_mlq_proc s).1.slot_left + 1 ≡ max_prio - p)
  get_mlq_proc_restarts s p stop b before here =
      let out : exhausted s ≡ true = ground (arith, empty_iff (s.mlq_ready_queue s.curr_prio)) in
      let here' : empty (s.mlq_ready_queue p) ≡ false =
        ground (arith, empty_iff (s.mlq_ready_queue p)) in
      rw
        (get_restarts s p out b (λ q h. ground (arith, before q h, empty_iff (s.mlq_ready_queue q)))
          here')
        (take_current-Serves (at_prio s p), omega (arith, take_current_slots (at_prio s p)))

  -- With nothing waiting at any priority, and a current priority below 140, `get_mlq_proc`
  -- returns NULL, changes no queue and starts again at priority 0 with all slots.
  pub get_mlq_proc_idle :
      (s : Sched A)
      → s.curr_prio < max_prio
      → ((q : ℕ) → q < max_prio → (s.mlq_ready_queue q).size ≡ 0)
      → get_mlq_proc s ≡ (none, record s { curr_prio = 0; slot_left = max_prio })
  get_mlq_proc_idle s b idle =
      get_finds_none s (λ q h. ground (arith, idle q h, empty_iff (s.mlq_ready_queue q)))
        (ground (arith, idle s.curr_prio b, empty_iff (s.mlq_ready_queue s.curr_prio)))

  some_ready_none :
      (n i : ℕ) (qs : ℕ → Queue A)
      → ((q : ℕ) → q < i + n → (qs q).size ≡ 0)
      → some_ready n i qs ≡ false
  unfolding some_ready empty
  some_ready_none zero i qs idle = refl
  some_ready_none (suc n) i qs idle =
      let e : ((qs i).size == 0) ≡ true = ground (arith, idle i (omega arith)) in
      rw e (some_ready_none n (i + 1) qs (λ q h. idle q (omega arith)))

  some_ready_found :
      (n i p : ℕ) (qs : ℕ → Queue A)
      → i ≤ p
      → p < i + n
      → 0 < (qs p).size
      → some_ready n i qs ≡ true
  unfolding some_ready empty
  some_ready_found zero i p qs lo hi h = absurd (omega arith)
  some_ready_found (suc n) i p qs lo hi h = elim (ℕ_discrete i p) [
    | yes same ↦ let e : ((qs i).size == 0) ≡ false = rw same (ground arith) in rw e
    | no other ↦ elim (Bool-cases ((qs i).size == 0)) [
      | inl e ↦ rw e (some_ready_found n (i + 1) p qs (omega arith) (omega arith) h)
      | inr e ↦ rw e
    ]
  ]

  -- `queue_empty` with nothing waiting at any priority: 1 if the two unused queues are empty too,
  -- else 0.
  pub queue_empty_idle :
      (s : Sched A)
      → ((q : ℕ) → q < max_prio → (s.mlq_ready_queue q).size ≡ 0)
      → queue_empty s ≡ (if (s.ready_queue.size == 0) && (s.run_queue.size == 0) then 1 else 0)
  unfolding queue_empty empty
  queue_empty_idle s idle = rw (some_ready_none max_prio 0 s.mlq_ready_queue idle)

  -- `queue_empty` is -1 as soon as one priority has a process waiting.
  pub queue_empty_ready :
      (s : Sched A) (p : ℕ)
      → p < max_prio
      → 0 < (s.mlq_ready_queue p).size
      → queue_empty s ≡ minus_one
  unfolding queue_empty
  queue_empty_ready s p b h =
      rw (some_ready_found max_prio 0 p s.mlq_ready_queue (omega arith) (omega arith) h)

  module _ (prio : A → ℕ) where
    -- A process of a priority below 140 that is put back waits at the end of the queue of its own
    -- priority, if fewer than ten wait there; else it is dropped. The other queues, the current
    -- priority and the slots do not change.
    pub put_mlq_proc_appends :
        (s : Sched A) (x : A)
        → prio x < max_prio
        → (s' : Sched A) × (put_mlq_proc prio s x ≡ some s')
          × (waiting s' (prio x) ≡ (
              if ltb (s.mlq_ready_queue (prio x)).size max_queue_size
              then waiting s (prio x) ++ some x ∷ []
              else waiting s (prio x)))
          × ((q : ℕ) → q ≢ prio x → waiting s' q ≡ waiting s q)
          × (s'.curr_prio ≡ s.curr_prio)
          × (s'.slot_left ≡ s.slot_left)
    unfolding put_mlq_proc
    put_mlq_proc_appends s x h =
        let q' = enqueue (s.mlq_ready_queue (prio x)) (some x) in
        let ok : ltb (prio x) max_prio ≡ true = ground arith in
        rw ok (
          record s { mlq_ready_queue = update s.mlq_ready_queue (prio x) q' },
          refl,
          ap to_list (update_self s.mlq_ready_queue (prio x) q')
              ∙ to_list-enqueue (s.mlq_ready_queue (prio x)) (some x),
          (λ q other. ap to_list (update_ne s.mlq_ready_queue (prio x) q q' (λ e. other (sym e)))),
          refl,
          refl,
        )

    -- A priority of 140 or more is a write past the array of queues.
    pub put_mlq_proc_faults :
        (s : Sched A) (x : A)
        → max_prio ≤ prio x
        → (put_mlq_proc prio s x ≡ none) × (add_mlq_proc prio s x ≡ none)
    unfolding put_mlq_proc add_mlq_proc
    put_mlq_proc_faults s x h =
        let bad : ltb (prio x) max_prio ≡ false = ground arith in rw bad (refl, refl)
