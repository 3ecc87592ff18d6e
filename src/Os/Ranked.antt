-- ===== src/Os/Ranked.antt =====
-- In every run of the program, every process waits in the queue of its own priority.
use mathlib.Core.Option.{some-injective}
use hk232_assignment_os.Base.{
  ℕ, ◌<◌, ◌≡◌, ◌⊎◌, inl, inr, refl, sym, ap, ◌==◌, ltb, some, update, subst, length, arith,
  Bool-cases, Option-cases, >>=-eq-some,
}
use hk232_assignment_os.Pcb.{Pcb}
use hk232_assignment_os.Mm.{init_mm}
use hk232_assignment_os.Queue.{enqueue}
use hk232_assignment_os.Sched.{
  Sched, max_prio, init_scheduler, get_mlq_proc, put_mlq_proc, add_mlq_proc, get_proc,
}
use hk232_assignment_os.Sched.Invariant.{cleared}
use hk232_assignment_os.Sched.Ranked.{IsRanked, enqueue-AreRanked, get-IsRanked, get-HandsOut}
use hk232_assignment_os.Loader.{returns, exits, faults, load}
use hk232_assignment_os.Memphy.{init_memphy}
use hk232_assignment_os.Os.{
  Shared, Cpu, Spot, top, fetch, recheck, Ld, LdSpot, loading, await, adding, Config, System,
  cpu_routine, cpu_at, cpu_top, cpu_fetch, cpu_recheck, run_shared, ld_routine, ld_at, ld_loading,
  ld_adding, Step, Reach, here, later, tick, cpu_runs, cpu_arrives, cpu_resumes, cpu_leaves,
  ld_runs, ld_arrives, ld_resumes, ld_leaves, stops,
}
use hk232_assignment_os.Os.Boot.{Raw, main, init_swaps, max_mmswp, first_device}
use hk232_assignment_os.Os.Placed.Moves.{put_lem, add_lem, run_shared_lem}

abbrev rank : Pcb → ℕ
rank p = p.prio

-- A scheduler whose queue of the priority of `p` has got `p`.
joined :
    (s s' : Sched Pcb) (p : Pcb)
    → IsRanked rank s
    → (s'.mlq_ready_queue
        ≡ update s.mlq_ready_queue p.prio (enqueue (s.mlq_ready_queue p.prio) (some p)))
      × (s'.curr_prio ≡ s.curr_prio)
    → IsRanked rank s'
joined s s' p h e = record {
  in_range = rw e.1 h.in_range;
  queues = rw e.0 (enqueue-AreRanked rank s.mlq_ready_queue p h.queues);
}

module _ (s s' : Shared) (h : IsRanked rank s.sched) where
  same_ranks : s'.sched ≡ s.sched → IsRanked rank s'.sched
  same_ranks e = rw e h

  taken_ranks : s'.sched ≡ (get_mlq_proc s.sched).1 → IsRanked rank s'.sched
  taken_ranks e = rw e (get-IsRanked rank s.sched h)

module _ (s s' : Shared) (k k' : Cpu) (h : IsRanked rank s.sched) where
  top_ranks : cpu_top s k ≡ some (s', k') → IsRanked rank s'.sched
  unfolding cpu_top
  top_ranks e = elim (Option-cases k.proc) [
    | inl n ↦ taken_ranks s s' h (ground (arith, e, n))
    | inr x ↦
        let (p, holds) = x in
        elim (Bool-cases (p.pc == length p.code)) [
          | inl done ↦ same_ranks s s' h (ground (arith, e, holds, done))
          | inr more ↦ elim (Bool-cases (k.time_left == 0)) [
            | inl over ↦
                let put : put_mlq_proc rank s.sched p ≡ some s'.sched =
                  ground (arith, e, holds, more, over) in
                joined s.sched s'.sched p h (put_lem s.sched s'.sched p put)
            | inr left ↦ same_ranks s s' h (ground (arith, e, holds, more, left))
          ]
        ]
  ]

  fetch_ranks : cpu_fetch s k ≡ some (s', k') → IsRanked rank s'.sched
  unfolding cpu_fetch
  fetch_ranks e = taken_ranks s s' h (ground (arith, e))

  recheck_ranks :
      (time_slot : ℕ) → cpu_recheck time_slot s k ≡ some (s', k') → IsRanked rank s'.sched
  unfolding cpu_recheck
  recheck_ranks time_slot e = elim (Option-cases k.proc) [
    | inl n ↦ same_ranks s s' h (ground (arith, e, n))
    | inr x ↦
        let (p, holds) = x in
        elim (Option-cases (run_shared s p)) [
          | inl bad ↦ ground (arith, e, holds, bad)
          | inr ran ↦
              let (r, er) = ran in
              let (same, _, _) = run_shared_lem s p r er in
              same_ranks s s' h (ground (arith, e, holds, er, same))
        ]
  ]

  cpu_ranks :
      (at : Spot) (time_slot : ℕ) → cpu_at at time_slot s k ≡ some (s', k') → IsRanked rank s'.sched
  unfolding cpu_at
  cpu_ranks top time_slot e = top_ranks e
  cpu_ranks fetch time_slot e = fetch_ranks e
  cpu_ranks recheck time_slot e = recheck_ranks time_slot e

module _ (config : Config) where
  module _ (s s' : Shared) (l l' : Ld) (h : IsRanked rank s.sched) where
    loading_ranks : ld_loading config s l ≡ some (s', l') → IsRanked rank s'.sched
    unfolding ld_loading
    loading_ranks e = elim (Bool-cases (ltb l.i config.num_processes)) [
      | inr over ↦ same_ranks s s' h (ground (arith, e, over))
      | inl more ↦
          elim (load config.stdio s.avail_pid (config.blocks l.i) (config.path l.i))
              as (λ o.
                load config.stdio s.avail_pid (config.blocks l.i) (config.path l.i) ≡ o
                → IsRanked rank s'.sched) [
                  | returns r ↦ λ q. same_ranks s s' h (ground (arith, e, more, q))
                  | exits n ↦ λ q. ground (arith, e, more, q)
                  | faults ↦ λ q. ground (arith, e, more, q)
                ]
            refl
    ]

    adding_ranks : ld_adding config s l ≡ some (s', l') → IsRanked rank s'.sched
    unfolding ld_adding
    adding_ranks e = elim (Option-cases l.proc) [
      | inl n ↦ ground (arith, e, n)
      | inr x ↦
          let (p, holds) = x in
          let ready = record p {
            mm = init_mm (config.raw_mm l.i) (config.raw_vma l.i) (config.raw_pgd l.i);
            mram = s.mram;
            active_mswp = s.active_mswp;
          } in
          let added : add_mlq_proc rank s.sched ready ≡ some s'.sched = ground (arith, e, holds) in
          joined s.sched s'.sched ready h (add_lem s.sched s'.sched ready added)
    ]

    ld_ranks :
        (at : LdSpot) (time : ℕ) → ld_at config at time s l ≡ some (s', l') → IsRanked rank s'.sched
    unfolding ld_at
    ld_ranks loading time e = loading_ranks e
    ld_ranks await time e = same_ranks s s' h (ap (λ r. r.0.sched) (sym (some-injective _ _ e)))
    ld_ranks adding time e = adding_ranks e

  abbrev pub Ranked : System → Type 0
  Ranked w = IsRanked rank w.shared.sched

  Step-Ranked : {w w' : System} → Step config w w' → Ranked w → Ranked w'
  unfolding cpu_routine ld_routine
  Step-Ranked (tick e) h = h
  Step-Ranked {w} (cpu_runs c {s} {k} b inn e) h =
      cpu_ranks w.shared s (w.cpu c) k h (w.cpu c).spot config.time_slot e
  Step-Ranked (cpu_arrives c b at) h = h
  Step-Ranked (cpu_resumes c b at free) h = h
  Step-Ranked (cpu_leaves c b at) h = h
  Step-Ranked {w} (ld_runs {s} {k} inn e) h = ld_ranks w.shared s w.ld k h w.ld.spot _ e
  Step-Ranked (ld_arrives at) h = h
  Step-Ranked (ld_resumes at free) h = h
  Step-Ranked (ld_leaves at) h = h
  Step-Ranked (stops a b) h = h

  Reach-Ranked : {w w' : System} → Reach config w w' → Ranked w → Ranked w'
  Reach-Ranked here h = h
  Reach-Ranked (later r s) h = Step-Ranked s (Reach-Ranked r h)

  main-Ranked :
      (sched : Sched Pcb) (tlb ram : Raw) (swaps : ℕ → Raw) {w : System}
      → sched.curr_prio ≡ 0
      → main config sched tlb ram swaps ≡ some w
      → Ranked w
  unfolding main init_scheduler
  main-Ranked sched tlb ram swaps {w} first e =
      let (mram, e0, h0) =
        >>=-eq-some (init_memphy ram.device ram.storage ram.garbage config.memramsz 1) _ e in
      let (mswp, e1, h1) = >>=-eq-some (init_swaps max_mmswp 0 config.memswpsz swaps) _ h0 in
      let (active, e2, h2) = >>=-eq-some (first_device mswp) _ h1 in
      subst Ranked (some-injective _ _ h2) (record {
        in_range = rw first (omega arith);
        queues = λ q i qb ib. absurd (omega (arith, cleared q sched.mlq_ready_queue qb));
      })

  -- In every state of every run of the program that `main` starts, with the scheduler's current
  -- priority 0 at the start: if a process waits at any priority, `get_proc` hands out a process and
  -- not NULL. Its priority is below 140 and is the current one afterwards; it was the current
  -- one before, or no process of a higher priority, which is a lower number, waits.
  pub work_conserving :
      (sched : Sched Pcb) (tlb ram : Raw) (swaps : ℕ → Raw) {w w' : System} (p : ℕ)
      → sched.curr_prio ≡ 0
      → main config sched tlb ram swaps ≡ some w
      → Reach config w w'
      → p < max_prio
      → 0 < (w'.shared.sched.mlq_ready_queue p).size
      → (x : Pcb) × ((get_proc w'.shared.sched).0 ≡ some x)
        × (x.prio ≡ (get_proc w'.shared.sched).1.curr_prio)
        × (x.prio < max_prio)
        × ((x.prio ≡ w'.shared.sched.curr_prio)
            ⊎ ((q : ℕ) → q < x.prio → (w'.shared.sched.mlq_ready_queue q).size ≡ 0))
  work_conserving sched tlb ram swaps {w} {w'} p first started run b waits =
      get-HandsOut rank w'.shared.sched p
        (Reach-Ranked run (main-Ranked sched tlb ram swaps first started)) b waits
