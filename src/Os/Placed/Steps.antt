-- ===== src/Os/Placed/Steps.antt =====
-- In every run of the program, every process is at one place.
use mathlib.Core.Option.{some-injective}
use hk232_assignment_os.Base.{
  ℕ, ◌+◌, ◌%◌, ◌^◌, ◌<◌, ◌≡◌, ◌≢◌, inl, inr, refl, sym, ap, ◌∙◌, ltb, some, update, update_all,
  subst, arith, Bool-cases, Option-cases, >>=-eq-some,
}
use hk232_assignment_os.Pcb.{Pcb}
use hk232_assignment_os.Mm.{init_mm}
use hk232_assignment_os.Sched.{Sched, max_prio, init_scheduler}
use hk232_assignment_os.Sched.Invariant.{cleared}
use hk232_assignment_os.Loader.{returns, exits, faults, load}
use hk232_assignment_os.Os.{
  Shared, Phase, inside, waiting, stopped, LdSpot, loading, await, adding, Ld, Config, System,
  cpu_routine, ld_loading, ld_await, ld_adding, ld_at, ld_routine, Step, Reach, here, later, tick,
  cpu_runs, cpu_arrives, cpu_resumes, cpu_leaves, ld_runs, ld_arrives, ld_resumes, ld_leaves, stops,
}
use hk232_assignment_os.Memphy.{init_memphy}
use hk232_assignment_os.Os.Boot.{Raw, main, init_swaps, max_mmswp, first_device}
use hk232_assignment_os.Os.Placed.{Location, unused, IsPlaced, held, queued}
use hk232_assignment_os.Os.Placed.Moves.{step_at}
use hk232_assignment_os.Os.Placed.Everywhere.{same_places, cpu_moves, loads_new, adds, load_pid}

module _ (config : Config) (few : config.num_processes + 1 < 2 ^ 32) where
  -- Some places fit the state.
  abbrev pub Placed : System → Type 0
  Placed w = (loc : ℕ → Location) × IsPlaced config w loc

  ld_loads :
      {w : System} (s : Shared) (k : Ld)
      → Placed w
      → w.ld.spot ≡ loading
      → ld_loading config w.shared w.ld ≡ some (s, k)
      → Placed (record w { shared = s; ld = k })
  unfolding ld_loading
  ld_loads {w} s k h at e = elim (Bool-cases (ltb w.ld.i config.num_processes)) [
    | inr over ↦ (
      h.0,
      same_places config few h.1 (ground (arith, e, over)) (ground (arith, e, over)) (λ c. refl)
          (ground (arith, e, over)) (ground (arith, e, over)) (ground (arith, e, over)),
    )
    | inl more ↦
        elim (load config.stdio w.shared.avail_pid (config.blocks w.ld.i) (config.path w.ld.i))
            as (λ o.
              load config.stdio w.shared.avail_pid (config.blocks w.ld.i) (config.path w.ld.i) ≡ o
              → Placed (record w { shared = s; ld = k })) [
                | returns r ↦ λ q.
                    let (pid, next) = load_pid config few w.ld w.shared.avail_pid r q in
                    loads_new config few s k
                      (record r.0 { tlb = w.shared.tlb; prio = config.prio w.ld.i % 2 ^ 32 }) h.1 at
                      (ground (arith, more)) (ground (arith, e, more, q))
                      (ground (arith, e, more, q, next)) (ground (arith, e, more, q)) pid
                      (ground (arith, e, more, q)) (ground (arith, e, more, q))
                | exits n ↦ λ q. ground (arith, e, more, q)
                | faults ↦ λ q. ground (arith, e, more, q)
              ]
          refl
  ]

  ld_awaits :
      {w : System} (time : ℕ)
      → Placed w
      → w.ld.spot ≡ await
      → Placed (record w { ld = ld_await config time w.ld })
  unfolding ld_await
  ld_awaits {w} time h at = (
    h.0,
    same_places config few h.1 refl refl (λ c. refl) (ground (arith, at)) (ground (arith, at))
        (ground (arith, at)),
  )

  ld_adds :
      {w : System} (s : Shared) (k : Ld)
      → Placed w
      → w.ld.spot ≡ adding
      → ld_adding config w.shared w.ld ≡ some (s, k)
      → Placed (record w { shared = s; ld = k })
  unfolding ld_adding
  ld_adds {w} s k h at e = elim (Option-cases w.ld.proc) [
    | inl n ↦ ground (arith, e, n)
    | inr x ↦
        let (p, holds) = x in
        let ready = record p {
          mm = init_mm (config.raw_mm w.ld.i) (config.raw_vma w.ld.i) (config.raw_pgd w.ld.i);
          mram = w.shared.mram;
          active_mswp = w.shared.active_mswp;
        } in
        adds config few s k p ready h.1 at holds refl (ground (arith, e, holds))
          (ground (arith, e, holds)) (ground (arith, e, holds)) (ground (arith, e, holds))
          (ground (arith, e, holds))
  ]

  ld_moves :
      {w : System} (at : LdSpot) (time : ℕ) (s : Shared) (k : Ld)
      → Placed w
      → w.ld.spot ≡ at
      → ld_at config at time w.shared w.ld ≡ some (s, k)
      → Placed (record w { shared = s; ld = k })
  unfolding ld_at
  ld_moves loading time s k h at e = ld_loads s k h at e
  ld_moves {w} await time s k h at e =
      let same = some-injective _ _ e in
      subst (λ r. Placed (record w { shared = r.0; ld = r.1 })) same (ld_awaits time h at)
  ld_moves adding time s k h at e = ld_adds s k h at e

  phase_moves :
      {w w' : System}
      → Placed w
      → w'.shared ≡ w.shared
      → ((c : ℕ) → (w'.cpu c).proc ≡ (w.cpu c).proc)
      → (w'.ld.proc ≡ w.ld.proc) × (w'.ld.i ≡ w.ld.i) × (w'.ld.spot ≡ w.ld.spot)
      → Placed w'
  phase_moves h s c l = (
    h.0,
    same_places config few h.1 (ap (λ x. x.sched) s) (ap (λ x. x.avail_pid) s) c l.0 l.1
        (ap held l.2),
  )

  same_proc :
      (w : System) (c : ℕ) (ph : Phase) (d : ℕ)
      → (update w.cpu c (record (w.cpu c) { phase = ph }) d).proc ≡ (w.cpu d).proc
  same_proc w c ph d =
      update_all (λ d u. u.proc ≡ (w.cpu d).proc) w.cpu c (record (w.cpu c) { phase = ph }) refl
        (λ k other. refl) d

  Step-Placed : {w w' : System} → Step config w w' → Placed w → Placed w'
  unfolding cpu_routine ld_routine
  Step-Placed (tick e) h = phase_moves h refl (λ c. refl) (refl, refl, refl)
  Step-Placed {w} (cpu_runs c {s} {k} b inn e) h = cpu_moves config few c s k h.1 (
      step_at h.0 c w.shared s (w.cpu c) k h.1.in_range h.1.queues (h.1.cpus c b) (w.cpu c).spot
        config.time_slot e)
  Step-Placed {w} (cpu_arrives c b at) h =
      phase_moves h refl (same_proc w c waiting) (refl, refl, refl)
  Step-Placed {w} (cpu_resumes c b at free) h =
      phase_moves h refl (same_proc w c inside) (refl, refl, refl)
  Step-Placed {w} (cpu_leaves c b at) h =
      phase_moves h refl (same_proc w c stopped) (refl, refl, refl)
  Step-Placed {w} (ld_runs {s} {k} inn e) h = ld_moves w.ld.spot _ s k h refl e
  Step-Placed (ld_arrives at) h = phase_moves h refl (λ c. refl) (refl, refl, refl)
  Step-Placed (ld_resumes at free) h = phase_moves h refl (λ c. refl) (refl, refl, refl)
  Step-Placed (ld_leaves at) h = phase_moves h refl (λ c. refl) (refl, refl, refl)
  Step-Placed (stops a b) h = phase_moves h refl (λ c. refl) (refl, refl, refl)

  Reach-Placed : {w w' : System} → Reach config w w' → Placed w → Placed w'
  Reach-Placed here h = h
  Reach-Placed (later r s) h = Step-Placed s (Reach-Placed r h)

  -- The program starts without a process.
  main-Placed :
      (sched : Sched Pcb) (tlb ram : Raw) (swaps : ℕ → Raw) {w : System}
      → sched.curr_prio ≡ 0
      → main config sched tlb ram swaps ≡ some w
      → Placed w
  unfolding main init_scheduler
  main-Placed sched tlb ram swaps {w} first e =
      let (mram, e0, h0) =
        >>=-eq-some (init_memphy ram.device ram.storage ram.garbage config.memramsz 1) _ e in
      let (mswp, e1, h1) = >>=-eq-some (init_swaps max_mmswp 0 config.memswpsz swaps) _ h0 in
      let (active, e2, h2) = >>=-eq-some (first_device mswp) _ h1 in
      subst Placed (some-injective _ _ h2) (
        (λ d. unused),
        record {
          in_range = rw first (omega arith);
          queues = λ q i qb ib. absurd (omega (arith, cleared q sched.mlq_ready_queue qb));
          cpus = λ c b p g. cc;
          loader = λ p g. cc;
          next_pid = refl;
          loads = omega arith;
          fresh = λ d b. refl;
        },
      )

  entry_place :
      {w : System} {loc : ℕ → Location}
      → IsPlaced config w loc
      → (q i : ℕ) (r : Pcb) → q < max_prio
      → i < (w.shared.sched.mlq_ready_queue q).size
      → (w.shared.sched.mlq_ready_queue q).proc i ≡ some r
      → loc r.pid ≡ queued q i
  entry_place {loc} h q i r qb ib at =
      let (x, ex, lx) = h.queues q i qb ib in
      ap (λ y. loc y.pid) (some-injective _ _ (sym at ∙ ex)) ∙ lx

  -- In every run of the program that `main` starts, two different CPUs that hold processes hold
  -- processes of different numbers. The scheduler's current priority starts at 0, and the number of
  -- processes plus one is below 2 ^ 32, where the process numbers would wrap around.
  pub one_cpu :
      (sched : Sched Pcb) (tlb ram : Raw) (swaps : ℕ → Raw) {w w' : System} (c d : ℕ) (p r : Pcb)
      → sched.curr_prio ≡ 0
      → main config sched tlb ram swaps ≡ some w
      → Reach config w w'
      → c < config.num_cpus
      → d < config.num_cpus
      → (w'.cpu c).proc ≡ some p
      → (w'.cpu d).proc ≡ some r
      → c ≢ d
      → r.pid ≢ p.pid
  one_cpu sched tlb ram swaps c d p r first started run cb db holds holds' apart same =
      let (loc, h) = Reach-Placed run (main-Placed sched tlb ram swaps first started) in
      let m = sym (h.cpus c cb p holds) ∙ ap loc (sym same) ∙ h.cpus d db r holds' in apart cc

  -- In every run of the program that `main` starts, no queue entry has the number of a process that
  -- a CPU holds. The scheduler's current priority starts at 0, and the number of processes plus one
  -- is below 2 ^ 32.
  pub off_queue :
      (sched : Sched Pcb) (tlb ram : Raw) (swaps : ℕ → Raw) {w w' : System} (c q i : ℕ) (p r : Pcb)
      → sched.curr_prio ≡ 0
      → main config sched tlb ram swaps ≡ some w
      → Reach config w w'
      → c < config.num_cpus
      → (w'.cpu c).proc ≡ some p
      → q < max_prio
      → i < (w'.shared.sched.mlq_ready_queue q).size
      → (w'.shared.sched.mlq_ready_queue q).proc i ≡ some r
      → r.pid ≢ p.pid
  off_queue sched tlb ram swaps c q i p r first started run cb holds qb ib at same =
      let (loc, h) = Reach-Placed run (main-Placed sched tlb ram swaps first started) in
      let m = sym (h.cpus c cb p holds) ∙ ap loc (sym same) ∙ entry_place h q i r qb ib at in cc

  -- In every run of the program that `main` starts, two queue entries of the same process number
  -- are the same entry. The scheduler's current priority starts at 0, and the number of processes
  -- plus one is below 2 ^ 32.
  pub one_entry :
      (sched : Sched Pcb) (tlb ram : Raw) (swaps : ℕ → Raw) {w w' : System} (q i q' i' : ℕ)
      (r r' : Pcb)
      → sched.curr_prio ≡ 0
      → main config sched tlb ram swaps ≡ some w
      → Reach config w w'
      → q < max_prio
      → i < (w'.shared.sched.mlq_ready_queue q).size
      → (w'.shared.sched.mlq_ready_queue q).proc i ≡ some r
      → q' < max_prio
      → i' < (w'.shared.sched.mlq_ready_queue q').size
      → (w'.shared.sched.mlq_ready_queue q').proc i' ≡ some r'
      → r.pid ≡ r'.pid
      → (q ≡ q') × (i ≡ i')
  one_entry sched tlb ram swaps q i q' i' r r' first started run qb ib at qb' ib' at' same =
      let (loc, h) = Reach-Placed run (main-Placed sched tlb ram swaps first started) in
      let m =
        sym (entry_place h q i r qb ib at) ∙ ap loc same ∙ entry_place h q' i' r' qb' ib' at' in
      (cc, cc)
