-- ===== src/Os/Placed/Everywhere.antt =====
-- Every step of the program leaves every process at one place.
use mathlib.Core.Option.{some-injective}
use hk232_assignment_os.Base.{
  ℕ, ◌+◌, ◌%◌, ◌^◌, ◌<◌, ◌≡◌, sym, ap, ◌∙◌, none, some, update, update_self, update_ne, update_all,
  arith,
}
use hk232_assignment_os.Pcb.{Pcb}
use hk232_assignment_os.Sched.{add_mlq_proc}
use hk232_assignment_os.Loader.{returns, load}
use hk232_assignment_os.Os.{Shared, loading, await, adding, Cpu, Ld, Config, System}
use hk232_assignment_os.Os.Placed.{Location, loaded, on_cpu, IsPlaced, held}
use hk232_assignment_os.Os.Placed.Queues.{enqueue-InQueues}
use hk232_assignment_os.Os.Placed.Moves.{HasMoved, add_lem}

module _ (config : Config) (few : config.num_processes + 1 < 2 ^ 32) where
  -- A step that changes no process, no queue and not the loader's counters.
  pub same_places :
      {w w' : System} {loc : ℕ → Location}
      → IsPlaced config w loc
      → w'.shared.sched ≡ w.shared.sched
      → w'.shared.avail_pid ≡ w.shared.avail_pid
      → ((c : ℕ) → (w'.cpu c).proc ≡ (w.cpu c).proc)
      → w'.ld.proc ≡ w.ld.proc
      → w'.ld.i ≡ w.ld.i
      → held w'.ld.spot ≡ held w.ld.spot
      → IsPlaced config w' loc
  same_places h s a c p i spot = record {
    in_range = rw s h.in_range;
    queues = rw s h.queues;
    cpus = λ d b x e. h.cpus d b x (sym (c d) ∙ e);
    loader = λ x e. h.loader x (sym p ∙ e);
    next_pid = rw (a, i, spot) h.next_pid;
    loads = rw (i, spot) h.loads;
    fresh = λ d b. h.fresh d (rw a at b);
  }

  pub cpu_moves :
      {w : System} {loc : ℕ → Location} (c : ℕ) (s : Shared) (k : Cpu)
      → IsPlaced config w loc
      → HasMoved loc c w.shared s k
      → (loc' : ℕ → Location) × IsPlaced config
          (record w { shared = s; cpu = update w.cpu c k })
          loc'
  cpu_moves {w} c s k h m = (
    m.loc',
    record {
      in_range = m.in_range;
      queues = m.queues;
      cpus = λ d b p.
          update_all (λ d u. d < config.num_cpus → u.proc ≡ some p → m.loc' p.pid ≡ on_cpu d) w.cpu
            c k (λ b' e. m.own p e)
            (λ d' other b' e. m.keeps_cpus p.pid d' (λ same. other (sym same)) (h.cpus d' b' p e)) d
            b;
      loader = λ p e. m.keeps_loaded p.pid (h.loader p e);
      next_pid = m.same_pid ∙ h.next_pid;
      loads = h.loads;
      fresh = λ d b. m.keeps_unused d (h.fresh d (rw m.same_pid at b));
    },
  )

  -- What `load` gives has the next process number.
  pub load_pid :
      (l : Ld) (pid : ℕ) (r : Pcb × ℕ)
      → load config.stdio pid (config.blocks l.i) (config.path l.i) ≡ returns r
      → (r.0.pid ≡ pid) × (r.1 ≡ (pid + 1) % 2 ^ 32)
  unfolding load
  load_pid l pid r e = (ground (arith, e), ground (arith, e))

  -- The loader takes a process number that is not in use.
  pub loads_new :
      {w : System} {loc : ℕ → Location} (s : Shared) (k : Ld) (p : Pcb)
      → IsPlaced config w loc
      → w.ld.spot ≡ loading
      → w.ld.i < config.num_processes
      → s.sched ≡ w.shared.sched
      → s.avail_pid ≡ (w.shared.avail_pid + 1) % 2 ^ 32
      → k.proc ≡ some p
      → p.pid ≡ w.shared.avail_pid
      → k.i ≡ w.ld.i
      → k.spot ≡ await
      → (loc' : ℕ → Location) × IsPlaced config (record w { shared = s; ld = k }) loc'
  loads_new {w} {loc} s k p h at more same next holds number i spot =
      let n = w.shared.avail_pid in
      let loc' = update loc n loaded in
      let none_held : held w.ld.spot ≡ 0 = ap held at in
      let one_held : held k.spot ≡ 1 = ap held spot in
      let free = h.fresh n (omega arith) in
      let next' : s.avail_pid ≡ n + 1 = omega (arith, next, h.next_pid, none_held) in
      (
        loc',
        record {
          in_range = rw same h.in_range;
          queues = rw same (λ q j qb jb.
              let (x, ex, lx) = h.queues q j qb jb in
              (
                x,
                ex,
                update_ne loc n x.pid loaded (λ e. let m = sym free ∙ ap loc e ∙ lx in cc) ∙ lx,
              ));
          cpus = λ c b x e.
              let lx = h.cpus c b x e in
              update_ne loc n x.pid loaded (λ e. let m = sym free ∙ ap loc e ∙ lx in cc) ∙ lx;
          loader = λ x e.
              let same_proc = some-injective p x (sym holds ∙ e) in
              let is_new : x.pid ≡ n = rw (← same_proc) number in
              rw is_new (update_self loc n loaded);
          next_pid = omega (arith, next', i, one_held, h.next_pid, none_held);
          loads = omega (arith, i, one_held);
          fresh = λ d b.
              update_ne loc n d loaded (omega (arith, next')) ∙ h.fresh d (omega (arith, next'));
        },
      )

  -- The loader hands its process to the scheduler.
  pub adds :
      {w : System} {loc : ℕ → Location} (s : Shared) (k : Ld) (p ready : Pcb)
      → IsPlaced config w loc
      → w.ld.spot ≡ adding
      → w.ld.proc ≡ some p
      → ready.pid ≡ p.pid
      → add_mlq_proc (λ x. x.prio) w.shared.sched ready ≡ some s.sched
      → s.avail_pid ≡ w.shared.avail_pid
      → k.proc ≡ none
      → k.i ≡ w.ld.i + 1
      → k.spot ≡ loading
      → (loc' : ℕ → Location) × IsPlaced config (record w { shared = s; ld = k }) loc'
  adds {w} {loc} s k p ready h at holds number added pid empty i spot =
      let one_held : held w.ld.spot ≡ 1 = ap held at in
      let none_held : held k.spot ≡ 0 = ap held spot in
      let here : loc ready.pid ≡ loaded = ap loc number ∙ h.loader p holds in
      let (qs, cp) = add_lem w.shared.sched s.sched ready added in
      let (loc', g, others) =
        enqueue-InQueues w.shared.sched.mlq_ready_queue loc ready.prio ready h.queues
          (λ r j l. let m = sym here ∙ l in cc) in
      (
        loc',
        record {
          in_range = rw cp h.in_range;
          queues = rw qs g;
          cpus = λ c b x e.
              let lx = h.cpus c b x e in
              others x.pid (λ same. let m = sym here ∙ ap loc same ∙ lx in cc) ∙ lx;
          loader = λ x e. let m = sym empty ∙ e in cc;
          next_pid = omega (arith, pid, i, none_held, one_held, h.next_pid);
          loads = omega (arith, i, none_held, one_held, h.loads);
          fresh = λ d b.
              let l = h.fresh d (rw pid at b) in
              others d (λ same. let m = sym here ∙ ap loc same ∙ l in cc) ∙ l;
        },
      )
