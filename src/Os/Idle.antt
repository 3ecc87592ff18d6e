-- ===== src/Os/Idle.antt =====
-- A CPU without a process, once there is none left to come.
use hk232_assignment_os.Base.{
  ℕ, ◌≤◌, ◌<◌, ◌≡◌, ◌≢◌, refl, ◌∙◌, sym, ap, true, false, ltb, none, some, update, update_all,
  arith,
}
use hk232_assignment_os.Queue.{empty}
use hk232_assignment_os.Pcb.{Pcb}
use hk232_assignment_os.Sched.{Sched, max_prio, get_mlq_proc, exhausted}
use hk232_assignment_os.Sched.Scan.{at_prio, get_finds_none}
use hk232_assignment_os.Os.{
  Shared, Phase, inside, calling, waiting, leaving, stopped, Spot, top, fetch, recheck, loading,
  Cpu, Ld, Config, System, cpu_top, cpu_fetch, cpu_recheck, cpu_at, cpu_routine, ld_loading, ld_at,
  ld_routine, Step, Reach, here, later, tick, cpu_runs, cpu_arrives, cpu_resumes, cpu_leaves,
  ld_runs, ld_arrives, ld_resumes, ld_leaves, stops,
}

-- No process waits in a queue.
pub record IsQuiet (s : Sched Pcb) : Type 0 where
  pub in_range : s.curr_prio < max_prio
  pub queues : (q : ℕ) → q < max_prio → empty (s.mlq_ready_queue q) ≡ true

get_quiet : (s : Sched Pcb) → IsQuiet s → get_mlq_proc s ≡ (none, at_prio s 0)
get_quiet s h =
    let nothing : empty (s.mlq_ready_queue s.curr_prio) ≡ true = h.queues s.curr_prio h.in_range in
    let e : exhausted s ≡ true = ground (arith, nothing) in get_finds_none s h.queues e

at_prio-IsQuiet : (s : Sched Pcb) → IsQuiet s → IsQuiet (at_prio s 0)
at_prio-IsQuiet s h = record { in_range = omega arith; queues = h.queues }

-- What a step of a CPU without a process comes to.
record IsSpinning (at : Spot) (s : Shared) (k : Cpu) : Type 0 where
  quiet : IsQuiet s.sched
  no_proc : k.proc ≡ none
  spins : at ≡ top → (k.spot ≡ top) × (k.phase ≡ calling)

quiet_top :
    (s s' : Shared) (c k : Cpu)
    → IsQuiet s.sched
    → c.proc ≡ none
    → cpu_top s c ≡ some (s', k)
    → IsSpinning top s' k
unfolding cpu_top
quiet_top s s' c k h n e =
    let g = get_quiet s.sched h in
    let same : s'.sched ≡ at_prio s.sched 0 = ground (arith, e, n, g) in
    record {
      quiet = rw same (at_prio-IsQuiet s.sched h);
      no_proc = ground (arith, e, n, g);
      spins = λ t. (ground (arith, e, n, g), ground (arith, e, n, g));
    }

quiet_fetch :
    (s s' : Shared) (c k : Cpu)
    → IsQuiet s.sched
    → cpu_fetch s c ≡ some (s', k)
    → IsSpinning fetch s' k
unfolding cpu_fetch
quiet_fetch s s' c k h e =
    let g = get_quiet s.sched h in
    let same : s'.sched ≡ at_prio s.sched 0 = ground (arith, e, g) in
    record {
      quiet = rw same (at_prio-IsQuiet s.sched h);
      no_proc = ground (arith, e, g);
      spins = λ t. cc;
    }

quiet_recheck :
    (time_slot : ℕ) (s s' : Shared) (c k : Cpu)
    → IsQuiet s.sched
    → c.proc ≡ none
    → cpu_recheck time_slot s c ≡ some (s', k)
    → IsSpinning recheck s' k
unfolding cpu_recheck
quiet_recheck time_slot s s' c k h n e =
    let same : s'.sched ≡ s.sched = ground (arith, e, n) in
    record { quiet = rw same h; no_proc = ground (arith, e, n); spins = λ t. cc }

quiet_at :
    (at : Spot) (time_slot : ℕ) (s s' : Shared) (c k : Cpu)
    → IsQuiet s.sched
    → c.proc ≡ none
    → cpu_at at time_slot s c ≡ some (s', k)
    → IsSpinning at s' k
unfolding cpu_at
quiet_at top time_slot s s' c k h n e = quiet_top s s' c k h n e
quiet_at fetch time_slot s s' c k h n e = quiet_fetch s s' c k h e
quiet_at recheck time_slot s s' c k h n e = quiet_recheck time_slot s s' c k h n e

module _ (config : Config) where
  -- A CPU has no process, and CPU `c` is at the top of its loop and not about to leave it.
  abbrev pub IsSpare : ℕ → ℕ → Cpu → Type 0
  IsSpare c d k =
      (k.proc ≡ none) × (d ≡ c → (k.spot ≡ top) × (k.phase ≢ leaving) × (k.phase ≢ stopped))

  -- CPU `c` is idle at the top of its loop, no other CPU has a process, none waits in a queue, and
  -- the loader has loaded its last one.
  pub record IsIdle (c : ℕ) (w : System) : Type 0 where
    pub quiet : IsQuiet w.shared.sched
    pub cpus : (d : ℕ) → d < config.num_cpus → IsSpare c d (w.cpu d)
    pub ld_at_test : w.ld.spot ≡ loading
    pub all_loaded : config.num_processes ≤ w.ld.i

  ld_ends :
      (time : ℕ) (s s' : Shared) (l k : Ld)
      → l.spot ≡ loading
      → config.num_processes ≤ l.i
      → ld_at config l.spot time s l ≡ some (s', k)
      → (s'.sched ≡ s.sched) × (k.spot ≡ loading) × (k.i ≡ l.i)
  unfolding ld_at ld_loading
  ld_ends time s s' l k at b e =
      let e' : ld_loading config s l ≡ some (s', k) =
        ap (λ x. ld_at config x time s l) (sym at) ∙ e in
      let over : ltb l.i config.num_processes ≡ false = ground arith in
      (ground (arith, e', over), ground (arith, e', over, at), ground (arith, e', over))

  update-IsSpare :
      (c d : ℕ) (w : System) (ph : Phase)
      → IsIdle c w
      → d < config.num_cpus
      → (d ≡ c → (ph ≢ leaving) × (ph ≢ stopped))
      → (k : ℕ) → k < config.num_cpus
      → IsSpare c k (update w.cpu d (record (w.cpu d) { phase = ph }) k)
  update-IsSpare c d w ph h bd moves =
      update_all (λ k u. k < config.num_cpus → IsSpare c k u) w.cpu d
        (record (w.cpu d) { phase = ph })
        (λ b. ((h.cpus d bd).0, λ e. let (l, p) = moves e in (((h.cpus d bd).1 e).0, l, p)))
        (λ k other. h.cpus k)

  Step-IsIdle : {c : ℕ} {w w' : System} → Step config w w' → IsIdle c w → IsIdle c w'
  unfolding cpu_routine ld_routine
  Step-IsIdle {c} {w} (tick e) h = record {
    quiet = h.quiet;
    cpus = h.cpus;
    ld_at_test = h.ld_at_test;
    all_loaded = h.all_loaded;
  }
  Step-IsIdle {c} {w} (cpu_runs d {s} {k} b inn e) h =
      let g =
        quiet_at (w.cpu d).spot config.time_slot w.shared s (w.cpu d) k h.quiet (h.cpus d b).0 e in
      record {
        quiet = g.quiet;
        cpus =
            update_all (λ j u. j < config.num_cpus → IsSpare c j u) w.cpu d k
              (λ _. (
                g.no_proc,
                λ q.
                    let z = g.spins ((h.cpus d b).1 q).0 in
                    (z.0, (λ x. let y = z.1 in cc), (λ x. let y = z.1 in cc)),
              ))
              (λ j other. h.cpus j);
        ld_at_test = h.ld_at_test;
        all_loaded = h.all_loaded;
      }
  Step-IsIdle {c} {w} (cpu_arrives d b at) h = record {
    quiet = h.quiet;
    cpus = update-IsSpare c d w waiting h b (λ q. (λ x. cc, λ x. cc));
    ld_at_test = h.ld_at_test;
    all_loaded = h.all_loaded;
  }
  Step-IsIdle {c} {w} (cpu_resumes d b at free) h = record {
    quiet = h.quiet;
    cpus = update-IsSpare c d w inside h b (λ q. (λ x. cc, λ x. cc));
    ld_at_test = h.ld_at_test;
    all_loaded = h.all_loaded;
  }
  Step-IsIdle {c} {w} (cpu_leaves d b at) h = record {
    quiet = h.quiet;
    cpus = update-IsSpare c d w stopped h b (λ q. absurd (((h.cpus d b).1 q).1 at));
    ld_at_test = h.ld_at_test;
    all_loaded = h.all_loaded;
  }
  Step-IsIdle {c} {w} (ld_runs {s} {k} inn e) h =
      let (same, at, i) = ld_ends _ w.shared s w.ld k h.ld_at_test h.all_loaded e in
      record {
        quiet = rw same h.quiet;
        cpus = h.cpus;
        ld_at_test = at;
        all_loaded = rw i h.all_loaded;
      }
  Step-IsIdle {c} {w} (ld_arrives at) h = record {
    quiet = h.quiet;
    cpus = h.cpus;
    ld_at_test = h.ld_at_test;
    all_loaded = h.all_loaded;
  }
  Step-IsIdle {c} {w} (ld_resumes at free) h = record {
    quiet = h.quiet;
    cpus = h.cpus;
    ld_at_test = h.ld_at_test;
    all_loaded = h.all_loaded;
  }
  Step-IsIdle {c} {w} (ld_leaves at) h = record {
    quiet = h.quiet;
    cpus = h.cpus;
    ld_at_test = h.ld_at_test;
    all_loaded = h.all_loaded;
  }
  Step-IsIdle {c} {w} (stops a b) h = record {
    quiet = h.quiet;
    cpus = h.cpus;
    ld_at_test = h.ld_at_test;
    all_loaded = h.all_loaded;
  }

  Reach-IsIdle : {c : ℕ} {w w' : System} → Reach config w w' → IsIdle c w → IsIdle c w'
  Reach-IsIdle here h = h
  Reach-IsIdle (later r s) h = Step-IsIdle s (Reach-IsIdle r h)

  -- If no queue holds a process, no CPU has one, the loader has loaded its last one, and a CPU is
  -- at the top of its loop, neither stopped nor about to leave it, then the same holds of that CPU
  -- in every state that follows: it never stops.
  pub idle_never_stops :
      {w w' : System} (c : ℕ)
      → c < config.num_cpus
      → IsIdle c w
      → Reach config w w'
      → ((w'.cpu c).proc ≡ none)
        × ((w'.cpu c).spot ≡ top)
        × ((w'.cpu c).phase ≢ leaving)
        × ((w'.cpu c).phase ≢ stopped)
  idle_never_stops c b h r =
      let g = (Reach-IsIdle r h).cpus c b in let (at, l, p) = g.1 refl in (g.0, at, l, p)
