-- ===== src/Os/Refine.antt =====
-- The threads of src/os.c against the timer: every step of the program is one of the timer's world,
-- or none.
use hk232_assignment_os.Base.{
  ℕ, ◌<◌, ◌≤◌, ◌≡◌, refl, ◌∙◌, sym, true, some, [], ◌∷◌, ap, update, update_ne, update_self, arith,
}
use native.Mathlib.Decide.{ℕ_discrete}
use hk232_assignment_os.Timer.{
  Position, Timer, timer_routine, timer_step, next_slot, released, detach_event, stop_timer,
}
use hk232_assignment_os.Timer.World
use hk232_assignment_os.Timer.World.{Place, World, member}
use hk232_assignment_os.Os.{
  Phase, inside, waiting, stopped, Config, System, cpu_routine, ld_routine, Step, Reach, tick,
  cpu_runs, cpu_arrives, cpu_resumes, cpu_leaves, ld_runs, ld_arrives, ld_resumes, ld_leaves, stops,
  here, later,
}
use hk232_assignment_os.Os.Working.{place_of, cpu_at_working, ld_at_working}

Reach-join : {u v w : World} → World.Reach u v → World.Reach v w → World.Reach u w
Reach-join r World.here = r
Reach-join r (World.later q s) = World.later (Reach-join r q) s

module _ (config : Config) where
  -- A state of the program and one of the timer's world: the same timer, and every thread where the
  -- world has its device.
  pub record Simulates (w : System) (v : World) : Type 0 where
    pub same_timer : v.timer ≡ w.timer
    pub cpus : (c : ℕ) → c < config.num_cpus → v.place c ≡ place_of (w.cpu c).phase
    pub loader : v.place config.num_cpus ≡ place_of w.ld.phase
    pub listed : (d : ℕ) → member d w.timer.dev_list ≡ true → d ≤ config.num_cpus
    pub attached : (d : ℕ) → d ≤ config.num_cpus → member d w.timer.dev_list ≡ true

  timer_keeps :
      (t u : Timer) (at : Position) → timer_routine t at ≡ some u → u.dev_list ≡ t.dev_list
  unfolding timer_routine
  timer_keeps t u Position.unborn e = cc
  timer_keeps t u Position.exited e = cc
  timer_keeps t u Position.head e = ground (arith, e)
  timer_keeps t u (Position.collect [] f ev) e = ground (arith, e)
  timer_keeps t u (Position.collect (d ∷ rest) f ev) e = ground (arith, e)
  timer_keeps t u (Position.release [] f ev) e = ground (arith, e)
  timer_keeps t u (Position.release (d ∷ rest) f ev) e = ground (arith, e)

  -- The places after the thread `d` of the list moves to `pl`.
  cpus_after :
      (w : System) (v : World) (c : ℕ) (ph : Phase)
      → Simulates w v
      → c < config.num_cpus
      → (d : ℕ) → d < config.num_cpus
      → update v.place c (place_of ph) d
        ≡ place_of (update w.cpu c (record (w.cpu c) { phase = ph }) d).phase
  cpus_after w v c ph h b d bd = elim (ℕ_discrete c d) [
    | yes same ↦ ground (arith, h.cpus d bd)
    | no other ↦ update_ne v.place c d _ other ∙ h.cpus d bd ∙ ground arith
  ]

  cpus_apart :
      (w : System) (v : World) (pl : Place)
      → Simulates w v
      → (d : ℕ) → d < config.num_cpus
      → update v.place config.num_cpus pl d ≡ place_of (w.cpu d).phase
  cpus_apart w v pl h d bd = update_ne v.place config.num_cpus d pl (omega arith) ∙ h.cpus d bd

  -- When a state of the timer's world simulates the program's state, and the program makes a step,
  -- a state that the world can reach from there simulates the state after it.
  pub Step-Simulates :
      {w w' : System} {v : World}
      → Step config w w'
      → Simulates w v
      → (v' : World) × World.Reach v v' × Simulates w' v'
  unfolding cpu_routine ld_routine timer_step next_slot released detach_event stop_timer
  Step-Simulates {w} {v} (tick {t} e) h =
      let f = rw (← h.same_timer) at e in
      (
        record v { timer = t },
        World.later World.here (World.tick f),
        record {
          same_timer = refl;
          cpus = h.cpus;
          loader = h.loader;
          listed = λ d m. h.listed d (rw (timer_keeps w.timer t w.timer.position e) at m);
          attached = λ d b. rw (timer_keeps w.timer t w.timer.position e) (h.attached d b);
        },
      )
  Step-Simulates {w} {v} (cpu_runs c {s} {k} b inn e) h = (
    v,
    World.here,
    record {
      same_timer = h.same_timer;
      cpus = λ d bd. elim (ℕ_discrete c d) [
        | yes same ↦ ground (
          arith,
          h.cpus d bd,
          cpu_at_working (w.cpu c).spot config.time_slot w.shared s (w.cpu c) k e inn,
        )
        | no other ↦ h.cpus d bd ∙ ground arith
      ];
      loader = h.loader;
      listed = h.listed;
      attached = h.attached;
    },
  )
  Step-Simulates {w} {v} (cpu_arrives c b at) h =
      let p : v.place c ≡ Place.working = h.cpus c b ∙ ap place_of at in
      (
        _,
        World.later World.here (World.arrive c p),
        record {
          same_timer = ap (λ t. next_slot t c) h.same_timer;
          cpus = cpus_after w v c waiting h b;
          loader = update_ne v.place c config.num_cpus _ (omega arith) ∙ h.loader;
          listed = h.listed;
          attached = h.attached;
        },
      )
  Step-Simulates {w} {v} (cpu_resumes c b at free) h =
      let p : v.place c ≡ Place.waiting = h.cpus c b ∙ ap place_of at in
      let clear : (v.timer.device c).done ≡ 0 = rw h.same_timer (ground (arith, free)) in
      (
        _,
        World.later World.here (World.resume c p clear),
        record {
          same_timer = h.same_timer;
          cpus = cpus_after w v c inside h b;
          loader = update_ne v.place c config.num_cpus _ (omega arith) ∙ h.loader;
          listed = h.listed;
          attached = h.attached;
        },
      )
  Step-Simulates {w} {v} (cpu_leaves c b at) h =
      let p : v.place c ≡ Place.working = h.cpus c b ∙ ap place_of at in
      (
        _,
        World.later World.here (World.leave c p),
        record {
          same_timer = ap (λ t. detach_event t c) h.same_timer;
          cpus = cpus_after w v c stopped h b;
          loader = update_ne v.place c config.num_cpus _ (omega arith) ∙ h.loader;
          listed = h.listed;
          attached = h.attached;
        },
      )
  Step-Simulates {w} {v} (ld_runs {s} {k} inn e) h = (
    v,
    World.here,
    record {
      same_timer = h.same_timer;
      cpus = h.cpus;
      loader =
          h.loader
          ∙ ap place_of inn
          ∙ sym (ld_at_working config w.ld.spot _ w.shared s w.ld k e inn);
      listed = h.listed;
      attached = h.attached;
    },
  )
  Step-Simulates {w} {v} (ld_arrives at) h =
      let p : v.place config.num_cpus ≡ Place.working = h.loader ∙ ap place_of at in
      (
        _,
        World.later World.here (World.arrive config.num_cpus p),
        record {
          same_timer = ap (λ t. next_slot t config.num_cpus) h.same_timer;
          cpus = cpus_apart w v Place.waiting h;
          loader = update_self v.place config.num_cpus _;
          listed = h.listed;
          attached = h.attached;
        },
      )
  Step-Simulates {w} {v} (ld_resumes at free) h =
      let p : v.place config.num_cpus ≡ Place.waiting = h.loader ∙ ap place_of at in
      let clear : (v.timer.device config.num_cpus).done ≡ 0 =
        rw h.same_timer (ground (arith, free)) in
      (
        _,
        World.later World.here (World.resume config.num_cpus p clear),
        record {
          same_timer = h.same_timer;
          cpus = cpus_apart w v Place.working h;
          loader = update_self v.place config.num_cpus _;
          listed = h.listed;
          attached = h.attached;
        },
      )
  Step-Simulates {w} {v} (ld_leaves at) h =
      let p : v.place config.num_cpus ≡ Place.working = h.loader ∙ ap place_of at in
      (
        _,
        World.later World.here (World.leave config.num_cpus p),
        record {
          same_timer = ap (λ t. detach_event t config.num_cpus) h.same_timer;
          cpus = cpus_apart w v Place.gone h;
          loader = update_self v.place config.num_cpus _;
          listed = h.listed;
          attached = h.attached;
        },
      )
  Step-Simulates {w} {v} (stops all_cpus ld_stopped) h =
      let all_gone : (d : ℕ) → member d v.timer.dev_list ≡ true → v.place d ≡ Place.gone = λ d m.
        elim (ℕ_discrete d config.num_cpus) [
          | yes same ↦ rw same (h.loader ∙ ap place_of ld_stopped)
          | no other ↦
              let in_list = rw h.same_timer at m in
              let bd : d < config.num_cpus = omega (arith, h.listed d in_list) in
              h.cpus d bd ∙ ap place_of (all_cpus d bd)
        ] in
      (
        _,
        World.later World.here (World.stop all_gone),
        record {
          same_timer = ap stop_timer h.same_timer;
          cpus = h.cpus;
          loader = h.loader;
          listed = h.listed;
          attached = h.attached;
        },
      )

  -- Every run of the program is a run of the timer's world.
  pub Reach-Simulates :
      {w w' : System} {v : World}
      → Reach config w w'
      → Simulates w v
      → (v' : World) × World.Reach v v' × Simulates w' v'
  Reach-Simulates {v} here h = (v, World.here, h)
  Reach-Simulates (later r s) h =
      let (u, ru, hu) = Reach-Simulates r h in
      let (v', rv, hv) = Step-Simulates s hu in (v', Reach-join ru rv, hv)
