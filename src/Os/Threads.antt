-- ===== src/Os/Threads.antt =====
-- What the timer's barrier gives the threads of the program.
use hk232_assignment_os.Base.{
  ℕ, ◌+◌, ◌≤◌, ◌<◌, ◌≡◌, ◌≢◌, ◌⊎◌, inl, inr, refl, ◌∙◌, sym, some, arith,
}
use hk232_assignment_os.Pcb.{Pcb}
use hk232_assignment_os.Sched.{Sched}
use hk232_assignment_os.Timer.{Position, Timer, timer_step}
use hk232_assignment_os.Timer.World.{World, Place, member, IsStart}
use hk232_assignment_os.Timer.World
use hk232_assignment_os.Timer.Barrier
use hk232_assignment_os.Os.{
  Config, System, Phase, inside, calling, waiting, leaving, stopped, Reach,
}
use hk232_assignment_os.Os.Refine.{Simulates, Reach-Simulates}
use hk232_assignment_os.Os.Working.{place_of}
use hk232_assignment_os.Os.Boot.{Raw, main, world, main-Simulates}

at_rest : (ph : Phase) → place_of ph ≢ Place.working → (ph ≡ waiting) ⊎ (ph ≡ stopped)
at_rest inside h = absurd (h refl)
at_rest calling h = absurd (h refl)
at_rest waiting h = inl refl
at_rest leaving h = absurd (h refl)
at_rest stopped h = inr refl

ended : (ph : Phase) → place_of ph ≡ Place.gone → ph ≡ stopped
ended inside h = cc
ended calling h = cc
ended waiting h = cc
ended leaving h = cc
ended stopped h = refl

module _ (config : Config) (sched : Sched Pcb) (tlb ram : Raw) (swaps : ℕ → Raw) {w w' : System}
    (started : main config sched tlb ram swaps ≡ some w) (run : Reach config w w') where
  followed : (v : World) × World.Reach (world w) v × Simulates config w' v
  followed = Reach-Simulates config run (main-Simulates config sched tlb ram swaps w started).1

  start : IsStart (world w)
  start = (main-Simulates config sched tlb ram swaps w started).0

  -- In every run of the program that `main` starts, when a step of the timer changes the time, it
  -- adds one, and every CPU and the loader wait in `next_slot` or have ended.
  pub slot_ends_for_all :
      {t : Timer}
      → timer_step w'.timer ≡ some t
      → t.time ≢ w'.timer.time
      → (t.time ≡ w'.timer.time + 1)
        × ((c : ℕ)
            → c < config.num_cpus
            → ((w'.cpu c).phase ≡ waiting) ⊎ ((w'.cpu c).phase ≡ stopped))
        × ((w'.ld.phase ≡ waiting) ⊎ (w'.ld.phase ≡ stopped))
  slot_ends_for_all {t} e changed =
      let (v, r, h) = followed in
      let e' = rw (← h.same_timer) at e in
      let changed' = rw (← h.same_timer) at changed in
      let rests = λ (d : ℕ) (b : d ≤ config.num_cpus).
        Barrier.slot_ends d start r e' changed' (rw h.same_timer (h.attached d b)) in
      (
        rw h.same_timer at ((rests config.num_cpus (omega arith)).0),
        (λ c b. at_rest _ (rw (h.cpus c b) at ((rests c (omega arith)).1))),
        at_rest _ (rw h.loader at ((rests config.num_cpus (omega arith)).1)),
      )

  -- In every run of the program that `main` starts, when the timer's thread has ended, every CPU
  -- and the loader have ended.
  pub exited_stopped :
      w'.timer.position ≡ Position.exited
      → ((c : ℕ) → c < config.num_cpus → (w'.cpu c).phase ≡ stopped) × (w'.ld.phase ≡ stopped)
  exited_stopped e =
      let (v, r, h) = followed in
      let e' = rw (← h.same_timer) at e in
      let gone = λ (d : ℕ) (b : d ≤ config.num_cpus).
        Barrier.exited_gone d start r e' (rw h.same_timer (h.attached d b)) in
      (
        (λ c b. ended _ (sym (h.cpus c b) ∙ gone c (omega arith))),
        ended _ (sym h.loader ∙ gone config.num_cpus (omega arith)),
      )
