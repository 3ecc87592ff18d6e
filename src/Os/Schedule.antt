-- ===== src/Os/Schedule.antt =====
-- Runs of the program on a list of moves: which thread takes the next step.
use hk232_assignment_os.Base.{
  ℕ, ◌<◌, ◌≡◌, refl, ltb, if◌then◌else◌, Option, none, some, List, [], ◌∷◌, arith, Bool-cases, inl,
  inr, update, ◌>>=◌, >>=-eq-some,
}
use mathlib.Core.Option.{some-injective}
use hk232_assignment_os.Timer.{timer_step, current_time, next_slot, released, detach_event}
use hk232_assignment_os.Os.{
  Phase, inside, calling, waiting, leaving, stopped, Config, System, cpu_routine, ld_routine,
  set_phase, set_ld, Step, Reach, here, later, tick, cpu_runs, cpu_arrives, cpu_resumes, cpu_leaves,
  ld_runs, ld_arrives, ld_resumes, ld_leaves,
}

pub data Move : Type 0 where
  timer : Move
  cpu : ℕ → Move
  ld : Move

module _ (config : Config) where
  abbrev cpu_goes : System → ℕ → Phase → Option System
  cpu_goes w c inside = cpu_routine config.time_slot w.shared (w.cpu c) >>= λ r.
      some (record w { shared = r.0; cpu = update w.cpu c r.1 })
  cpu_goes w c calling = some (set_phase (record w { timer = next_slot w.timer c }) c waiting)
  cpu_goes w c waiting = if released w.timer c then some (set_phase w c inside) else none
  cpu_goes w c leaving = some (set_phase (record w { timer = detach_event w.timer c }) c stopped)
  cpu_goes w c stopped = none

  abbrev ld_goes : System → Phase → Option System
  ld_goes w inside = ld_routine config (current_time w.timer) w.shared w.ld >>= λ r.
      some (record w { shared = r.0; ld = r.1 })
  ld_goes w calling = some (set_ld (record w { timer = next_slot w.timer config.num_cpus }) waiting)
  ld_goes w waiting = if released w.timer config.num_cpus then some (set_ld w inside) else none
  ld_goes w leaving =
      some (set_ld (record w { timer = detach_event w.timer config.num_cpus }) stopped)
  ld_goes w stopped = none

  abbrev pub goes : System → Move → Option System
  goes w timer = timer_step w.timer >>= λ t. some (record w { timer = t })
  goes w (cpu c) = if ltb c config.num_cpus then cpu_goes w c (w.cpu c).phase else none
  goes w ld = ld_goes w w.ld.phase

  abbrev pub runs : System → List Move → Option System
  runs w [] = some w
  runs w (m ∷ ms) = goes w m >>= λ u. runs u ms

  cpu_goes-Step :
      (w w' : System) (c : ℕ) (ph : Phase)
      → c < config.num_cpus
      → (w.cpu c).phase ≡ ph
      → cpu_goes w c ph ≡ some w'
      → Step config w w'
  cpu_goes-Step w w' c inside b at e =
      let (r, first, rest) = >>=-eq-some (cpu_routine config.time_slot w.shared (w.cpu c)) _ e in
      rw (← some-injective _ _ rest) (cpu_runs c b at first)
  cpu_goes-Step w w' c calling b at e = rw (← some-injective _ _ e) (cpu_arrives c b at)
  cpu_goes-Step w w' c waiting b at e = elim (Bool-cases (released w.timer c)) [
    | inl free ↦ rw (← some-injective _ _ (rw free at e)) (cpu_resumes c b at free)
    | inr held ↦ let x = rw held at e in cc
  ]
  cpu_goes-Step w w' c leaving b at e = rw (← some-injective _ _ e) (cpu_leaves c b at)
  cpu_goes-Step w w' c stopped b at e = cc

  ld_goes-Step :
      (w w' : System) (ph : Phase) → w.ld.phase ≡ ph → ld_goes w ph ≡ some w' → Step config w w'
  ld_goes-Step w w' inside at e =
      let (r, first, rest) =
        >>=-eq-some (ld_routine config (current_time w.timer) w.shared w.ld) _ e in
      rw (← some-injective _ _ rest) (ld_runs at first)
  ld_goes-Step w w' calling at e = rw (← some-injective _ _ e) (ld_arrives at)
  ld_goes-Step w w' waiting at e = elim (Bool-cases (released w.timer config.num_cpus)) [
    | inl free ↦ rw (← some-injective _ _ (rw free at e)) (ld_resumes at free)
    | inr held ↦ let x = rw held at e in cc
  ]
  ld_goes-Step w w' leaving at e = rw (← some-injective _ _ e) (ld_leaves at)
  ld_goes-Step w w' stopped at e = cc

  goes-Step : (w w' : System) (m : Move) → goes w m ≡ some w' → Step config w w'
  goes-Step w w' timer e =
      let (t, first, rest) = >>=-eq-some (timer_step w.timer) _ e in
      rw (← some-injective _ _ rest) (tick first)
  goes-Step w w' (cpu c) e = elim (Bool-cases (ltb c config.num_cpus)) [
    | inl b ↦ cpu_goes-Step w w' c (w.cpu c).phase (ground (arith, b)) refl (rw b at e)
    | inr b ↦ let x = rw b at e in cc
  ]
  goes-Step w w' ld e = ld_goes-Step w w' w.ld.phase refl e

  ahead : {u v w : System} → Step config u v → Reach config v w → Reach config u w
  ahead s here = later here s
  ahead s (later r t) = later (ahead s r) t

  -- A list of moves that can be made leads to a reachable state.
  pub runs-Reach : (w w' : System) (ms : List Move) → runs w ms ≡ some w' → Reach config w w'
  runs-Reach w w' [] e = rw (← some-injective _ _ e) here
  runs-Reach w w' (m ∷ ms) e =
      let (u, first, rest) = >>=-eq-some (goes w m) _ e in
      ahead (goes-Step w u m first) (runs-Reach u w' ms rest)
