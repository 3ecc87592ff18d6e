-- ===== src/Sched/Tests.antt =====
-- Concrete schedulers. A process is its priority.
use hk232_assignment_os.Base.{
  ℕ, ◌+◌, ◌≡◌, ◌≢◌, refl, ◌==◌, ltb, if◌then◌else◌, none, some, [], ◌∷◌, ◌++◌, arith, inl,
}
use hk232_assignment_os.Queue.{Queue, max_queue_size}
use hk232_assignment_os.Sched.{Sched, get_mlq_proc, put_mlq_proc}
use hk232_assignment_os.Sched.Choice.{waiting, Serves, get_mlq_proc_restarts, put_mlq_proc_appends}
use hk232_assignment_os.Sched.Invariant.{IsValid, get_mlq_proc-IsValid}

abbrev no_process : Queue ℕ
no_process = record { proc = λ i. none; size = 0 }

abbrev one_process : ℕ → Queue ℕ
one_process p = record { proc = λ i. some p; size = 1 }

-- One process waits at priority 2 and one at priority 5.
abbrev ready : ℕ → Queue ℕ
ready p = if p == 2 then one_process 2 else (if p == 5 then one_process 5 else no_process)

-- Priority 5 is current, with a given number of slots.
abbrev at_five : ℕ → Sched ℕ
at_five slots = record {
  ready_queue = no_process;
  run_queue = no_process;
  mlq_ready_queue = ready;
  curr_prio = 5;
  slot_left = slots;
}

abbrev idle : Sched ℕ
idle = record (at_five 3) { mlq_ready_queue = λ p. no_process }

abbrev initial : Sched ℕ
initial = record (at_five 140) { curr_prio = 0 }

at_five-IsValid : IsValid (at_five 3)
at_five-IsValid = record {
  in_range = omega arith;
  slots = omega arith;
  sizes = λ q h. ground arith;
}

get_mlq_proc_restarts_example :
    Serves (at_five 0) 2 (get_mlq_proc (at_five 0))
    × ((get_mlq_proc (at_five 0)).1.slot_left + 1 ≡ 138)
get_mlq_proc_restarts_example =
    get_mlq_proc_restarts (at_five 0) 2 (inl refl) (omega arith) (λ q h. ground arith) (omega arith)

put_mlq_proc_appends_example :
    (s' : Sched ℕ) × (put_mlq_proc (λ p. p) (at_five 3) 5 ≡ some s')
    × (waiting s' 5 ≡ (
        if ltb ((at_five 3).mlq_ready_queue 5).size max_queue_size
        then waiting (at_five 3) 5 ++ some 5 ∷ []
        else waiting (at_five 3) 5))
    × ((q : ℕ) → q ≢ 5 → waiting s' q ≡ waiting (at_five 3) q)
    × (s'.curr_prio ≡ 5)
    × (s'.slot_left ≡ 3)
put_mlq_proc_appends_example = put_mlq_proc_appends (λ p. p) (at_five 3) 5 (omega arith)

get_mlq_proc-IsValid_example : IsValid (get_mlq_proc (at_five 3)).1
get_mlq_proc-IsValid_example = get_mlq_proc-IsValid (at_five 3) at_five-IsValid
