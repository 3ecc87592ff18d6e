-- ===== src/Os/Tests.antt =====
-- The program with one CPU and one process of one instruction, from `main` to its end, and with no
-- process at all.
use hk232_assignment_os.Os.{Cpu, inside}
use hk232_assignment_os.Base.{
  Option, ◌-◌, ℕ, ◌+◌, ◌<◌, ◌≡◌, ◌≢◌, ◌⊎◌, refl, none, some, List, [], ◌∷◌, ◌++◌, arith,
}
use hk232_assignment_os.Pcb.{Inst, Opcode, Pcb}
use hk232_assignment_os.Sample.{process, memory, area, ram}
use hk232_assignment_os.Queue.{Queue}
use hk232_assignment_os.Sched.{Sched}
use hk232_assignment_os.Timer.{Position, Timer, timer_step}
use hk232_assignment_os.Loader.RoundTrip.{Token, num, word}
use hk232_assignment_os.Loader.Tokens.{token_stdio}
use hk232_assignment_os.Os.{Config, System, waiting, leaving, stopped, top, Step, tick}
use hk232_assignment_os.Memphy.{init_memphy, format}
use hk232_assignment_os.Queue.{dequeue, enqueue, empty, shift}
use hk232_assignment_os.Sched.{
  init_scheduler, clear_from, get_mlq_proc, scan, take_current, put_mlq_proc, add_mlq_proc,
}
use hk232_assignment_os.Timer.{next_slot, detach_event, released, current_time}
use hk232_assignment_os.Loader.{load, load_text, numbers, get_opcode, load_args}
use hk232_assignment_os.Cpu.{run, execute}
use hk232_assignment_os.Os.{
  cpu_routine, cpu_at, cpu_top, cpu_fetch, cpu_recheck, ld_routine, ld_at, ld_loading, ld_await,
  ld_adding, run_shared,
}
use hk232_assignment_os.Os.Boot.{
  Raw, main, init_swaps, init_timer, attach_loop, world, main-Simulates,
}
use hk232_assignment_os.Timer.World
use hk232_assignment_os.Timer.World.{World}
use hk232_assignment_os.Sched.Invariant.{cleared}
use hk232_assignment_os.Os.Refine.{Simulates, Step-Simulates}
use hk232_assignment_os.Os.Threads.{slot_ends_for_all, exited_stopped}
use hk232_assignment_os.Os.Placed.Steps.{one_cpu, off_queue}
use hk232_assignment_os.Os.Ranked.{work_conserving}
use hk232_assignment_os.Sched.{get_proc}
use hk232_assignment_os.Os.Slice.{turns, turns_keep}
use hk232_assignment_os.Cpu.Keeping.{kept_fields}
use hk232_assignment_os.Os.Idle.{IsIdle, idle_never_stops}
use hk232_assignment_os.Os.Schedule.{Move, timer, cpu, ld, runs, runs-Reach}

abbrev no_process : Queue Pcb
no_process = record { proc = λ i. none; size = 0 }

abbrev static_sched : Sched Pcb
static_sched = record {
  ready_queue = no_process;
  run_queue = no_process;
  mlq_ready_queue = λ q. no_process;
  curr_prio = 0;
  slot_left = 140;
}

abbrev config : Config
config = record {
  time_slot = 2;
  num_cpus = 1;
  num_processes = 1;
  path = λ i. "input/proc/p0";
  start_time = λ i. 0;
  prio = λ i. 3;
  file = List Token;
  stdio = token_stdio (num 1 ∷ num 1 ∷ word "calc" ∷ []);
  blocks = λ i. record {
    proc = process;
    size = 0;
    text = λ k. record { opcode = Opcode.calc; arg_0 = 0; arg_1 = 0; arg_2 = 0 };
  };
  raw_mm = λ i. memory;
  raw_vma = λ i. area;
  raw_pgd = λ i k. 0;
  tlbsz = 65536;
  memramsz = 512;
  memswpsz = λ sit. 512;
}

abbrev raw : Raw
raw = record { device = ram; storage = λ i. 0; garbage = [] }

abbrev booted : (w : System) × (main config static_sched raw raw (λ sit. raw) ≡ some w)
unfolding main init_memphy format init_swaps
booted = (_, refl)

-- The loader adds the process, the CPU takes and runs it, and both wait for the next slot.
abbrev first_slot : List Move
first_slot = ld ∷ ld ∷ ld ∷ cpu 0 ∷ cpu 0 ∷ cpu 0 ∷ ld ∷ timer ∷ timer ∷ timer ∷ []

abbrev slot_over :
    (w : System) × (runs config booted.0 first_slot ≡ some w)
    × (t : Timer) × (timer_step w.timer ≡ some t)
    × (t.time ≢ w.timer.time)
unfolding booted main init_memphy format init_swaps init_timer attach_loop init_scheduler clear_from
    timer_step next_slot detach_event released current_time cpu_routine cpu_at cpu_top cpu_fetch
    cpu_recheck ld_routine ld_at ld_loading ld_await ld_adding load load_text numbers get_opcode
    load_args get_mlq_proc scan take_current dequeue enqueue empty shift put_mlq_proc add_mlq_proc
    run_shared run execute
slot_over = (_, refl, _, refl, λ e. omega (arith, e))

-- The rest of the run: the loader ends, the CPU finds its process done, and the timer ends.
abbrev rest_of_run : List Move
rest_of_run =
    timer
    ∷ timer
    ∷ timer
    ∷ timer
    ∷ ld
    ∷ ld
    ∷ ld
    ∷ cpu 0
    ∷ cpu 0
    ∷ cpu 0
    ∷ cpu 0
    ∷ cpu 0
    ∷ timer
    ∷ timer
    ∷ timer
    ∷ timer
    ∷ timer
    ∷ timer
    ∷ timer
    ∷ []

abbrev run_over :
    (w : System) × (runs config booted.0 (first_slot ++ rest_of_run) ≡ some w)
    × (w.timer.position ≡ Position.exited)
unfolding booted main init_memphy format init_swaps init_timer attach_loop init_scheduler clear_from
    timer_step next_slot detach_event released current_time cpu_routine cpu_at cpu_top cpu_fetch
    cpu_recheck ld_routine ld_at ld_loading ld_await ld_adding load load_text numbers get_opcode
    load_args get_mlq_proc scan take_current dequeue enqueue empty shift put_mlq_proc add_mlq_proc
    run_shared run execute
run_over = (_, refl, refl)

abbrev first_step : (w : System) × Step config booted.0 w
unfolding booted main init_memphy format init_swaps init_timer attach_loop timer_step
first_step = (_, tick refl)

Step-Simulates_example :
    (v : World) × World.Reach (world booted.0) v × Simulates config first_step.0 v
Step-Simulates_example =
    Step-Simulates config first_step.1
      (main-Simulates config static_sched raw raw (λ sit. raw) booted.0 booted.1).1

slot_ends_for_all_example :
    (slot_over.2.time ≡ slot_over.0.timer.time + 1)
    × ((c : ℕ)
        → c < 1
        → ((slot_over.0.cpu c).phase ≡ waiting) ⊎ ((slot_over.0.cpu c).phase ≡ stopped))
    × ((slot_over.0.ld.phase ≡ waiting) ⊎ (slot_over.0.ld.phase ≡ stopped))
slot_ends_for_all_example =
    slot_ends_for_all config static_sched raw raw (λ sit. raw) booted.1
      (runs-Reach config booted.0 slot_over.0 first_slot slot_over.1) slot_over.3 slot_over.4

exited_stopped_example :
    ((c : ℕ) → c < 1 → (run_over.0.cpu c).phase ≡ stopped) × (run_over.0.ld.phase ≡ stopped)
exited_stopped_example =
    exited_stopped config static_sched raw raw (λ sit. raw) booted.1
      (runs-Reach config booted.0 run_over.0 (first_slot ++ rest_of_run) run_over.1) run_over.2

-- Two CPUs and two processes: each CPU has got one.
abbrev pair : Config
pair = record config { num_cpus = 2; num_processes = 2 }

abbrev pair_booted : (w : System) × (main pair static_sched raw raw (λ sit. raw) ≡ some w)
unfolding main init_memphy format init_swaps
pair_booted = (_, refl)

abbrev both_busy : List Move
both_busy =
    ld
    ∷ ld
    ∷ ld
    ∷ cpu 0
    ∷ cpu 0
    ∷ cpu 0
    ∷ cpu 1
    ∷ cpu 1
    ∷ ld
    ∷ timer
    ∷ timer
    ∷ timer
    ∷ timer
    ∷ timer
    ∷ timer
    ∷ timer
    ∷ timer
    ∷ timer
    ∷ ld
    ∷ ld
    ∷ ld
    ∷ ld
    ∷ cpu 1
    ∷ cpu 1
    ∷ []

abbrev or_else {ℓ} : {A : Type ℓ} → Option A → A → A
or_else none a = a
or_else (some b) a = b

abbrev end_state : System
end_state = or_else (runs pair pair_booted.0 both_busy) pair_booted.0

abbrev holder : ℕ → Pcb
holder c = or_else (end_state.cpu c).proc process

moves_lead_there : runs pair pair_booted.0 both_busy ≡ some end_state
unfolding pair_booted main init_memphy format init_swaps init_timer attach_loop init_scheduler
    clear_from timer_step next_slot detach_event released current_time cpu_routine cpu_at cpu_top
    cpu_fetch cpu_recheck ld_routine ld_at ld_loading ld_await ld_adding load load_text numbers
    get_opcode load_args get_mlq_proc scan take_current dequeue enqueue empty shift put_mlq_proc
    add_mlq_proc run_shared run execute
moves_lead_there = refl

holder_at : ((end_state.cpu 0).proc ≡ some (holder 0)) × ((end_state.cpu 1).proc ≡ some (holder 1))
unfolding pair_booted main init_memphy format init_swaps init_timer attach_loop init_scheduler
    clear_from timer_step next_slot detach_event released current_time cpu_routine cpu_at cpu_top
    cpu_fetch cpu_recheck ld_routine ld_at ld_loading ld_await ld_adding load load_text numbers
    get_opcode load_args get_mlq_proc scan take_current dequeue enqueue empty shift put_mlq_proc
    add_mlq_proc run_shared run execute
holder_at = (refl, refl)

one_cpu_example : (holder 1).pid ≢ (holder 0).pid
one_cpu_example =
    one_cpu pair (omega arith) static_sched raw raw (λ sit. raw) 0 1 (holder 0) (holder 1) refl
      pair_booted.1 (runs-Reach pair pair_booted.0 end_state both_busy moves_lead_there)
      (omega arith) (omega arith) holder_at.0 holder_at.1 (omega arith)

-- The same machine with two processes: the first one has run an instruction, and the second one
-- has been added to the queue of its priority.
abbrev two_processes : Config
two_processes = record config { num_processes = 2 }

abbrev two_booted : (w : System) × (main two_processes static_sched raw raw (λ sit. raw) ≡ some w)
unfolding main init_memphy format init_swaps
two_booted = (_, refl)

abbrev second_added : List Move
second_added =
    ld
    ∷ ld
    ∷ ld
    ∷ cpu 0
    ∷ cpu 0
    ∷ cpu 0
    ∷ ld
    ∷ timer
    ∷ timer
    ∷ timer
    ∷ timer
    ∷ timer
    ∷ timer
    ∷ timer
    ∷ ld
    ∷ ld
    ∷ ld
    ∷ ld
    ∷ []

abbrev both :
    (w : System) × (runs two_processes two_booted.0 second_added ≡ some w)
    × (p : Pcb) × ((w.cpu 0).proc ≡ some p)
    × (r : Pcb) × (0 < (w.shared.sched.mlq_ready_queue 3).size)
    × ((w.shared.sched.mlq_ready_queue 3).proc 0 ≡ some r)
unfolding two_booted main init_memphy format init_swaps init_timer attach_loop init_scheduler
    clear_from timer_step next_slot detach_event released current_time cpu_routine cpu_at cpu_top
    cpu_fetch cpu_recheck ld_routine ld_at ld_loading ld_await ld_adding load load_text numbers
    get_opcode load_args get_mlq_proc scan take_current dequeue enqueue empty shift put_mlq_proc
    add_mlq_proc run_shared run execute
both = (_, refl, _, refl, _, omega arith, refl)

off_queue_example : both.4.pid ≢ both.2.pid
off_queue_example =
    off_queue two_processes (omega arith) static_sched raw raw (λ sit. raw) 0 3 0 both.2 both.4 refl
      two_booted.1 (runs-Reach two_processes two_booted.0 both.0 second_added both.1) (omega arith)
      both.3 (omega arith) both.5 both.6

work_conserving_example :
    (x : Pcb) × ((get_proc both.0.shared.sched).0 ≡ some x)
    × (x.prio ≡ (get_proc both.0.shared.sched).1.curr_prio)
    × (x.prio < 140)
    × ((x.prio ≡ both.0.shared.sched.curr_prio)
        ⊎ ((q : ℕ) → q < x.prio → (both.0.shared.sched.mlq_ready_queue q).size ≡ 0))
work_conserving_example =
    work_conserving two_processes static_sched raw raw (λ sit. raw) 3 refl two_booted.1
      (runs-Reach two_processes two_booted.0 both.0 second_added both.1) (omega arith) both.5

abbrev twice : List Inst
twice =
    record { opcode = Opcode.calc; arg_0 = 0; arg_1 = 0; arg_2 = 0 }
    ∷ record { opcode = Opcode.calc; arg_0 = 0; arg_1 = 0; arg_2 = 0 }
    ∷ []

-- A CPU with a process of two instructions and two slots left.
abbrev busy : Cpu
busy = record {
  phase = inside;
  spot = top;
  proc = some (record process { code = twice });
  time_left = 2;
}

abbrev two_turns :
    (d : Cpu) × (turns 2
        ((booted.0.shared, slot_over.0.shared) ∷ (slot_over.0.shared, booted.0.shared) ∷ [])
        busy
      ≡ some d)
unfolding booted slot_over main init_memphy format init_swaps init_timer attach_loop init_scheduler
    clear_from timer_step next_slot detach_event released current_time cpu_routine cpu_at cpu_top
    cpu_fetch cpu_recheck ld_routine ld_at ld_loading ld_await ld_adding load load_text numbers
    get_opcode load_args get_mlq_proc scan take_current dequeue enqueue empty shift put_mlq_proc
    add_mlq_proc run_shared run execute
two_turns = (_, refl)

turns_keep_example :
    (q : Pcb) × (two_turns.0.proc ≡ some q)
    × (two_turns.0.spot ≡ top)
    × (two_turns.0.time_left ≡ 2 - 2)
    × (kept_fields q ≡ (process.pid, process.priority, process.prio, twice, 0 + 2))
turns_keep_example =
    turns_keep 2
      ((booted.0.shared, slot_over.0.shared) ∷ (slot_over.0.shared, booted.0.shared) ∷ []) busy
      two_turns.0 (record process { code = twice }) refl refl (omega arith) (omega arith)
      (omega arith) (omega arith) two_turns.1

-- The same machine without a process.
abbrev no_work : Config
no_work = record config { num_processes = 0 }

abbrev no_work_start : (w : System) × (main no_work static_sched raw raw (λ sit. raw) ≡ some w)
unfolding main init_memphy format init_swaps
no_work_start = (_, refl)

no_work_start-IsIdle : IsIdle no_work 0 no_work_start.0
unfolding no_work_start main init_memphy format init_swaps init_scheduler empty
no_work_start-IsIdle = record {
  quiet = record {
    in_range = omega arith;
    queues = λ q b. ground (arith, cleared q static_sched.mlq_ready_queue b);
  };
  cpus = λ d b. (refl, λ e. (refl, (λ x. cc), (λ x. cc)));
  ld_at_test = refl;
  all_loaded = omega arith;
}

abbrev idle_later :
    (w : System) × (runs no_work no_work_start.0 (cpu 0 ∷ cpu 0 ∷ ld ∷ ld ∷ []) ≡ some w)
unfolding no_work_start main init_memphy format init_swaps init_timer attach_loop init_scheduler
    clear_from timer_step next_slot detach_event released current_time cpu_routine cpu_at cpu_top
    cpu_fetch cpu_recheck ld_routine ld_at ld_loading ld_await ld_adding load load_text numbers
    get_opcode load_args get_mlq_proc scan take_current dequeue enqueue empty shift put_mlq_proc
    add_mlq_proc run_shared run execute
idle_later = (_, refl)

idle_never_stops_example :
    ((idle_later.0.cpu 0).proc ≡ none)
    × ((idle_later.0.cpu 0).spot ≡ top)
    × ((idle_later.0.cpu 0).phase ≢ leaving)
    × ((idle_later.0.cpu 0).phase ≢ stopped)
idle_never_stops_example =
    idle_never_stops no_work 0 (omega arith) no_work_start-IsIdle
      (runs-Reach no_work no_work_start.0 idle_later.0 (cpu 0 ∷ cpu 0 ∷ ld ∷ ld ∷ []) idle_later.1)
