-- ===== src/Os.antt =====
-- src/os.c: the threads of the CPUs and of the loader, between the scheduler and the timer. A step
-- of a thread has at most one access to what the threads share: a call of the scheduler, the flag
-- `done`, the time, a call of the timer, or the run of an instruction, which is one step although
-- only its parts hold a lock. The devices go with a process while it runs.
pub mod Ranked
pub mod Working
pub mod Refine
pub mod Boot
pub mod ReadConfig
pub mod Threads
pub mod Idle
pub mod Placed
pub mod Slice
pub mod Schedule
mod Tests
use Prim.Native.String.{String}
use hk232_assignment_os.Base.{
  ℕ, ◌+◌, ◌-◌, ◌%◌, ◌^◌, ◌<◌, ◌≡◌, true, ◌==◌, ltb, if◌then◌else◌, Option, none, some, length,
  update, ◌>>=◌,
}
use hk232_assignment_os.Memphy.{Memphy}
use hk232_assignment_os.Pcb.{VmArea, Mm, Pcb}
use hk232_assignment_os.Mm.{init_mm}
use hk232_assignment_os.Sched.{Sched, get_proc, put_proc, add_proc}
use hk232_assignment_os.Timer.{
  Timer, timer_step, current_time, next_slot, released, detach_event, stop_timer,
}
use hk232_assignment_os.Cpu.{run}
use hk232_assignment_os.Loader.{returns, exits, faults, Stdio, Blocks, load}

-- The static variables that the threads read and write, the scheduler, the counter of the loader,
-- and the devices of `main`.
pub record Shared : Type 0 where
  pub sched : Sched Pcb
  pub done : ℕ
  pub avail_pid : ℕ
  pub tlb : Memphy
  pub mram : Memphy
  pub active_mswp : Memphy

-- What a thread does next: a step of its own, or a move against the timer: it calls `next_slot`,
-- waits in it, detaches itself, or has ended.
pub data Phase : Type 0 where
  inside calling waiting leaving stopped : Phase

-- Where a CPU stands in its loop: at its top, at the second call of `get_proc`, or at the recheck.
pub data Spot : Type 0 where
  top fetch recheck : Spot

-- The local variables of `cpu_routine`; `proc` is read as NULL from where its process has been
-- freed or put back to where it is assigned again.
pub record Cpu : Type 0 where
  pub phase : Phase
  pub spot : Spot
  pub proc : Option Pcb
  pub time_left : ℕ

-- What `read_config` left in the static variables, what a file holds and what `malloc` returns for
-- the process `i`.
pub record Config : Type 1 where
  pub time_slot : ℕ
  pub num_cpus : ℕ
  pub num_processes : ℕ
  pub path : ℕ → String
  pub start_time : ℕ → ℕ
  pub prio : ℕ → ℕ
  pub file : Type 0
  pub stdio : Stdio file
  pub blocks : ℕ → Blocks
  pub raw_mm : ℕ → Mm
  pub raw_vma : ℕ → VmArea
  pub raw_pgd : ℕ → ℕ → ℕ
  pub tlbsz : ℕ
  pub memramsz : ℕ
  pub memswpsz : ℕ → ℕ

abbrev pub lend : Shared → Pcb → Pcb
lend s p = record p { tlb = s.tlb; mram = s.mram; active_mswp = s.active_mswp }

abbrev pub take_back : Shared → Pcb → Shared
take_back s p = record s { tlb = p.tlb; mram = p.mram; active_mswp = p.active_mswp }

unfoldable pub run_shared : Shared → Pcb → Option (Shared × Pcb)
run_shared s p = run (lend s p) >>= λ r. some (take_back s r.1, r.1)

abbrev pub get_shared : Shared → Option Pcb × Shared
get_shared s = let (p, sched) = get_proc s.sched in (p, record s { sched = sched })

abbrev pub put_shared : Shared → Pcb → Option Shared
put_shared s p = put_proc (λ x. x.prio) s.sched p >>= λ sched. some (record s { sched = sched })

-- The three parts of the loop of `cpu_routine`.
unfoldable pub cpu_top : Shared → Cpu → Option (Shared × Cpu)
cpu_top s c = elim c.proc [
  | none ↦
      let (p, s1) = get_shared s in
      some (
        s1,
        record c {
          proc = p;
          phase = elim p [ none ↦ calling | some _ ↦ inside ];
          spot = elim p [ none ↦ top | some _ ↦ recheck ];
        },
      )
  | some p ↦
      let kept : Option (Shared × Cpu) =
        put_shared s p >>= λ s1. some (s1, record c { proc = none; spot = fetch }) in
      if p.pc == length p.code
      then some (s, record c { proc = none; time_left = 0; spot = fetch })
      else (if c.time_left == 0 then kept else some (s, record c { spot = recheck }))
]

unfoldable pub cpu_fetch : Shared → Cpu → Option (Shared × Cpu)
cpu_fetch s c = let (p, s1) = get_shared s in some (s1, record c { proc = p; spot = recheck })

unfoldable pub cpu_recheck : ℕ → Shared → Cpu → Option (Shared × Cpu)
cpu_recheck time_slot s c = elim c.proc [
  | none ↦ some (s, record c { phase = if s.done == 0 then calling else leaving; spot = top })
  | some p ↦
      (run_shared s p >>= λ r.
      let slots = if c.time_left == 0 then time_slot else c.time_left in
      some (
        r.0,
        record c {
          proc = some r.1;
          time_left = (slots + (2 ^ 32 - 1)) % 2 ^ 32;
          phase = calling;
          spot = top;
        },
      ))
]

unfoldable pub cpu_at : Spot → ℕ → Shared → Cpu → Option (Shared × Cpu)
cpu_at top time_slot s c = cpu_top s c
cpu_at fetch time_slot s c = cpu_fetch s c
cpu_at recheck time_slot s c = cpu_recheck time_slot s c

-- One step of `cpu_routine` of its own; `none` where it faults.
unfoldable pub cpu_routine : ℕ → Shared → Cpu → Option (Shared × Cpu)
cpu_routine time_slot s c = cpu_at c.spot time_slot s c

-- Where the loader stands: at the test of its loop, at the wait for the start time, or before
-- `add_proc`.
pub data LdSpot : Type 0 where
  loading await adding : LdSpot

pub record Ld : Type 0 where
  pub phase : Phase
  pub spot : LdSpot
  pub i : ℕ
  pub proc : Option Pcb

module _ (config : Config) where
  -- The head of the loop of `ld_routine` and the end after it. `none` where the program ends.
  unfoldable pub ld_loading : Shared → Ld → Option (Shared × Ld)
  ld_loading s l =
      let tlb = s.tlb in
      let loaded : Option (Shared × Ld) =
        elim (load config.stdio s.avail_pid (config.blocks l.i) (config.path l.i)) [
          | returns r ↦ some (
            record s { avail_pid = r.1 },
            record l {
              proc = some (record r.0 { tlb = tlb; prio = config.prio l.i % 2 ^ 32 });
              spot = await;
            },
          )
          | exits n ↦ none
          | faults ↦ none
        ] in
      if ltb l.i config.num_processes
      then loaded
      else some (record s { done = 1 }, record l { phase = leaving })

  unfoldable pub ld_await : ℕ → Ld → Ld
  ld_await time l =
      if ltb time (config.start_time l.i)
      then record l { phase = calling }
      else record l { spot = adding }

  unfoldable pub ld_adding : Shared → Ld → Option (Shared × Ld)
  ld_adding s l = elim l.proc [
    | none ↦ none
    | some p ↦
        let ready = record p {
          mm = init_mm (config.raw_mm l.i) (config.raw_vma l.i) (config.raw_pgd l.i);
          mram = s.mram;
          active_mswp = s.active_mswp;
        } in
        (add_proc (λ x. x.prio) s.sched ready >>= λ sched. some (
          record s { sched = sched },
          record l { proc = none; i = l.i + 1; phase = calling; spot = loading },
        ))
  ]

  unfoldable pub ld_at : LdSpot → ℕ → Shared → Ld → Option (Shared × Ld)
  ld_at loading time s l = ld_loading s l
  ld_at await time s l = some (s, ld_await time l)
  ld_at adding time s l = ld_adding s l

  -- One step of `ld_routine` of its own, at a time.
  unfoldable pub ld_routine : ℕ → Shared → Ld → Option (Shared × Ld)
  ld_routine time s l = ld_at l.spot time s l

-- The program while its threads run. `main` attaches the device `c` for CPU `c`, and the device
-- `num_cpus` for the loader.
pub record System : Type 0 where
  pub timer : Timer
  pub shared : Shared
  pub cpu : ℕ → Cpu
  pub ld : Ld

abbrev pub set_phase : System → ℕ → Phase → System
set_phase w c ph = record w { cpu = update w.cpu c (record (w.cpu c) { phase = ph }) }

abbrev pub set_ld : System → Phase → System
set_ld w ph = record w { ld = record w.ld { phase = ph } }

-- The steps: of the timer, of a CPU and of the loader on their own, and their moves against the
-- timer. `main` joins every CPU and the loader, and stops the timer.
pub data Step (config : Config) (w : System) : System → Type 0 where
  tick : {t : Timer} → timer_step w.timer ≡ some t → Step config w (record w { timer = t })
  cpu_runs :
      (c : ℕ) {s : Shared} {k : Cpu}
      → c < config.num_cpus
      → (w.cpu c).phase ≡ inside
      → cpu_routine config.time_slot w.shared (w.cpu c) ≡ some (s, k)
      → Step config w (record w { shared = s; cpu = update w.cpu c k })
  cpu_arrives :
      (c : ℕ)
      → c < config.num_cpus
      → (w.cpu c).phase ≡ calling
      → Step config w (set_phase (record w { timer = next_slot w.timer c }) c waiting)
  cpu_resumes :
      (c : ℕ)
      → c < config.num_cpus
      → (w.cpu c).phase ≡ waiting
      → released w.timer c ≡ true
      → Step config w (set_phase w c inside)
  cpu_leaves :
      (c : ℕ)
      → c < config.num_cpus
      → (w.cpu c).phase ≡ leaving
      → Step config w (set_phase (record w { timer = detach_event w.timer c }) c stopped)
  ld_runs :
      {s : Shared} {k : Ld}
      → w.ld.phase ≡ inside
      → ld_routine config (current_time w.timer) w.shared w.ld ≡ some (s, k)
      → Step config w (record w { shared = s; ld = k })
  ld_arrives :
      w.ld.phase ≡ calling
      → Step config w (set_ld (record w { timer = next_slot w.timer config.num_cpus }) waiting)
  ld_resumes :
      w.ld.phase ≡ waiting
      → released w.timer config.num_cpus ≡ true
      → Step config w (set_ld w inside)
  ld_leaves :
      w.ld.phase ≡ leaving
      → Step config w (set_ld (record w { timer = detach_event w.timer config.num_cpus }) stopped)
  stops :
      ((c : ℕ) → c < config.num_cpus → (w.cpu c).phase ≡ stopped)
      → w.ld.phase ≡ stopped
      → Step config w (record w { timer = stop_timer w.timer })

pub data Reach (config : Config) (w : System) : System → Type 0 where
  here : Reach config w w
  later : {u v : System} → Reach config w u → Step config u v → Reach config w v
