-- ===== src/Os/Placed.antt =====
-- Where each process is: in one place of one queue, on one CPU, or with the loader.
pub mod Queues
pub mod Moves
pub mod Everywhere
pub mod Steps
use hk232_assignment_os.Base.{ℕ, ◌+◌, ◌-◌, ◌<◌, ◌≤◌, ◌≡◌, ◌==◌, if◌then◌else◌, Option, none, some}
use hk232_assignment_os.Queue.{Queue}
use hk232_assignment_os.Pcb.{Pcb}
use hk232_assignment_os.Sched.{Sched, max_prio}
use hk232_assignment_os.Os.{Config, System, Cpu, Ld, LdSpot, loading, await, adding}

-- The place of a process number; `unused` for a number not given yet.
pub data Location : Type 0 where
  unused : Location
  loaded : Location
  queued : (prio index : ℕ) → Location
  on_cpu : ℕ → Location

-- Every entry of a queue is a process that has its place there.
abbrev pub InQueues : (ℕ → Queue Pcb) → (ℕ → Location) → Type 0
InQueues qs loc =
    (q i : ℕ)
    → q < max_prio
    → i < (qs q).size
    → (p : Pcb) × ((qs q).proc i ≡ some p) × (loc p.pid ≡ queued q i)

-- How many processes the loader holds.
abbrev pub held : LdSpot → ℕ
held loading = 0
held await = 1
held adding = 1

-- Every process in the program stands at its place.
pub record IsPlaced (config : Config) (w : System) (loc : ℕ → Location) : Type 0 where
  pub in_range : w.shared.sched.curr_prio < max_prio
  pub queues : InQueues w.shared.sched.mlq_ready_queue loc
  pub cpus :
      (c : ℕ) → c < config.num_cpus → (p : Pcb) → (w.cpu c).proc ≡ some p → loc p.pid ≡ on_cpu c
  pub loader : (p : Pcb) → w.ld.proc ≡ some p → loc p.pid ≡ loaded
  pub next_pid : w.shared.avail_pid ≡ w.ld.i + 1 + held w.ld.spot
  pub loads : w.ld.i + held w.ld.spot ≤ config.num_processes
  pub fresh : (d : ℕ) → w.shared.avail_pid ≤ d → loc d ≡ unused
