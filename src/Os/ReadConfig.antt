-- ===== src/Os/ReadConfig.antt =====
-- `read_config` of src/os.c, which fills the static variables from the configuration file, and the
-- part of `main` before it. The stdio functions are those of the loader. `malloc` does not fail,
-- and what it leaves in the blocks is an argument; the local buffers start unset.
pub mod Format
pub mod RoundTrip
pub mod Starts
mod Tests
use Prim.Native.String.{String, ◌++◌}
use hk232_assignment_os.Base.{
  ℕ, zero, suc, ◌+◌, ◌^◌, Bool, ◌&&◌, ltb, if◌then◌else◌, Option, none, some, List, [], ◌∷◌, update,
}
use hk232_assignment_os.Paging.{is_neg}
use hk232_assignment_os.Loader.{Outcome, returns, exits, faults, and_then, Stdio, strlen}
use hk232_assignment_os.Os.{Config, System}
use hk232_assignment_os.Os.Boot.{Raw, max_mmswp, main}
use hk232_assignment_os.Sched.{Sched}
use hk232_assignment_os.Pcb.{Pcb}

-- `struct ld_args`, its three arrays.
pub record LdArgs : Type 0 where
  pub path : ℕ → String
  pub start_time : ℕ → ℕ
  pub prio : ℕ → ℕ

-- The static variables that `read_config` assigns.
pub record Settings : Type 0 where
  pub time_slot : ℕ
  pub num_cpus : ℕ
  pub num_processes : ℕ
  pub ld_processes : LdArgs
  pub tlbsz : ℕ
  pub memramsz : ℕ
  pub memswpsz : ℕ → ℕ

-- A variable after a directive that may have failed.
abbrev pub assign : Option ℕ → ℕ → ℕ
assign none old = old
assign (some v) old = v

-- The sizes of the local buffer `proc` and of each path.
abbrev pub buffer : ℕ
buffer = 100

module _ {F : Type 0} (io : Stdio F) where
  -- The directive `\n`, which is reached if the one before it has not failed.
  abbrev pub space_after : Option ℕ → F → F
  space_after none f = f
  space_after (some v) f = io.scan_space f

  -- One line of a process. Without a start time or a name `strcat` reads the unset buffer.
  unfoldable pub read_process : ℕ → LdArgs → F → Outcome (LdArgs × F)
  read_process i ld f =
      let (start, f1) = io.scan_lu f in
      elim start [
        | none ↦ faults
        | some t ↦
            let (word, f2) = io.scan_s f1 in
            elim word [
              | none ↦ faults
              | some proc ↦
                  let (prio, f3) = io.scan_lu f2 in
                  let path = "input/proc/" ++ proc in
                  let read : LdArgs × F = (
                    record {
                      path = update ld.path i path;
                      start_time = update ld.start_time i t;
                      prio = update ld.prio i (assign prio (ld.prio i));
                    },
                    space_after prio f3,
                  ) in
                  if ltb (strlen proc) buffer && ltb (strlen path) buffer
                  then returns read
                  else faults
            ]
      ]

  -- The loop over the processes, with its rounds left.
  unfoldable pub read_processes : ℕ → ℕ → LdArgs → F → Outcome LdArgs
  read_processes zero i ld f = returns ld
  read_processes (suc left) i ld f =
      and_then (read_process i ld f) (λ r. read_processes left (i + 1) r.0 r.1)

  -- `fscanf` of three numbers, which stops at the first that fails.
  unfoldable pub read_first : Settings → F → Settings × F
  read_first s f =
      let (a, f1) = io.scan_d f in
      let (b, f2) = io.scan_d f1 in
      let (c, f3) = io.scan_d f2 in
      elim a [
        | none ↦ (s, f1)
        | some time_slot ↦ elim b [
          | none ↦ (record s { time_slot = time_slot }, f2)
          | some num_cpus ↦ (
            record s {
              time_slot = time_slot;
              num_cpus = num_cpus;
              num_processes = assign c s.num_processes;
            },
            space_after c f3,
          )
        ]
      ]

  -- The loop over the swap devices, with its rounds left.
  unfoldable pub read_swaps : ℕ → ℕ → (ℕ → ℕ) → F → (ℕ → ℕ) × F
  read_swaps zero sit memswpsz f = (memswpsz, f)
  read_swaps (suc left) sit memswpsz f =
      let (size, f1) = io.scan_d f in
      read_swaps left (sit + 1) (update memswpsz sit (assign size (memswpsz sit))) f1

  -- The sizes of the devices; `CPUTLB_FIXED_TLBSZ` is defined and `MM_FIXED_MEMSZ` is not.
  unfoldable pub read_sizes : Settings → F → Settings × F
  read_sizes s f =
      let (size, f1) = io.scan_d f in
      let f2 = space_after size f1 in
      let (memswpsz, f3) = read_swaps max_mmswp 0 s.memswpsz f2 in
      (
        record s { tlbsz = 2 ^ 16; memramsz = assign size s.memramsz; memswpsz = memswpsz },
        io.scan_space f3,
      )

  -- `s` holds the variables as the program starts and `raw` what `malloc` leaves in the arrays.
  unfoldable pub read_config : Settings → LdArgs → String → Outcome Settings
  read_config s raw path = elim (io.fopen path) [
    | none ↦ exits 1
    | some file ↦
        let (s1, f1) = read_first s file in
        let (s2, f2) = read_sizes s1 f1 in
        let rounds : ℕ = if is_neg s2.num_processes then 0 else s2.num_processes in
        and_then (read_processes rounds 0 raw f2) (λ ld. returns (record s2 { ld_processes = ld }))
  ]

-- The static variables before they are assigned, which are zero.
abbrev pub unset : LdArgs → Settings
unset null = record {
  time_slot = 0;
  num_cpus = 0;
  num_processes = 0;
  ld_processes = null;
  tlbsz = 0;
  memramsz = 0;
  memswpsz = λ sit. 0;
}

-- What the threads run with once the variables have the values `s`.
abbrev pub with_settings : Config → Settings → Config
with_settings config s = record config {
  time_slot = s.time_slot;
  num_cpus = s.num_cpus;
  num_processes = s.num_processes;
  path = s.ld_processes.path;
  start_time = s.ld_processes.start_time;
  prio = s.ld_processes.prio;
  tlbsz = s.tlbsz;
  memramsz = s.memramsz;
  memswpsz = s.memswpsz;
}

-- `main` up to the end of `read_config`, on its arguments after the name of the program. In
-- `config` the arrays are what `malloc` leaves in them.
unfoldable pub configure : Config → List String → Outcome Config
configure config [] = exits 1
configure config (arg ∷ []) =
    let raw : LdArgs = record {
      path = config.path;
      start_time = config.start_time;
      prio = config.prio;
    } in
    let path = "input/" ++ arg in
    let read =
      and_then (read_config config.stdio (unset raw) raw path)
        (λ s. returns (with_settings config s)) in
    if ltb (strlen path) buffer then read else faults
configure config (arg ∷ next ∷ rest) = exits 1

abbrev pub defined : {A : Type 0} → Option A → Outcome A
defined none = faults
defined (some a) = returns a

-- `main` from its start to where it waits for its threads, with what they run with.
unfoldable pub main_args :
    Config → List String → Sched Pcb → Raw → Raw → (ℕ → Raw) → Outcome (Config × System)
main_args config args sched tlb ram swaps =
    and_then (configure config args)
      (λ c. and_then (defined (main c sched tlb ram swaps)) (λ w. returns (c, w)))
