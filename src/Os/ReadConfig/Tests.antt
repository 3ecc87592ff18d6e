-- ===== src/Os/ReadConfig/Tests.antt =====
-- A configuration of two processes, on a stream that is a list of tokens.
use hk232_assignment_os.Base.{none, ◌≡◌, refl, List, [], ◌∷◌, arith}
use hk232_assignment_os.Queue.{Queue}
use hk232_assignment_os.Sched.{Sched}
use hk232_assignment_os.Timer.World.{IsStart}
use hk232_assignment_os.Os.{System}
use hk232_assignment_os.Os.Refine.{Simulates}
use hk232_assignment_os.Os.Boot.{Raw, world}
use hk232_assignment_os.Os.ReadConfig.{main_args}
use hk232_assignment_os.Os.ReadConfig.Starts.{main_args-print_config}
use hk232_assignment_os.Sample.{ram, process, memory, area}
use hk232_assignment_os.Pcb.{Opcode, Pcb}
use hk232_assignment_os.Loader.{returns, exits, faults}
use hk232_assignment_os.Loader.RoundTrip.{Token, num}
use hk232_assignment_os.Loader.Tokens.{token_stdio, token_stdio-IsScanner}
use hk232_assignment_os.Os.{Config}
use hk232_assignment_os.Os.ReadConfig.{
  configure, read_config, read_first, read_sizes, read_swaps, read_process, read_processes,
}
use hk232_assignment_os.Os.ReadConfig.Format.{Described, print_config, IsInRange}
use hk232_assignment_os.Os.ReadConfig.RoundTrip.{Says}

abbrev two : Described
two = record {
  time_slot = 2;
  num_cpus = 1;
  memramsz = 1024;
  swp0 = 16384;
  swp1 = 0;
  swp2 = 0;
  swp3 = 0;
  lines =
      record { start_time = 1; name = "p0s"; prio = 130 }
      ∷ record { start_time = 2; name = "p1s"; prio = 39 }
      ∷ [];
}

-- The program with a given configuration file.
abbrev config : List Token → Config
config file = record {
  time_slot = 0;
  num_cpus = 0;
  num_processes = 0;
  path = λ i. "";
  start_time = λ i. 77;
  prio = λ i. 78;
  file = List Token;
  stdio = token_stdio file;
  blocks = λ i. record {
    proc = process;
    size = 0;
    text = λ k. record { opcode = Opcode.calc; arg_0 = 0; arg_1 = 0; arg_2 = 0 };
  };
  raw_mm = λ i. memory;
  raw_vma = λ i. area;
  raw_pgd = λ i k. 0;
  tlbsz = 0;
  memramsz = 0;
  memswpsz = λ sit. 0;
}

no_argument : configure (config []) [] ≡ exits 1
unfolding configure
no_argument = refl

-- The file ends before its second process: an unset buffer is read.
truncated :
    configure
      (config (num 2 ∷ num 1 ∷ num 1 ∷ num 1024 ∷ num 0 ∷ num 0 ∷ num 0 ∷ num 0 ∷ num 3 ∷ []))
      ("os_0" ∷ [])
    ≡ faults
unfolding configure read_config read_first read_sizes read_swaps read_process read_processes
truncated = refl

two-IsInRange : IsInRange two
two-IsInRange = record {
  time_slot = omega arith;
  num_cpus = omega arith;
  num_processes = omega arith;
  memramsz = omega arith;
  swp0 = omega arith;
  swp1 = omega arith;
  swp2 = omega arith;
  swp3 = omega arith;
  lines = ((omega arith, omega arith, refl, refl), ((omega arith, omega arith, refl, refl), tt));
}

abbrev raw : Raw
raw = record { device = ram; storage = λ i. 0; garbage = [] }

abbrev no_process : Queue Pcb
no_process = record { proc = λ i. none; size = 0 }

abbrev static_sched : Sched Pcb
static_sched = record {
  ready_queue = no_process;
  run_queue = no_process;
  mlq_ready_queue = λ q. no_process;
  curr_prio = 0;
  slot_left = 140;
}

main_args-print_config_example :
    (c : Config) × (w : System) × (main_args
        (config (print_config two))
        ("os_0" ∷ [])
        static_sched
        raw
        raw
        (λ sit. raw)
      ≡ returns (c, w))
    × Says two c
    × IsStart (world w)
    × Simulates c w (world w)
main_args-print_config_example =
    main_args-print_config (config (print_config two)) (λ f ts. f ≡ ts) "os_0" two
      (print_config two) static_sched raw raw (λ sit. raw)
      (token_stdio-IsScanner (print_config two)) refl two-IsInRange refl refl
