-- ===== src/Os/ReadConfig/Starts.antt =====
-- From the command line to the start of the threads.
use Prim.Native.String.{String, ◌++◌}
use hk232_assignment_os.Base.{ℕ, ◌≡◌, refl, true, ltb, some, List, [], ◌∷◌}
use hk232_assignment_os.Memphy.{init_memphy, format}
use hk232_assignment_os.Pcb.{Pcb}
use hk232_assignment_os.Sched.{Sched}
use hk232_assignment_os.Timer.World.{IsStart}
use hk232_assignment_os.Loader.{returns, strlen}
use hk232_assignment_os.Loader.RoundTrip.{Token, IsScanner}
use hk232_assignment_os.Os.{Config, System}
use hk232_assignment_os.Os.Refine.{Simulates}
use hk232_assignment_os.Os.Boot.{Raw, main, init_swaps, world, main-Simulates}
use hk232_assignment_os.Os.ReadConfig.{buffer, with_settings, main_args}
use hk232_assignment_os.Os.ReadConfig.Format.{Described, print_config, IsInRange}
use hk232_assignment_os.Os.ReadConfig.RoundTrip.{Says, configure-print_config}

-- `main` does not fault once it has its configuration.
main_total :
    (config : Config) (sched : Sched Pcb) (tlb ram : Raw) (swaps : ℕ → Raw)
    → (w : System) × (main config sched tlb ram swaps ≡ some w)
unfolding main init_memphy format init_swaps
main_total config sched tlb ram swaps = (_, refl)

-- `main` with one argument that fits in its buffer, on a file that holds the configuration `d`,
-- with numbers in range and names that fit, and with stdio functions that read the number or word
-- that comes next, starts its threads: they run with the time slot, CPUs, sizes and processes of
-- `d`, each process in its place, and a TLB of 2 ^ 16 bytes, and find the timer ready and
-- everyone at work in slot 0.
pub main_args-print_config :
    (config : Config) (Holds : config.file → List Token → Type 0) (arg : String) (d : Described)
    (f : config.file) (sched : Sched Pcb) (tlb ram : Raw) (swaps : ℕ → Raw)
    → IsScanner config.stdio Holds
    → ltb (strlen ("input/" ++ arg)) buffer ≡ true
    → IsInRange d
    → config.stdio.fopen ("input/" ++ arg) ≡ some f
    → Holds f (print_config d)
    → (c : Config) × (w : System) × (main_args config (arg ∷ []) sched tlb ram swaps
        ≡ returns (c, w))
      × Says d c
      × IsStart (world w)
      × Simulates c w (world w)
unfolding main_args
main_args-print_config config Holds arg d f sched tlb ram swaps laws fits b opened h =
    let (s, e, says) = configure-print_config config Holds arg d f laws fits b opened h in
    let c = with_settings config s in
    let (w, e') = main_total c sched tlb ram swaps in
    let (ready, simulates) = main-Simulates c sched tlb ram swaps w e' in
    (c, w, simp (main_args, e, e'), says, ready, simulates)
