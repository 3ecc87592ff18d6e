-- ===== src/Os/ReadConfig/RoundTrip.antt =====
-- `read_config` on a file that is written as in Format.
use Prim.Native.String.{String, ◌++◌}
use hk232_assignment_os.Base.{
  ℕ, ◌+◌, ◌^◌, ◌<◌, ◌≡◌, refl, ◌∙◌, ap, true, false, ltb, some, List, [], ◌∷◌, All, length, update,
  arith,
}
use hk232_assignment_os.Paging.{is_neg}
use hk232_assignment_os.Loader.{returns, Stdio, strlen}
use hk232_assignment_os.Loader.RoundTrip.{Token, num, word, num_tokens, IsScanner}
use hk232_assignment_os.Os.{Config}
use hk232_assignment_os.Os.Boot.{max_mmswp}
use hk232_assignment_os.Os.ReadConfig.{
  LdArgs, Settings, assign, buffer, unset, read_process, read_processes, read_first, read_swaps,
  read_sizes, read_config, configure, with_settings,
}
use hk232_assignment_os.Os.ReadConfig.Format.{
  Line, Described, print_lines, swap_sizes, print_config, IsReadable, IsInRange, Lists, with_line,
  with_values, AreInts,
}

module _ {F : Type 0} (io : Stdio F) (Holds : F → List Token → Type 0)
    (laws : IsScanner io Holds) where
  read_process-line :
      (i : ℕ) (l : Line) (ts : List Token) (ld : LdArgs) (f : F)
      → IsReadable l
      → Holds f (num l.start_time ∷ word l.name ∷ num l.prio ∷ ts)
      → (f' : F) × (read_process io i ld f ≡ returns (with_line i l ld, f')) × Holds f' ts
  unfolding read_process
  read_process-line i l ts ld f (b1, b2, s1, s2) h =
      let (f1, e1, h1) = laws.reads_ulong f l.start_time (word l.name ∷ num l.prio ∷ ts) b1 h in
      let (f2, e2, h2) = laws.reads_word f1 l.name (num l.prio ∷ ts) h1 in
      let (f3, e3, h3) = laws.reads_ulong f2 l.prio ts b2 h2 in
      (io.scan_space f3, simp (read_process, e1, e2, e3, s1, s2), laws.skips f3 ts h3)

  -- The lines are read in order, and what stood below the first stays.
  read_processes-print_lines :
      (ls : List Line) (i : ℕ) (ld : LdArgs) (f : F)
      → All IsReadable ls
      → Holds f (print_lines ls)
      → (ld' : LdArgs) × (read_processes io (length ls) i ld f ≡ returns ld')
        × Lists i ls ld'
        × ((k : ℕ)
            → k < i
            → (ld'.path k ≡ ld.path k)
              × (ld'.start_time k ≡ ld.start_time k)
              × (ld'.prio k ≡ ld.prio k))
  unfolding read_processes
  read_processes-print_lines [] i ld f b h = (ld, refl, tt, (λ k lt. (refl, refl, refl)))
  read_processes-print_lines (l ∷ ls) i ld f b h =
      let (f1, e1, h1) = read_process-line i l (print_lines ls) ld f b.0 h in
      let (ld', e2, later, below) =
        read_processes-print_lines ls (i + 1) (with_line i l ld) f1 b.1 h1 in
      let (p, s, r) = below i (omega arith) in
      (
        ld',
        rw e1 e2,
        (ground (arith, p), ground (arith, s), ground (arith, r), later),
        (λ k lt. ground (arith, below k)),
      )

  read_first-print :
      (a b c : ℕ) (ts : List Token) (s : Settings) (f : F)
      → a < 2 ^ 31
      → b < 2 ^ 31
      → c < 2 ^ 31
      → Holds f (num a ∷ num b ∷ num c ∷ ts)
      → (f' : F) × (read_first io s f
          ≡ (record s { time_slot = a; num_cpus = b; num_processes = c }, f'))
        × Holds f' ts
  unfolding read_first
  read_first-print a b c ts s f ba bb bc h =
      let (f1, e1, h1) = laws.reads_int f a (num b ∷ num c ∷ ts) ba h in
      let (f2, e2, h2) = laws.reads_int f1 b (num c ∷ ts) bb h1 in
      let (f3, e3, h3) = laws.reads_int f2 c ts bc h2 in
      (io.scan_space f3, simp (read_first, e1, e2, e3), laws.skips f3 ts h3)

  read_swaps-num_tokens :
      (vs : List ℕ) (ts : List Token) (i : ℕ) (old : ℕ → ℕ) (f : F)
      → AreInts vs
      → Holds f (num_tokens vs ts)
      → (f' : F) × (read_swaps io (length vs) i old f ≡ (with_values i vs old, f')) × Holds f' ts
  unfolding read_swaps
  read_swaps-num_tokens [] ts i old f b h = (f, refl, h)
  read_swaps-num_tokens (v ∷ vs) ts i old f b h =
      let (f1, e1, h1) = laws.reads_int f v (num_tokens vs ts) b.0 h in
      let (f2, e2, h2) = read_swaps-num_tokens vs ts (i + 1) (update old i v) f1 b.1 h1 in
      (
        f2,
        ap (λ r. read_swaps io (length vs) (i + 1) (update old i (assign r.0 (old i))) r.1) e1 ∙ e2,
        h2,
      )

  read_sizes-print :
      (ram : ℕ) (vs : List ℕ) (ts : List Token) (s : Settings) (f : F)
      → ram < 2 ^ 31
      → AreInts vs
      → length vs ≡ max_mmswp
      → Holds f (num ram ∷ num_tokens vs ts)
      → (f' : F) × (read_sizes io s f ≡ (
        record s { tlbsz = 2 ^ 16; memramsz = ram; memswpsz = with_values 0 vs s.memswpsz },
        f',
      ))
        × Holds f' ts
  unfolding read_sizes
  read_sizes-print ram vs ts s f br bs n h =
      let (f1, e1, h1) = laws.reads_int f ram (num_tokens vs ts) br h in
      let (f3, e3, h3) =
        read_swaps-num_tokens vs ts 0 s.memswpsz (io.scan_space f1) bs
          (laws.skips f1 (num_tokens vs ts) h1) in
      (io.scan_space f3, simp (read_sizes, e1, (rw n at e3)), laws.skips f3 ts h3)

  -- The settings that a configuration stands for.
  read_config-print :
      (d : Described) (start : Settings) (raw : LdArgs) (path : String) (f : F)
      → IsInRange d
      → io.fopen path ≡ some f
      → Holds f (print_config d)
      → (ld : LdArgs) × (read_config io start raw path
          ≡ returns (record {
            time_slot = d.time_slot;
            num_cpus = d.num_cpus;
            num_processes = length d.lines;
            ld_processes = ld;
            tlbsz = 2 ^ 16;
            memramsz = d.memramsz;
            memswpsz = with_values 0 (swap_sizes d) start.memswpsz;
          }))
        × Lists 0 d.lines ld
  unfolding read_config
  read_config-print d start raw path f b opened h =
      let sizes = swap_sizes d in
      let (f1, e1, h1) =
        read_first-print d.time_slot d.num_cpus (length d.lines)
          (num d.memramsz ∷ num_tokens sizes (print_lines d.lines)) start f b.time_slot b.num_cpus
          b.num_processes h in
      let read = record start {
        time_slot = d.time_slot;
        num_cpus = d.num_cpus;
        num_processes = length d.lines;
      } in
      let (f2, e2, h2) =
        read_sizes-print d.memramsz sizes (print_lines d.lines) read f1 b.memramsz
          (b.swp0, (b.swp1, (b.swp2, (b.swp3, tt)))) refl h1 in
      let (ld, e3, listed, _) = read_processes-print_lines d.lines 0 raw f2 b.lines h2 in
      let pos : is_neg (length d.lines) ≡ false = ground (arith, b.num_processes) in
      (ld, simp (read_config, opened, e1, e2, pos, e3), listed)

-- What `main` runs with after it has read the configuration `d`.
pub record Says (d : Described) (config : Config) : Type 0 where
  pub time_slot : config.time_slot ≡ d.time_slot
  pub num_cpus : config.num_cpus ≡ d.num_cpus
  pub num_processes : config.num_processes ≡ length d.lines
  pub tlbsz : config.tlbsz ≡ 2 ^ 16
  pub memramsz : config.memramsz ≡ d.memramsz
  pub swp0 : config.memswpsz 0 ≡ d.swp0
  pub swp1 : config.memswpsz 1 ≡ d.swp1
  pub swp2 : config.memswpsz 2 ≡ d.swp2
  pub swp3 : config.memswpsz 3 ≡ d.swp3
  pub processes :
      Lists 0 d.lines
        (record { path = config.path; start_time = config.start_time; prio = config.prio })

-- With one argument that fits in its buffer, on a file that holds the configuration `d`, with
-- numbers in range and names that fit, and with stdio functions that read the number or word that
-- comes next, `main` gets through `read_config`: time slot, CPUs, sizes and processes are those
-- of `d`, each process in its place, and the TLB has 2 ^ 16 bytes. Nothing else is changed.
pub configure-print_config :
    (config : Config) (Holds : config.file → List Token → Type 0) (arg : String) (d : Described)
    (f : config.file)
    → IsScanner config.stdio Holds
    → ltb (strlen ("input/" ++ arg)) buffer ≡ true
    → IsInRange d
    → config.stdio.fopen ("input/" ++ arg) ≡ some f
    → Holds f (print_config d)
    → (s : Settings) × (configure config (arg ∷ []) ≡ returns (with_settings config s))
      × Says d (with_settings config s)
unfolding configure
configure-print_config config Holds arg d f laws fits b opened h =
    let raw : LdArgs = record {
      path = config.path;
      start_time = config.start_time;
      prio = config.prio;
    } in
    let (ld, e, listed) =
      read_config-print config.stdio Holds laws d (unset raw) raw ("input/" ++ arg) f b opened h in
    (
      record {
        time_slot = d.time_slot;
        num_cpus = d.num_cpus;
        num_processes = length d.lines;
        ld_processes = ld;
        tlbsz = 2 ^ 16;
        memramsz = d.memramsz;
        memswpsz = with_values 0 (swap_sizes d) (λ sit. 0);
      },
      simp (configure, fits, e),
      record {
        time_slot = refl;
        num_cpus = refl;
        num_processes = refl;
        tlbsz = refl;
        memramsz = refl;
        swp0 = refl;
        swp1 = refl;
        swp2 = refl;
        swp3 = refl;
        processes = listed;
      },
    )
