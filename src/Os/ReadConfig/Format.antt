-- ===== src/Os/ReadConfig/Format.antt =====
-- What a configuration file says, and how it is written.
use Prim.Native.String.{String, ◌++◌}
use hk232_assignment_os.Base.{ℕ, ◌+◌, ◌^◌, ◌<◌, ◌≡◌, true, ltb, List, [], ◌∷◌, All, length, update}
use hk232_assignment_os.Loader.{strlen}
use hk232_assignment_os.Loader.RoundTrip.{Token, num, word, num_tokens}
use hk232_assignment_os.Os.ReadConfig.{LdArgs, buffer}

-- A line of a process: its start time, the name of its description and its priority.
pub record Line : Type 0 where
  pub start_time : ℕ
  pub name : String
  pub prio : ℕ

-- What a configuration file says.
pub record Described : Type 0 where
  pub time_slot : ℕ
  pub num_cpus : ℕ
  pub memramsz : ℕ
  pub swp0 : ℕ
  pub swp1 : ℕ
  pub swp2 : ℕ
  pub swp3 : ℕ
  pub lines : List Line

abbrev pub print_lines : List Line → List Token
print_lines [] = []
print_lines (l ∷ ls) = num l.start_time ∷ word l.name ∷ num l.prio ∷ print_lines ls

abbrev pub swap_sizes : Described → List ℕ
swap_sizes d = d.swp0 ∷ d.swp1 ∷ d.swp2 ∷ d.swp3 ∷ []

abbrev pub print_config : Described → List Token
print_config d =
    num d.time_slot
    ∷ num d.num_cpus
    ∷ num (length d.lines)
    ∷ num d.memramsz
    ∷ num_tokens (swap_sizes d) (print_lines d.lines)

-- The numbers are in range, and the path of the description fits in its buffer.
abbrev pub IsReadable : Line → Type 0
IsReadable l =
    (l.start_time < 2 ^ 64)
    × (l.prio < 2 ^ 64)
    × (ltb (strlen l.name) buffer ≡ true)
    × (ltb (strlen ("input/proc/" ++ l.name)) buffer ≡ true)

-- The numbers of a configuration are `int` values that are not negative.
pub record IsInRange (d : Described) : Type 0 where
  pub time_slot : d.time_slot < 2 ^ 31
  pub num_cpus : d.num_cpus < 2 ^ 31
  pub num_processes : length d.lines < 2 ^ 31
  pub memramsz : d.memramsz < 2 ^ 31
  pub swp0 : d.swp0 < 2 ^ 31
  pub swp1 : d.swp1 < 2 ^ 31
  pub swp2 : d.swp2 < 2 ^ 31
  pub swp3 : d.swp3 < 2 ^ 31
  pub lines : All IsReadable d.lines

-- The entries of the arrays from number `i` on are those of the lines.
abbrev pub Lists : ℕ → List Line → LdArgs → Type 0
Lists i [] ld = Unit
Lists i (l ∷ ls) ld =
    (ld.path i ≡ "input/proc/" ++ l.name)
    × (ld.start_time i ≡ l.start_time)
    × (ld.prio i ≡ l.prio)
    × Lists (i + 1) ls ld

-- The arrays with the line `l` at `i`.
abbrev pub with_line : ℕ → Line → LdArgs → LdArgs
with_line i l ld = record {
  path = update ld.path i ("input/proc/" ++ l.name);
  start_time = update ld.start_time i l.start_time;
  prio = update ld.prio i l.prio;
}

-- The array with the given values from number `i` on.
abbrev pub with_values : ℕ → List ℕ → (ℕ → ℕ) → ℕ → ℕ
with_values i [] old = old
with_values i (v ∷ vs) old = with_values (i + 1) vs (update old i v)

abbrev pub AreInts : List ℕ → Type 0
AreInts [] = Unit
AreInts (v ∷ vs) = (v < 2 ^ 31) × AreInts vs
