-- ===== src/Base/Output.antt =====
-- What the program prints: the calls of `printf`, each with its format and the numbers it is given.
use Prim.Native.Nat.{ℕ}
use Prim.Native.String.{String}
use mathlib.Core.List.{List}

pub record Printed : Type 0 where
  pub format : String
  pub numbers : List ℕ

abbrev pub printf : String → List ℕ → Printed
printf format numbers = record { format = format; numbers = numbers }
