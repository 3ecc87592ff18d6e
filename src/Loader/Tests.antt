-- ===== src/Loader/Tests.antt =====
-- A description of four instructions, on a stream that is a list of tokens.
use hk232_assignment_os.Base.{◌≡◌, refl, List, [], ◌∷◌, length, arith}
use hk232_assignment_os.Pcb.{Opcode, Inst, Pcb}
use hk232_assignment_os.Sample.{process}
use hk232_assignment_os.Loader.{returns, exits, Stdio, Blocks, get_opcode, load}
use hk232_assignment_os.Loader.Tokens.{token_stdio, token_stdio-IsScanner}
use hk232_assignment_os.Loader.RoundTrip.{Token, num, print, load-print}

abbrev four : List Inst
four =
    record { opcode = Opcode.calc; arg_0 = 0; arg_1 = 0; arg_2 = 0 }
    ∷ record { opcode = Opcode.alloc; arg_0 = 300; arg_1 = 0; arg_2 = 0 }
    ∷ record { opcode = Opcode.write; arg_0 = 100; arg_1 = 1; arg_2 = 20 }
    ∷ record { opcode = Opcode.free; arg_0 = 0; arg_1 = 0; arg_2 = 0 }
    ∷ []

abbrev described : List Token
described = num 7 ∷ num 4 ∷ print four

abbrev stdio : Stdio (List Token)
stdio = token_stdio described

abbrev blocks : Blocks
blocks = record {
  proc = process;
  size = 0;
  text = λ i. record { opcode = Opcode.calc; arg_0 = 9; arg_1 = 9; arg_2 = 9 };
}

unknown_word : get_opcode "jump" ≡ exits 1
unfolding get_opcode
unknown_word = refl

load-print_example :
    (proc : Pcb) × (load stdio 1 blocks "input/proc/p0" ≡ returns (proc, 2))
    × (print proc.code ≡ print four)
    × (length proc.code ≡ 4)
    × (proc.pid ≡ 1)
    × (proc.pc ≡ 0)
    × (proc.priority ≡ 7)
load-print_example =
    load-print stdio (λ f ts. f ≡ ts) (token_stdio-IsScanner described) 1 blocks "input/proc/p0"
      described 7 four refl (omega arith) (omega arith)
      (
        tt,
        (
          (omega arith, (omega arith, tt)),
          ((omega arith, (omega arith, (omega arith, tt))), ((omega arith, tt), tt)),
        ),
      )
      refl
