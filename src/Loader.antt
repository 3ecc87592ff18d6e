-- ===== src/Loader.antt =====
-- src/loader.c: a process read from its description. The stdio functions that it calls are a
-- parameter. What `malloc` leaves in the blocks, and the buffer of ten characters, are arguments.
pub mod RoundTrip
pub mod Tokens
mod Tests
use Prim.Native.Char.{Char}
use Prim.Native.String.{String}
use text.Mathlib.Text.{◌==◌}
use hk232_assignment_os.Base
use hk232_assignment_os.Base.{
  ℕ, zero, suc, ◌+◌, ◌%◌, ◌^◌, Bool, ltb, if◌then◌else◌, Option, none, some, List, [], ◌∷◌, length,
  get_elem?,
}
use hk232_assignment_os.Pcb.{Opcode, Inst, Pcb}

-- What a call comes to: it returns, it ends the program by `exit`, or it is undefined.
pub data Outcome {ℓ} (A : Type ℓ) : Type ℓ where
  returns : A → Outcome A
  exits : ℕ → Outcome A
  faults : Outcome A

abbrev pub and_then {ℓ κ} : {A : Type ℓ} {B : Type κ} → Outcome A → (A → Outcome B) → Outcome B
and_then (returns a) f = f a
and_then (exits n) f = exits n
and_then faults f = faults

-- `fopen` for reading, and the directives `%u`, `%d`, `%lu`, `%s` and `\n` of `fscanf` on an open
-- stream `F`. `none` is a failure, which assigns nothing; a `%d` gives a 32-bit pattern.
pub record Stdio (F : Type 0) : Type 0 where
  pub fopen : String → Option F
  pub scan_u : F → Option ℕ × F
  pub scan_d : F → Option ℕ × F
  pub scan_lu : F → Option ℕ × F
  pub scan_s : F → Option String × F
  pub scan_space : F → F

abbrev pub strlen : String → ℕ
strlen String.[] = 0
strlen (String.◌∷◌ c s) = 1 + strlen s

unfoldable pub get_opcode : String → Outcome Opcode
get_opcode opt =
    if opt == "calc"
    then returns Opcode.calc
    else (if opt == "alloc"
        then returns Opcode.alloc
        else (if opt == "free"
            then returns Opcode.free
            else (if opt == "read"
                then returns Opcode.read
                else (if opt == "write" then returns Opcode.write else exits 1))))

-- The variable `k` of a `fscanf` that assigned `values`, and `old` if it got no value.
abbrev pub assigned : ℕ → List ℕ → ℕ → ℕ
assigned old [] k = old
assigned old (v ∷ values) zero = v
assigned old (v ∷ values) (suc k) = assigned old values k

-- The buffer after `%s`, which keeps what it held on a failure.
abbrev pub scanned : Option String → Option String → Option String
scanned none held = held
scanned (some w) held = some w

-- The block of the process, `size` of its code segment, and the array of instructions, as they
-- come from `malloc`.
pub record Blocks : Type 0 where
  pub proc : Pcb
  pub size : ℕ
  pub text : ℕ → Inst

module _ {F : Type 0} (io : Stdio F) where
  -- `fscanf` of `n` numbers, which stops at the first that fails.
  unfoldable pub numbers : ℕ → F → List ℕ × F
  numbers zero f = ([], f)
  numbers (suc n) f =
      let (value, f1) = io.scan_u f in
      let (values, f2) = numbers n f1 in elim value [ none ↦ ([], f1) | some v ↦ (v ∷ values, f2) ]

  -- The same with the directive `\n` at its end.
  unfoldable pub number_line : ℕ → F → List ℕ × F
  number_line n f =
      let (values, f1) = numbers n f in
      (values, if Base.◌==◌ (length values) n then io.scan_space f1 else f1)

  -- The `switch` on the opcode of an instruction.
  unfoldable pub load_args : Inst → F → Inst × F
  load_args ins f = elim ins.opcode [
    | Opcode.calc ↦ (ins, f)
    | Opcode.alloc ↦
        let (v, f1) = number_line 2 f in
        (record ins { arg_0 = assigned ins.arg_0 v 0; arg_1 = assigned ins.arg_1 v 1 }, f1)
    | Opcode.free ↦
        let (v, f1) = number_line 1 f in (record ins { arg_0 = assigned ins.arg_0 v 0 }, f1)
    | Opcode.read ↦ three
    | Opcode.write ↦ three
  ]
    where
      three : Inst × F
      three =
          let (v, f1) = number_line 3 f in
          (
            record ins {
              arg_0 = assigned ins.arg_0 v 0;
              arg_1 = assigned ins.arg_1 v 1;
              arg_2 = assigned ins.arg_2 v 2;
            },
            f1,
          )

  -- The `for` loop with its rounds left. `opcode` is the buffer, `none` while it is unset; a word
  -- of ten or more characters does not fit in it.
  unfoldable pub load_text : ℕ → ℕ → Option String → F → (ℕ → Inst) → Outcome (List Inst)
  load_text zero i opcode f text = returns []
  load_text (suc left) i opcode f text =
      let (word, f1) = io.scan_s f in
      elim (scanned word opcode) [
        | none ↦ faults
        | some w ↦
            let parsed = and_then (get_opcode w) (λ op.
              let (ins, f2) = load_args (record (text i) { opcode = op }) f1 in
              and_then (load_text left (i + 1) (some w) f2 text) (λ rest. returns (ins ∷ rest))) in
            if ltb (strlen w) 10 then parsed else faults
      ]

  -- The process, and the static `avail_pid`.
  unfoldable pub load : ℕ → Blocks → String → Outcome (Pcb × ℕ)
  load avail_pid raw path = elim (io.fopen path) [
    | none ↦ exits 1
    | some file ↦
        let (v, f1) = numbers 2 file in
        and_then (load_text (assigned raw.size v 1) 0 none f1 raw.text) (λ text. returns (
          record raw.proc {
            pid = avail_pid;
            bp = 2 ^ 10;
            pc = 0;
            priority = assigned raw.proc.priority v 0;
            code = text;
          },
          (avail_pid + 1) % 2 ^ 32,
        ))
  ]
