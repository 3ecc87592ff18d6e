-- ===== src/Loader/RoundTrip.antt =====
-- Reading a printed description gives a process that prints the same.
use Prim.Native.String.{String}
use hk232_assignment_os.Base
use hk232_assignment_os.Base.{
  ℕ, zero, suc, ◌+◌, ◌%◌, ◌^◌, ◌<◌, ◌≡◌, refl, ◌∙◌, ap, Bool, true, false, ltb, if◌then◌else◌,
  Option, none, some, List, [], ◌∷◌, ◌++◌, All, length, get_elem?, arith,
}
use hk232_assignment_os.Pcb.{Opcode, Inst, Pcb}
use hk232_assignment_os.Loader.{
  returns, Stdio, strlen, get_opcode, Blocks, numbers, number_line, load_args, load_text, load,
}

-- What stands in a description, between white space.
pub data Token : Type 0 where
  num : ℕ → Token
  word : String → Token

abbrev pub keyword : Opcode → String
keyword Opcode.calc = "calc"
keyword Opcode.alloc = "alloc"
keyword Opcode.free = "free"
keyword Opcode.read = "read"
keyword Opcode.write = "write"

-- The arguments that an instruction is written with.
abbrev pub operands : Opcode → Inst → List ℕ
operands Opcode.calc ins = []
operands Opcode.alloc ins = ins.arg_0 ∷ ins.arg_1 ∷ []
operands Opcode.free ins = ins.arg_0 ∷ []
operands Opcode.read ins = ins.arg_0 ∷ ins.arg_1 ∷ ins.arg_2 ∷ []
operands Opcode.write ins = ins.arg_0 ∷ ins.arg_1 ∷ ins.arg_2 ∷ []

abbrev pub num_tokens : List ℕ → List Token → List Token
num_tokens [] rest = rest
num_tokens (v ∷ vs) rest = num v ∷ num_tokens vs rest

abbrev pub print : List Inst → List Token
print [] = []
print (ins ∷ code) = word (keyword ins.opcode) ∷ num_tokens (operands ins.opcode ins) (print code)

-- Every argument written is an `unsigned int`.
abbrev pub AreWords : List ℕ → Type 0
AreWords [] = Unit
AreWords (v ∷ vs) = (v < 2 ^ 32) × AreWords vs

abbrev pub IsPrintable : List Inst → Type 0
IsPrintable [] = Unit
IsPrintable (ins ∷ code) = AreWords (operands ins.opcode ins) × IsPrintable code

-- `fscanf` on a stream that still holds the given tokens.
pub record IsScanner {F : Type 0} (io : Stdio F) (Holds : F → List Token → Type 0) : Type 0 where
  pub reads_num :
      (f : F) (v : ℕ) (ts : List Token)
      → v < 2 ^ 32
      → Holds f (num v ∷ ts)
      → (f' : F) × (io.scan_u f ≡ (some v, f')) × Holds f' ts
  pub reads_int :
      (f : F) (v : ℕ) (ts : List Token)
      → v < 2 ^ 31
      → Holds f (num v ∷ ts)
      → (f' : F) × (io.scan_d f ≡ (some v, f')) × Holds f' ts
  pub reads_ulong :
      (f : F) (v : ℕ) (ts : List Token)
      → v < 2 ^ 64
      → Holds f (num v ∷ ts)
      → (f' : F) × (io.scan_lu f ≡ (some v, f')) × Holds f' ts
  pub reads_word :
      (f : F) (w : String) (ts : List Token)
      → Holds f (word w ∷ ts)
      → (f' : F) × (io.scan_s f ≡ (some w, f')) × Holds f' ts
  pub skips : (f : F) (ts : List Token) → Holds f ts → Holds (io.scan_space f) ts

get_opcode-keyword : (op : Opcode) → get_opcode (keyword op) ≡ returns op
unfolding get_opcode
get_opcode-keyword Opcode.calc = refl
get_opcode-keyword Opcode.alloc = refl
get_opcode-keyword Opcode.free = refl
get_opcode-keyword Opcode.read = refl
get_opcode-keyword Opcode.write = refl

keyword_fits : (op : Opcode) → ltb (strlen (keyword op)) 10 ≡ true
keyword_fits Opcode.calc = refl
keyword_fits Opcode.alloc = refl
keyword_fits Opcode.free = refl
keyword_fits Opcode.read = refl
keyword_fits Opcode.write = refl

module _ {F : Type 0} (io : Stdio F) (Holds : F → List Token → Type 0)
    (laws : IsScanner io Holds) where
  numbers_nums :
      (vs : List ℕ) (ts : List Token) (f : F)
      → AreWords vs
      → Holds f (num_tokens vs ts)
      → (f' : F) × (numbers io (length vs) f ≡ (vs, f')) × Holds f' ts
  unfolding numbers
  numbers_nums [] ts f b h = (f, refl, h)
  numbers_nums (v ∷ vs) ts f b h =
      let (f1, e1, h1) = laws.reads_num f v (num_tokens vs ts) b.0 h in
      let (f2, e2, h2) = numbers_nums vs ts f1 b.1 h1 in (f2, simp (e1, e2), h2)

  line_nums :
      (vs : List ℕ) (ts : List Token) (f : F)
      → AreWords vs
      → Holds f (num_tokens vs ts)
      → (f' : F) × (number_line io (length vs) f ≡ (vs, f')) × Holds f' ts
  unfolding number_line
  line_nums vs ts f b h =
      let (f1, e1, h1) = numbers_nums vs ts f b h in
      let same : Base.◌==◌ (length vs) (length vs) ≡ true = ground arith in
      (io.scan_space f1, rw (e1, same) refl, laws.skips f1 ts h1)

  -- The arguments are read over what the block held.
  load_args-operands :
      (op : Opcode) (ins old : Inst) (ts : List Token) (f : F)
      → AreWords (operands op ins)
      → Holds f (num_tokens (operands op ins) ts)
      → (new : Inst) × (f' : F) × (load_args io (record old { opcode = op }) f ≡ (new, f'))
        × (new.opcode ≡ op)
        × (operands op new ≡ operands op ins)
        × Holds f' ts
  unfolding load_args
  load_args-operands Opcode.calc ins old ts f b h =
      (record old { opcode = Opcode.calc }, f, refl, refl, refl, h)
  load_args-operands Opcode.alloc ins old ts f b h =
      let (f1, e, h1) = line_nums (operands Opcode.alloc ins) ts f b h in
      (
        record old { opcode = Opcode.alloc; arg_0 = ins.arg_0; arg_1 = ins.arg_1 },
        f1,
        rw e refl,
        refl,
        refl,
        h1,
      )
  load_args-operands Opcode.free ins old ts f b h =
      let (f1, e, h1) = line_nums (operands Opcode.free ins) ts f b h in
      (record old { opcode = Opcode.free; arg_0 = ins.arg_0 }, f1, rw e refl, refl, refl, h1)
  load_args-operands Opcode.read ins old ts f b h =
      let (f1, e, h1) = line_nums (operands Opcode.read ins) ts f b h in
      (
        record old {
          opcode = Opcode.read;
          arg_0 = ins.arg_0;
          arg_1 = ins.arg_1;
          arg_2 = ins.arg_2;
        },
        f1,
        rw e refl,
        refl,
        refl,
        h1,
      )
  load_args-operands Opcode.write ins old ts f b h =
      let (f1, e, h1) = line_nums (operands Opcode.write ins) ts f b h in
      (
        record old {
          opcode = Opcode.write;
          arg_0 = ins.arg_0;
          arg_1 = ins.arg_1;
          arg_2 = ins.arg_2;
        },
        f1,
        rw e refl,
        refl,
        refl,
        h1,
      )

  load_text_step :
      (left i : ℕ) (buffer : Option String) (f f1 f2 : F) (text : ℕ → Inst) (w : String)
      (op : Opcode) (ins : Inst) (rest : List Inst)
      → io.scan_s f ≡ (some w, f1)
      → ltb (strlen w) 10 ≡ true
      → get_opcode w ≡ returns op
      → load_args io (record (text i) { opcode = op }) f1 ≡ (ins, f2)
      → load_text io left (i + 1) (some w) f2 text ≡ returns rest
      → load_text io (suc left) i buffer f text ≡ returns (ins ∷ rest)
  unfolding load_text
  load_text_step left i buffer f f1 f2 text w op ins rest e1 short e2 e3 e4 =
      simp (load_text, e1, short, e2, e3, e4)

  load_text-print :
      (code : List Inst) (i : ℕ) (buffer : Option String) (f : F) (text : ℕ → Inst)
      → IsPrintable code
      → Holds f (print code)
      → (code' : List Inst) × (load_text io (length code) i buffer f text ≡ returns code')
        × (print code' ≡ print code)
        × (length code' ≡ length code)
  unfolding load_text
  load_text-print [] i buffer f text b h = ([], refl, refl, refl)
  load_text-print (ins ∷ code) i buffer f text b h =
      let op = ins.opcode in
      let (f1, e1, h1) =
        laws.reads_word f (keyword op) (num_tokens (operands op ins) (print code)) h in
      let (new, f2, e2, o, a, h2) = load_args-operands op ins (text i) (print code) f1 b.0 h1 in
      let (code', e3, p, n) = load_text-print code (i + 1) (some (keyword op)) f2 text b.1 h2 in
      (
        new ∷ code',
        load_text_step _ _ _ _ _ _ _ _ _ _ _ e1 (keyword_fits op) (get_opcode-keyword op) e2 e3,
        rw (o, a, p) refl,
        ap suc n,
      )

  -- On a stream that holds the description of a program, as a priority, a number of instructions
  -- and the instructions, with every number below 2 ^ 32, and with stdio functions that read the
  -- number or word that comes next, `load` succeeds: the process starts at its first instruction
  -- under the next process number, has that priority, and its code prints the same.
  pub load-print :
      (avail_pid : ℕ) (raw : Blocks) (path : String) (f : F) (priority : ℕ) (code : List Inst)
      → io.fopen path ≡ some f
      → priority < 2 ^ 32
      → length code < 2 ^ 32
      → IsPrintable code
      → Holds f (num priority ∷ num (length code) ∷ print code)
      → (proc : Pcb) × (load io avail_pid raw path ≡ returns (proc, (avail_pid + 1) % 2 ^ 32))
        × (print proc.code ≡ print code)
        × (length proc.code ≡ length code)
        × (proc.pid ≡ avail_pid)
        × (proc.pc ≡ 0)
        × (proc.priority ≡ priority)
  unfolding load
  load-print avail_pid raw path f priority code opened bp bl b h =
      let (f1, e1, h1) =
        numbers_nums (priority ∷ length code ∷ []) (print code) f (bp, (bl, tt)) h in
      let (code', e2, p, n) = load_text-print code 0 none f1 raw.text b h1 in
      (
        record raw.proc { pid = avail_pid; bp = 2 ^ 10; pc = 0; priority = priority; code = code' },
        rw (load, opened, e1, e2) refl,
        p,
        n,
        refl,
        refl,
        refl,
      )
