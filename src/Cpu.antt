-- ===== src/Cpu.antt =====
-- src/cpu.c: one instruction of a process, with CPU_TLB as in include/os-cfg.h. `none` is a fault.
pub mod Keeping
pub mod Heap
pub mod Advance
mod Tests
use hk232_assignment_os.Base.{
  ℕ, ◌+◌, ◌%◌, ◌^◌, leb, if◌then◌else◌, Option, some, length, get_elem?, ◌>>=◌,
}
use hk232_assignment_os.Pcb.{Inst, Opcode, Pcb}
use hk232_assignment_os.CpuTlb.{tlballoc, tlbfree_data, tlbread, tlbwrite}

-- The bitwise and with 0.
unfoldable pub calc : Pcb → ℕ
calc proc = 0

-- The `switch` on the opcode: the status and the process.
unfoldable pub execute : Pcb → Inst → Option (ℕ × Pcb)
execute proc ins = elim ins.opcode [
  | Opcode.calc ↦ some (calc proc, proc)
  | Opcode.alloc ↦ tlballoc proc ins.arg_0 ins.arg_1
  | Opcode.free ↦ tlbfree_data proc ins.arg_0
  | Opcode.read ↦ tlbread proc ins.arg_0 ins.arg_1 ins.arg_2
  | Opcode.write ↦ tlbwrite proc (ins.arg_0 % 2 ^ 8) ins.arg_1 ins.arg_2
]

unfoldable pub run : Pcb → Option (ℕ × Pcb)
run proc =
    let executed : Option (ℕ × Pcb) = get_elem? proc.code proc.pc >>= λ ins.
    execute (record proc { pc = (proc.pc + 1) % 2 ^ 32 }) ins in
    if leb (length proc.code) proc.pc then some (1, proc) else executed
