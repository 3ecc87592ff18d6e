-- ===== src/Os/Placed/Moves.antt =====
-- What the steps of a CPU do to the places of the processes.
use hk232_assignment_os.Base.{
  ℕ, ◌<◌, ◌≡◌, ◌≢◌, inl, inr, sym, ap, ◌∙◌, ◌==◌, leb, none, some, update, length, arith,
  Bool-cases, Option-cases, >>=-eq-some,
}
use mathlib.Core.Option.{some-injective}
use hk232_assignment_os.Queue.{enqueue}
use hk232_assignment_os.Pcb.{Pcb}
use hk232_assignment_os.Cpu.{run}
use hk232_assignment_os.Cpu.Advance.{run_advances}
use hk232_assignment_os.Sched.{Sched, max_prio, get_mlq_proc, put_mlq_proc, add_mlq_proc}
use hk232_assignment_os.Os.{
  Shared, Cpu, Spot, top, fetch, recheck, cpu_top, cpu_fetch, cpu_recheck, cpu_at, run_shared, lend,
}
use hk232_assignment_os.Os.Placed.{Location, unused, loaded, on_cpu, InQueues}
use hk232_assignment_os.Os.Placed.Queues.{get-HasTaken, enqueue-InQueues}

run_pid : (p : Pcb) (m : ℕ × Pcb) → run p ≡ some m → m.1.pid ≡ p.pid
run_pid p m e = elim (Bool-cases (leb (length p.code) p.pc)) [
  | inl over ↦ let same = (run_advances p m e).0 (ground (arith, over)) in ap (λ r. r.1.pid) same
  | inr more ↦ ap (λ r. r.0) ((run_advances p m e).1 (ground (arith, more)))
]

pub run_shared_lem :
    (s : Shared) (p : Pcb) (r : Shared × Pcb)
    → run_shared s p ≡ some r
    → (r.0.sched ≡ s.sched) × (r.0.avail_pid ≡ s.avail_pid) × (r.1.pid ≡ p.pid)
unfolding run_shared
run_shared_lem s p r e =
    let (m, first, rest) = >>=-eq-some (run (lend s p)) _ e in
    let pid : m.1.pid ≡ p.pid = run_pid (lend s p) m first in
    (ground (arith, rest), ground (arith, rest), ground (arith, rest, pid))

pub put_lem :
    (s s' : Sched Pcb) (p : Pcb)
    → put_mlq_proc (λ x. x.prio) s p ≡ some s'
    → (s'.mlq_ready_queue
        ≡ update s.mlq_ready_queue p.prio (enqueue (s.mlq_ready_queue p.prio) (some p)))
      × (s'.curr_prio ≡ s.curr_prio)
unfolding put_mlq_proc
put_lem s s' p e = (ground (arith, e), ground (arith, e))

pub add_lem :
    (s s' : Sched Pcb) (p : Pcb)
    → add_mlq_proc (λ x. x.prio) s p ≡ some s'
    → (s'.mlq_ready_queue
        ≡ update s.mlq_ready_queue p.prio (enqueue (s.mlq_ready_queue p.prio) (some p)))
      × (s'.curr_prio ≡ s.curr_prio)
unfolding add_mlq_proc
add_lem s s' p e = (ground (arith, e), ground (arith, e))

-- The places after a step of CPU `c`, which moves no process of the loader or of another CPU.
pub record HasMoved (loc : ℕ → Location) (c : ℕ) (s s' : Shared) (k : Cpu) : Type 0 where
  pub loc' : ℕ → Location
  pub in_range : s'.sched.curr_prio < max_prio
  pub queues : InQueues s'.sched.mlq_ready_queue loc'
  pub own : (p : Pcb) → k.proc ≡ some p → loc' p.pid ≡ on_cpu c
  pub same_pid : s'.avail_pid ≡ s.avail_pid
  pub keeps_unused : (d : ℕ) → loc d ≡ unused → loc' d ≡ unused
  pub keeps_loaded : (d : ℕ) → loc d ≡ loaded → loc' d ≡ loaded
  pub keeps_cpus : (d e : ℕ) → e ≢ c → loc d ≡ on_cpu e → loc' d ≡ on_cpu e

module _ (loc : ℕ → Location) (c : ℕ) (s s' : Shared) (k k' : Cpu)
    (range : s.sched.curr_prio < max_prio) (queues : InQueues s.sched.mlq_ready_queue loc)
    (own : (p : Pcb) → k.proc ≡ some p → loc p.pid ≡ on_cpu c) where
  stay :
      s'.sched ≡ s.sched
      → s'.avail_pid ≡ s.avail_pid
      → ((p : Pcb) → k'.proc ≡ some p → loc p.pid ≡ on_cpu c)
      → HasMoved loc c s s' k'
  stay same pid own' = record {
    loc' = loc;
    in_range = rw same range;
    queues = rw same queues;
    own = own';
    same_pid = pid;
    keeps_unused = λ d l. l;
    keeps_loaded = λ d l. l;
    keeps_cpus = λ d e o l. l;
  }

  take :
      s'.sched ≡ (get_mlq_proc s.sched).1
      → s'.avail_pid ≡ s.avail_pid
      → k'.proc ≡ (get_mlq_proc s.sched).0
      → HasMoved loc c s s' k'
  take same pid got =
      let (b, loc', g, own', f) = get-HasTaken s.sched loc c queues range in
      record {
        loc' = loc';
        in_range = rw same b;
        queues = rw same g;
        own = λ p e. own' p (sym got ∙ e);
        same_pid = pid;
        keeps_unused = f.keeps_unused;
        keeps_loaded = f.keeps_loaded;
        keeps_cpus = λ d e o. f.keeps_cpus d e;
      }

  give :
      (p : Pcb)
      → k.proc ≡ some p
      → put_mlq_proc (λ x. x.prio) s.sched p ≡ some s'.sched
      → s'.avail_pid ≡ s.avail_pid
      → k'.proc ≡ none
      → HasMoved loc c s s' k'
  give p holds put pid empty =
      let (qs, cp) = put_lem s.sched s'.sched p put in
      let here = own p holds in
      let (loc', g, others) =
        enqueue-InQueues s.sched.mlq_ready_queue loc p.prio p queues
          (λ r i l. let m = sym here ∙ l in cc) in
      record {
        loc' = loc';
        in_range = rw cp range;
        queues = rw qs g;
        own = λ x e. let m = sym empty ∙ e in cc;
        same_pid = pid;
        keeps_unused = λ d l. others d (λ same. let m = sym here ∙ ap loc same ∙ l in cc) ∙ l;
        keeps_loaded = λ d l. others d (λ same. let m = sym here ∙ ap loc same ∙ l in cc) ∙ l;
        keeps_cpus = λ d e o l. others d (λ same. let m = sym here ∙ ap loc same ∙ l in o cc) ∙ l;
      }

  step_top : cpu_top s k ≡ some (s', k') → HasMoved loc c s s' k'
  unfolding cpu_top
  step_top e = elim (Option-cases k.proc) [
    | inl n ↦ take (ground (arith, e, n)) (ground (arith, e, n)) (ground (arith, e, n))
    | inr h ↦
        let (p, holds) = h in
        elim (Bool-cases (p.pc == length p.code)) [
          | inl done ↦
              stay (ground (arith, e, holds, done)) (ground (arith, e, holds, done)) (λ x ex.
                let gone : k'.proc ≡ none = ground (arith, e, holds, done) in
                let m = sym gone ∙ ex in cc)
          | inr more ↦ elim (Bool-cases (k.time_left == 0)) [
            | inl over ↦
                give p holds (ground (arith, e, holds, more, over))
                  (ground (arith, e, holds, more, over)) (ground (arith, e, holds, more, over))
            | inr left ↦
                stay (ground (arith, e, holds, more, left)) (ground (arith, e, holds, more, left))
                  (λ x ex. own x (ground (arith, e, holds, more, left, ex)))
          ]
        ]
  ]

  step_fetch : cpu_fetch s k ≡ some (s', k') → HasMoved loc c s s' k'
  unfolding cpu_fetch
  step_fetch e = take (ground (arith, e)) (ground (arith, e)) (ground (arith, e))

  step_recheck :
      (time_slot : ℕ) → cpu_recheck time_slot s k ≡ some (s', k') → HasMoved loc c s s' k'
  unfolding cpu_recheck
  step_recheck time_slot e = elim (Option-cases k.proc) [
    | inl n ↦
        stay (ground (arith, e, n)) (ground (arith, e, n))
          (λ x ex. own x (ground (arith, e, n, ex)))
    | inr h ↦
        let (p, holds) = h in
        elim (Option-cases (run_shared s p)) [
          | inl faults ↦ ground (arith, e, holds, faults)
          | inr ran ↦
              let (r, er) = ran in
              let (same, pid, number) = run_shared_lem s p r er in
              stay (ground (arith, e, holds, er, same)) (ground (arith, e, holds, er, pid)) (λ x ex.
                let now : k'.proc ≡ some r.1 = ground (arith, e, holds, er) in
                let same_proc : r.1 ≡ x = some-injective _ _ (sym now ∙ ex) in
                ap loc (ap (λ y. y.pid) (sym same_proc) ∙ number) ∙ own p holds)
        ]
  ]

  pub step_at :
      (at : Spot) (time_slot : ℕ) → cpu_at at time_slot s k ≡ some (s', k') → HasMoved loc c s s' k'
  unfolding cpu_at
  step_at top time_slot e = step_top e
  step_at fetch time_slot e = step_fetch e
  step_at recheck time_slot e = step_recheck time_slot e
