-- ===== src/Os/Boot.antt =====
-- What `main` of src/os.c does before its threads run.
use hk232_assignment_os.Base.{
  ℕ, zero, suc, ◌+◌, ◌≤◌, ◌<◌, ◌≡◌, refl, ap, sym, true, Option, none, some, List, [], ◌∷◌, arith,
  ◌>>=◌, >>=-eq-some, Bool-cases, inl, inr,
}
use native.Mathlib.Decide.{ℕ_discrete}
use mathlib.Core.Option.{some-injective}
use hk232_assignment_os.Memphy.{Memphy, init_memphy}
use hk232_assignment_os.TlbCache.{init_tlbmemphy}
use hk232_assignment_os.Pcb.{Pcb}
use hk232_assignment_os.Sched.{Sched, init_scheduler}
use hk232_assignment_os.Timer.{Position, Timer, attach_event, start_timer}
use hk232_assignment_os.Timer.World.{World, Place, member, Distinct, IsStart}
use hk232_assignment_os.Os.{Config, System, Cpu, Ld, inside, top, loading}
use hk232_assignment_os.Os.Refine.{Simulates}
use hk232_assignment_os.Os.Working.{place_of}

abbrev pub max_mmswp : ℕ
max_mmswp = 4

-- What stands in the memory of a device before it is initialised: on the stack of `main`, in its
-- block of storage, and in the list that its first frame is linked to.
pub record Raw : Type 0 where
  pub device : Memphy
  pub storage : ℕ → ℕ
  pub garbage : List ℕ

-- The loop over the CPUs that attaches their devices, with its rounds left.
unfoldable pub attach_loop : ℕ → ℕ → Timer → Timer
unfolding attach_event
attach_loop zero i t = t
attach_loop (suc left) i t = attach_loop left (i + 1) (attach_event t i).1

-- The loop that creates the swap devices, with its rounds left.
unfoldable pub init_swaps : ℕ → ℕ → (ℕ → ℕ) → (ℕ → Raw) → Option (List Memphy)
init_swaps zero sit memswpsz raw = some []
init_swaps (suc left) sit memswpsz raw = do
  mp ← init_memphy (raw sit).device (raw sit).storage (raw sit).garbage (memswpsz sit) 1
  rest ← init_swaps left (sit + 1) memswpsz raw
  some (mp ∷ rest)

-- The timer as the program starts: its static variables are zero.
abbrev pub new_timer : Timer
new_timer = record {
  time = 0;
  timer_started = 0;
  timer_stop = 0;
  dev_list = [];
  device = λ d. record { done = 0; fsh = 0 };
  position = Position.unborn;
}

unfoldable pub init_timer : ℕ → Timer
unfolding attach_event start_timer
init_timer num_cpus = start_timer (attach_event (attach_loop num_cpus 0 new_timer) num_cpus).1

-- The local variables of a CPU and of the loader as their threads start.
abbrev pub new_cpu : Cpu
new_cpu = record { phase = inside; spot = top; proc = none; time_left = 0 }

abbrev pub new_ld : Ld
new_ld = record { phase = inside; spot = loading; i = 0; proc = none }

-- `&mswp[0]`
abbrev pub first_device : List Memphy → Option Memphy
first_device [] = none
first_device (mp ∷ rest) = some mp

-- `main` up to where it waits for its threads; `sched` is the scheduler before `init_scheduler`.
unfoldable pub main : Config → Sched Pcb → Raw → Raw → (ℕ → Raw) → Option System
main config sched tlb ram swaps = do
  mram ← init_memphy ram.device ram.storage ram.garbage config.memramsz 1
  mswp ← init_swaps max_mmswp 0 config.memswpsz swaps
  active_mswp ← first_device mswp
  some (record {
    timer = init_timer config.num_cpus;
    shared = record {
      sched = init_scheduler sched;
      done = 0;
      avail_pid = 1;
      tlb = (init_tlbmemphy tlb.device tlb.storage config.tlbsz).1;
      mram = mram;
      active_mswp = active_mswp;
    };
    cpu = λ c. new_cpu;
    ld = new_ld;
  })

-- A timer that `k` devices have been attached to.
record IsAttached (k : ℕ) (t : Timer) : Type 0 where
  not_started : t.timer_started ≡ 0
  no_stop : t.timer_stop ≡ 0
  at_zero : t.time ≡ 0
  distinct : Distinct t.dev_list
  below : (d : ℕ) → member d t.dev_list ≡ true → d < k
  listed : (d : ℕ) → d < k → member d t.dev_list ≡ true
  fresh : (d : ℕ) → d < k → ((t.device d).done ≡ 0) × ((t.device d).fsh ≡ 0)

attach_event-IsAttached :
    (k : ℕ) (t : Timer) → IsAttached k t → IsAttached (suc k) (attach_event t k).1
unfolding attach_event
attach_event-IsAttached k t h = rw h.not_started (record {
  not_started = refl;
  no_stop = h.no_stop;
  at_zero = h.at_zero;
  distinct = (
    elim (Bool-cases (member k t.dev_list)) [
      | inl m ↦ absurd (omega (arith, h.below k m))
      | inr m ↦ m
    ],
    h.distinct,
  );
  below = λ d m. elim (ℕ_discrete d k) [
    | yes same ↦ omega arith
    | no other ↦
        let old : member d t.dev_list ≡ true = ground (arith, m) in omega (arith, h.below d old)
  ];
  listed = λ d b. elim (ℕ_discrete d k) [
    | yes same ↦ ground arith
    | no other ↦ ground (arith, h.listed d (omega arith))
  ];
  fresh = λ d b. elim (ℕ_discrete d k) [
    | yes same ↦ ground arith
    | no other ↦ ground (arith, h.fresh d (omega arith))
  ];
})

attach_loop-IsAttached :
    (left i : ℕ) (t : Timer) → IsAttached i t → IsAttached (i + left) (attach_loop left i t)
unfolding attach_loop
attach_loop-IsAttached zero i t h = let e : i + 0 ≡ i = omega arith in rw e h
attach_loop-IsAttached (suc left) i t h =
    let e : i + suc left ≡ i + 1 + left = omega arith in
    let s : suc i ≡ i + 1 = omega arith in
    rw e (
      attach_loop-IsAttached left (i + 1) (attach_event t i).1
        (rw s at (attach_event-IsAttached i t h)))

-- The world of the timer as the threads start: all are at work in slot 0.
abbrev pub world : System → World
world w = record { timer = w.timer; place = λ d. Place.working; slots = λ d. 0 }

init_timer-IsStart :
    (n : ℕ) (w : System)
    → w.timer ≡ init_timer n
    → IsStart (world w)
      × ((d : ℕ) → member d w.timer.dev_list ≡ true → d ≤ n)
      × ((d : ℕ) → d ≤ n → member d w.timer.dev_list ≡ true)
unfolding init_timer start_timer
init_timer-IsStart n w e =
    let none_yet : IsAttached 0 new_timer = record {
      not_started = refl;
      no_stop = refl;
      at_zero = refl;
      distinct = tt;
      below = λ d m. cc;
      listed = λ d b. absurd (omega arith);
      fresh = λ d b. absurd (omega arith);
    } in
    let z : 0 + n ≡ n = omega arith in
    let a =
      attach_event-IsAttached n (attach_loop n 0 new_timer)
        (rw z at (attach_loop-IsAttached n 0 new_timer none_yet)) in
    rw e (
      record {
        ready = refl;
        no_stop = a.no_stop;
        distinct = a.distinct;
        at_zero = a.at_zero;
        fresh = λ d m. let (dn, fs) = a.fresh d (a.below d m) in (refl, dn, fs, refl);
      },
      (λ d m. omega (arith, a.below d m)),
      (λ d b. a.listed d (omega arith)),
    )

-- The threads start in a state of the timer's world in which it is ready.
pub main-Simulates :
    (config : Config) (sched : Sched Pcb) (tlb ram : Raw) (swaps : ℕ → Raw) (w : System)
    → main config sched tlb ram swaps ≡ some w
    → IsStart (world w) × Simulates config w (world w)
unfolding main
main-Simulates config sched tlb ram swaps w e =
    let (mram, e0, h0) =
      >>=-eq-some (init_memphy ram.device ram.storage ram.garbage config.memramsz 1) _ e in
    let (mswp, e1, h1) = >>=-eq-some (init_swaps max_mmswp 0 config.memswpsz swaps) _ h0 in
    let (active, e2, h2) = >>=-eq-some (first_device mswp) _ h1 in
    let same = some-injective _ _ h2 in
    let (start, listed, attached) =
      init_timer-IsStart config.num_cpus w (ap (λ u. u.timer) (sym same)) in
    (
      start,
      record {
        same_timer = refl;
        cpus = λ c b. ap (λ u. place_of (u.cpu c).phase) same;
        loader = ap (λ u. place_of u.ld.phase) same;
        listed = listed;
        attached = attached;
      },
    )
