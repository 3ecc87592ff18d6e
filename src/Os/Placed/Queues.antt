-- ===== src/Os/Placed/Queues.antt =====
-- What the scheduler does to the places of the processes in its queues.
use mathlib.Core.Option.{some-injective}
use hk232_assignment_os.Base.{
  ℕ, ◌+◌, ◌-◌, ◌<◌, ◌≡◌, ◌≢◌, inl, inr, refl, sym, ap, ◌∙◌, false, ◌==◌, if◌then◌else◌, Option,
  some, update, update_ne, update_self, update_all, arith,
}
use hk232_assignment_os.Queue.{Queue, empty, enqueue, dequeue}
use hk232_assignment_os.Queue.Entries.{dequeue_entry, dequeue_first, enqueue_entry}
use hk232_assignment_os.Pcb.{Pcb}
use hk232_assignment_os.Sched.{Sched, max_prio, get_mlq_proc, take_current}
use hk232_assignment_os.Sched.Scan.{at_prio, get_cases}
use hk232_assignment_os.Os.Placed.{Location, unused, loaded, queued, on_cpu, InQueues}

-- The places once the oldest process of a queue goes to a CPU.
abbrev pub taken : ℕ → ℕ → Location → Location
taken q c unused = unused
taken q c loaded = loaded
taken q c (on_cpu d) = on_cpu d
taken q c (queued r i) =
    if q == r then (if i == 0 then on_cpu c else queued r (i - 1)) else queued r i

-- Taking the oldest process of a queue that is not empty.
dequeue-InQueues :
    (qs : ℕ → Queue Pcb) (loc : ℕ → Location) (q c : ℕ)
    → InQueues qs loc
    → q < max_prio
    → empty (qs q) ≡ false
    → (x : Pcb) × ((dequeue (qs q)).0 ≡ some x)
      × (loc x.pid ≡ queued q 0)
      × InQueues (update qs q (dequeue (qs q)).1) (λ d. taken q c (loc d))
dequeue-InQueues qs loc q c h b e =
    let (nonempty, first) = dequeue_first (qs q) e in
    let (x, ex, lx) = h q 0 b nonempty in
    (
      x,
      first ∙ ex,
      lx,
      λ r i rb.
          update_all
            (λ r u.
              r < max_prio
              → i < u.size
              → (p : Pcb) × (u.proc i ≡ some p) × (taken q c (loc p.pid) ≡ queued r i))
            qs q (dequeue (qs q)).1
            (λ rb' ib.
              let (ib', same) = dequeue_entry (qs q) i ib in
              let (p, ep, lp) = h q (i + 1) b ib' in (p, same ∙ ep, rw lp (ground arith)))
            (λ r' other rb' ib. let (p, ep, lp) = h r' i rb' ib in (p, ep, rw lp (ground arith))) r
            rb,
    )

-- Only processes in queues change their places.
pub record OnlyQueued (loc loc' : ℕ → Location) : Type 0 where
  pub keeps_unused : (d : ℕ) → loc d ≡ unused → loc' d ≡ unused
  pub keeps_loaded : (d : ℕ) → loc d ≡ loaded → loc' d ≡ loaded
  pub keeps_cpus : (d e : ℕ) → loc d ≡ on_cpu e → loc' d ≡ on_cpu e

-- What CPU `c` got from the scheduler, and the places after.
abbrev pub HasTaken : (ℕ → Location) → ℕ → Option Pcb × Sched Pcb → Type 0
HasTaken loc c r =
    (r.1.curr_prio < max_prio)
    × (loc' : ℕ → Location) × InQueues r.1.mlq_ready_queue loc'
    × ((x : Pcb) → r.0 ≡ some x → loc' x.pid ≡ on_cpu c)
    × OnlyQueued loc loc'

take_current-HasTaken :
    (s : Sched Pcb) (loc : ℕ → Location) (c : ℕ)
    → InQueues s.mlq_ready_queue loc
    → s.curr_prio < max_prio
    → empty (s.mlq_ready_queue s.curr_prio) ≡ false
    → HasTaken loc c (take_current s)
unfolding take_current
take_current-HasTaken s loc c h b e =
    let (x, ex, lx, g) = dequeue-InQueues s.mlq_ready_queue loc s.curr_prio c h b e in
    (
      b,
      (λ d. taken s.curr_prio c (loc d)),
      g,
      (λ y ey.
          let same : x ≡ y = some-injective _ _ (sym ex ∙ ey) in
          rw (← same) (rw lx (ground arith))),
      record {
        keeps_unused = λ d l. rw l refl;
        keeps_loaded = λ d l. rw l refl;
        keeps_cpus = λ d k l. rw l refl;
      },
    )

pub get-HasTaken :
    (s : Sched Pcb) (loc : ℕ → Location) (c : ℕ)
    → InQueues s.mlq_ready_queue loc
    → s.curr_prio < max_prio
    → HasTaken loc c (get_mlq_proc s)
get-HasTaken s loc c h b =
    get_cases (HasTaken loc c) s b (λ e. take_current-HasTaken s loc c h b (ground (arith, e)))
      (λ p pb e. take_current-HasTaken (at_prio s p) loc c h pb e)
      (
        omega arith,
        loc,
        h,
        (λ x ex. cc),
        record { keeps_unused = λ d l. l; keeps_loaded = λ d l. l; keeps_cpus = λ d k l. l },
      )

-- Putting a process that is in no queue to one: it takes the last place there, or is dropped.
pub enqueue-InQueues :
    (qs : ℕ → Queue Pcb) (loc : ℕ → Location) (q : ℕ) (p : Pcb)
    → InQueues qs loc
    → ((r i : ℕ) → loc p.pid ≢ queued r i)
    → (loc' : ℕ → Location) × InQueues (update qs q (enqueue (qs q) (some p))) loc'
      × ((d : ℕ) → p.pid ≢ d → loc' d ≡ loc d)
enqueue-InQueues qs loc q p h outside =
    let loc' = update loc p.pid (queued q (qs q).size) in
    let others = λ (d : ℕ) (o : p.pid ≢ d). update_ne loc p.pid d (queued q (qs q).size) o in
    (
      loc',
      (λ r i rb.
          update_all
            (λ r u.
              r < max_prio
              → i < u.size
              → (x : Pcb) × (u.proc i ≡ some x) × (loc' x.pid ≡ queued r i))
            qs q (enqueue (qs q) (some p))
            (λ rb' ib. elim (enqueue_entry (qs q) p i ib) [
              | inl old ↦
                  let (x, ex, lx) = h q i rb' old.0 in
                  (x, old.1 ∙ ex, others x.pid (λ same. outside q i (ap loc same ∙ lx)) ∙ lx)
              | inr new ↦ (p, new.1, update_self loc p.pid _ ∙ ap (queued q) (sym new.0))
            ])
            (λ r' other rb' ib.
              let (x, ex, lx) = h r' i rb' ib in
              (x, ex, others x.pid (λ same. outside r' i (ap loc same ∙ lx)) ∙ lx))
            r rb),
      others,
    )
