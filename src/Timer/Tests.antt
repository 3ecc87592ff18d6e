-- ===== src/Timer/Tests.antt =====
-- A timer with two devices, one of which calls `next_slot` while the other detaches itself.
use hk232_assignment_os.Base.{
  ℕ, ◌+◌, ◌≤◌, ◌≡◌, ◌⊎◌, refl, true, ◌==◌, if◌then◌else◌, none, some, [], ◌∷◌, length,
}
use hk232_assignment_os.Timer.{
  Position, Timer, timer_step, next_slot, detach_event, start_timer, attach_event,
}
use hk232_assignment_os.Timer.World.{
  World, Place, member, tick, arrive, resume, leave, IsStart, Reach, here, later, IsSynced,
}
use hk232_assignment_os.Timer.Keeping.{Step-IsSynced, Reach-IsSynced}
use hk232_assignment_os.Timer.Barrier.{in_step, no_deadlock}
use hk232_assignment_os.Timer.Rounds.{steps, finished, slot_completes}

abbrev attached : Timer
attached = record {
  time = 0;
  timer_started = 1;
  timer_stop = 0;
  dev_list = 2 ∷ 1 ∷ [];
  device = λ d. record { done = 0; fsh = 0 };
  position = Position.head;
}

abbrev two_devices : World
two_devices = record { timer = attached; place = λ d. Place.working; slots = λ d. 0 }

two_devices-IsStart : IsStart two_devices
two_devices-IsStart = record {
  ready = refl;
  no_stop = refl;
  distinct = (refl, (refl, tt));
  at_zero = refl;
  fresh = λ d m. (refl, refl, refl, refl);
}

-- `main` attaches two devices; the last one stands first in the list.
attach_twice :
    (attach_event
      (attach_event (record attached { timer_started = 0; dev_list = [] }) 1).1
      2).1.dev_list
    ≡ 2 ∷ 1 ∷ []
unfolding attach_event
attach_twice = refl

attach_late : attach_event (start_timer attached) 3 ≡ (none, start_timer attached)
unfolding attach_event start_timer
attach_late = refl

-- Both devices have ended slot 0, and the timer has counted them.
abbrev met : (w : World) × Reach two_devices w
unfolding timer_step next_slot detach_event
met = (
  _,
  later (later (later (later (later here (arrive 2 refl)) (leave 1 refl)) (tick refl)) (tick refl))
      (tick refl),
)

-- The next slot, with device 2 at work again.
abbrev resumed : (w : World) × Reach two_devices w
unfolding met timer_step
resumed = (
  _,
  later (later (later (later (later met.1 (tick refl)) (tick refl)) (tick refl)) (tick refl))
      (resume 2 refl refl),
)

-- Both devices are detached, and the timer has ended.
abbrev ended : (w : World) × Reach two_devices w
unfolding timer_step detach_event
ended = (
  _,
  later
      (later
        (later
          (later
            (later
              (later (later (later (later here (leave 2 refl)) (leave 1 refl)) (tick refl))
                (tick refl))
              (tick refl))
            (tick refl))
          (tick refl))
        (tick refl))
      (tick refl),
)

-- Both devices have called `next_slot`, the slot is over, and only device 2 goes on so far.
abbrev apart : (w : World) × Reach two_devices w
unfolding timer_step next_slot
apart = (
  _,
  later
      (later
        (later
          (later
            (later (later (later (later here (arrive 2 refl)) (arrive 1 refl)) (tick refl))
              (tick refl))
            (tick refl))
          (tick refl))
        (tick refl))
      (resume 2 refl refl),
)

Step-IsSynced_example :
    let w = record two_devices {
      timer = next_slot attached 2;
      place = λ d. if 2 == d then Place.waiting else Place.working;
    } in
    IsSynced w w.timer.position
Step-IsSynced_example =
    Step-IsSynced {w = two_devices} (arrive 2 refl) (Reach-IsSynced two_devices-IsStart here)

in_step_example :
    (apart.0.slots 2 ≤ apart.0.slots 1 + 1)
    × (apart.0.slots 2 ≤ apart.0.timer.time)
    × (apart.0.timer.time ≤ apart.0.slots 2 + 1)
unfolding apart timer_step next_slot
in_step_example =
    in_step {w = two_devices} {w' = apart.0} 2 1 two_devices-IsStart apart.1 refl refl (λ e. cc)
      (λ e. cc)

no_deadlock_example :
    ((t : Timer) × (timer_step resumed.0.timer ≡ some t))
    ⊎ ((d : ℕ) × (member d resumed.0.timer.dev_list ≡ true)
        × ((resumed.0.place d ≡ Place.working)
            ⊎ ((resumed.0.place d ≡ Place.waiting) × ((resumed.0.timer.device d).done ≡ 0))))
unfolding resumed timer_step
no_deadlock_example =
    no_deadlock {w = two_devices} {w' = resumed.0} two_devices-IsStart resumed.1 (λ e. cc) (λ e. cc)

abbrev all_done : Timer
all_done = record attached {
  device = λ d. record { done = if d == 2 then 1 else 0; fsh = if d == 2 then 0 else 1 };
}

slot_completes_example :
    (t' : Timer) × (steps (length all_done.dev_list + length all_done.dev_list + 3) all_done
      ≡ some t')
    × (t'.time ≡ 0 + 1)
    × (t'.position ≡ (
        if finished all_done.device all_done.dev_list == length all_done.dev_list
        then Position.exited
        else Position.head))
    × ((d : ℕ) → member d all_done.dev_list ≡ true → (t'.device d).done ≡ 0)
    × ((d : ℕ) → (t'.device d).fsh ≡ (all_done.device d).fsh)
slot_completes_example = slot_completes all_done refl refl (refl, (refl, tt))
