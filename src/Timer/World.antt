-- ===== src/Timer/World.antt =====
-- The timer and the threads of its devices in any interleaving, and what holds in between.
pub mod Pace
pub use hk232_assignment_os.Base.{member, Distinct}
use hk232_assignment_os.Base.{
  ℕ, zero, suc, ◌+◌, ◌≤◌, ◌<◌, ◌≡◌, ◌≢◌, ◌⊎◌, inl, inr, refl, Bool, true, false, not, ◌&&◌, ◌||◌,
  ◌==◌, if◌then◌else◌, Option, none, some, List, [], ◌∷◌, All, update, update_ne, arith, Bool-cases,
}
use hk232_assignment_os.Timer.{
  Device, Position, Timer, timer_routine, timer_step, next_slot, detach_event, stop_timer,
  start_timer, set_device,
}

-- Where a device's thread stands: at work in a slot, in `next_slot`, or detached.
pub data Place : Type 0 where
  working : Place
  waiting : Place
  gone : Place

-- The timer and the threads of the devices. `slots` counts the slots that a device has ended; the
-- program does not keep it.
pub record World : Type 0 where
  pub timer : Timer
  pub place : ℕ → Place
  pub slots : ℕ → ℕ

-- A step of the timer, or of a device that calls `next_slot`, returns from it or detaches itself.
-- `main` stops the timer when it has joined every other thread.
pub data Step (w : World) : World → Type 0 where
  tick : {t : Timer} → timer_step w.timer ≡ some t → Step w (record w { timer = t })
  arrive :
      (d : ℕ)
      → w.place d ≡ Place.working
      → Step w (record w { timer = next_slot w.timer d; place = update w.place d Place.waiting })
  resume :
      (d : ℕ)
      → w.place d ≡ Place.waiting
      → (w.timer.device d).done ≡ 0
      → Step w (record w {
        place = update w.place d Place.working;
        slots = update w.slots d (w.slots d + 1);
      })
  leave :
      (d : ℕ)
      → w.place d ≡ Place.working
      → Step w (record w { timer = detach_event w.timer d; place = update w.place d Place.gone })
  stop :
      ((d : ℕ) → member d w.timer.dev_list ≡ true → w.place d ≡ Place.gone)
      → Step w (record w { timer = stop_timer w.timer })

-- `main` attaches its devices, at work in slot 0, and starts the timer.
pub record IsStart (w : World) : Type 0 where
  pub ready : w.timer.position ≡ Position.head
  pub no_stop : w.timer.timer_stop ≡ 0
  pub distinct : Distinct w.timer.dev_list
  pub at_zero : w.timer.time ≡ 0
  pub fresh :
      (d : ℕ)
      → member d w.timer.dev_list ≡ true
      → (w.place d ≡ Place.working)
        × ((w.timer.device d).done ≡ 0)
        × ((w.timer.device d).fsh ≡ 0)
        × (w.slots d ≡ 0)

pub data Reach (w : World) : World → Type 0 where
  here : Reach w w
  later : {u v : World} → Reach w u → Step u v → Reach w v

-- What the timer's position says of a device: it is still to be released, it has been counted, and
-- every device counted was detached.
abbrev pub pending : Position → ℕ → Bool
pending (Position.release rest fsh event) d = member d rest
pending _ d = false

abbrev pub counted : Position → ℕ → Bool
counted (Position.collect rest fsh event) d = not (member d rest)
counted _ d = false

abbrev pub alone : Position → ℕ → Bool
alone Position.unborn d = false
alone Position.head d = false
alone (Position.collect rest fsh event) d = not (member d rest) && (fsh == event)
alone (Position.release rest fsh event) d = fsh == event
alone Position.exited d = true

-- How a device stands to the time, with what the position says of it.
pub data Fits (pl : Place) (v : Device) (s time : ℕ) (p c a : Bool) : Type 0 where
  works :
      pl ≡ Place.working
      → v.done ≡ 0
      → v.fsh ≡ 0
      → s ≡ time
      → p ≡ false
      → c ≡ false
      → a ≡ false
      → Fits pl v s time p c a
  arrived :
      pl ≡ Place.waiting
      → v.done ≢ 0
      → v.fsh ≡ 0
      → s ≡ time
      → p ≡ false
      → a ≡ false
      → Fits pl v s time p c a
  held :
      pl ≡ Place.waiting
      → v.done ≢ 0
      → v.fsh ≡ 0
      → s + 1 ≡ time
      → p ≡ true
      → a ≡ false
      → Fits pl v s time p c a
  freed :
      pl ≡ Place.waiting
      → v.done ≡ 0
      → v.fsh ≡ 0
      → s + 1 ≡ time
      → p ≡ false
      → c ≡ false
      → a ≡ false
      → Fits pl v s time p c a
  detached : pl ≡ Place.gone → v.fsh ≢ 0 → Fits pl v s time p c a

abbrev pub rest_of : Position → List ℕ
rest_of (Position.collect rest fsh event) = rest
rest_of (Position.release rest fsh event) = rest
rest_of _ = []

abbrev pub Tally : Position → Type 0
Tally (Position.collect rest fsh event) = fsh ≤ event
Tally _ = Unit

-- The invariant at a position of the timer.
pub record IsSynced (w : World) (at : Position) : Type 0 where
  pub distinct : Distinct w.timer.dev_list
  pub rest_distinct : Distinct (rest_of at)
  pub rest_listed : All (λ d. member d w.timer.dev_list ≡ true) (rest_of at)
  pub tally : Tally at
  pub stopped :
      w.timer.timer_stop ≢ 0 → (d : ℕ) → member d w.timer.dev_list ≡ true → w.place d ≡ Place.gone
  pub fits :
      (d : ℕ)
      → member d w.timer.dev_list ≡ true
      → Fits
          (w.place d)
          (w.timer.device d)
          (w.slots d)
          w.timer.time
          (pending at d)
          (counted at d)
          (alone at d)
