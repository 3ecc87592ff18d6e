-- ===== src/Timer/Barrier.antt =====
-- The timer and its devices in any interleaving: no device runs ahead of another.
use hk232_assignment_os.Base.{
  ℕ, ◌+◌, ◌≤◌, ◌≡◌, ◌≢◌, ◌⊎◌, inl, inr, refl, Bool, true, false, ◌&&◌, ◌==◌, some, [], ◌∷◌, arith,
  Bool-cases,
}
use hk232_assignment_os.Timer.{Device, Position, Timer, timer_routine, timer_step}
use hk232_assignment_os.Timer.World.{
  World, Place, member, IsStart, Reach, Fits, works, arrived, held, freed, detached, IsSynced,
}
use hk232_assignment_os.Timer.World.Pace.{alone_gone}
use hk232_assignment_os.Timer.Keeping.{Reach-IsSynced}

-- A device that is not gone has ended as many slots as the time says, or one fewer while it waits.
fits_slots :
    (pl : Place) (v : Device) (s time : ℕ) (p c a : Bool)
    → Fits pl v s time p c a
    → (pl ≡ Place.gone) ⊎ ((s ≤ time) × (time ≤ s + 1) × (pl ≡ Place.working → s ≡ time))
fits_slots pl v s time p c a (works h dn fs e q r b) = inr (omega arith, omega arith, λ _. e)
fits_slots pl v s time p c a (arrived h dn fs e q b) = inr (omega arith, omega arith, λ _. e)
fits_slots pl v s time p c a (held h dn fs e q b) = inr (omega arith, omega arith, λ g. cc)
fits_slots pl v s time p c a (freed h dn fs e q r b) = inr (omega arith, omega arith, λ g. cc)
fits_slots pl v s time p c a (detached h fs) = inl h

-- In every state reachable from a start with all devices at work, any two devices of the list that
-- are not detached have ended numbers of slots that differ by at most one, and each of them has
-- ended as many slots as the time says or one fewer.
pub in_step :
    {w w' : World} (d e : ℕ)
    → IsStart w
    → Reach w w'
    → member d w'.timer.dev_list ≡ true
    → member e w'.timer.dev_list ≡ true
    → w'.place d ≢ Place.gone
    → w'.place e ≢ Place.gone
    → (w'.slots d ≤ w'.slots e + 1)
      × (w'.slots d ≤ w'.timer.time)
      × (w'.timer.time ≤ w'.slots d + 1)
in_step {w'} d e h r md me d_here e_here =
    let i = Reach-IsSynced h r in
    elim (fits_slots _ _ _ _ _ _ _ (i.fits d md)) [
      | inl g ↦ absurd (d_here g)
      | inr x ↦ elim (fits_slots _ _ _ _ _ _ _ (i.fits e me)) [
        | inl g ↦ absurd (e_here g)
        | inr y ↦ (omega arith, x.0, x.1)
      ]
    ]

counted_waits :
    (pl : Place) (v : Device) (s time : ℕ) (a : Bool)
    → Fits pl v s time false true a
    → pl ≢ Place.working
counted_waits pl v s time a (works h dn fs e q r b) g = cc
counted_waits pl v s time a (arrived h dn fs e q b) g = cc
counted_waits pl v s time a (held h dn fs e q b) g = cc
counted_waits pl v s time a (freed h dn fs e q r b) g = cc
counted_waits pl v s time a (detached h fs) g = cc

-- Only the end of the collecting loop changes the time.
ends_at :
    (w : World) (at : Position) (t : Timer) (d : ℕ)
    → IsSynced w at
    → timer_routine w.timer at ≡ some t
    → t.time ≢ w.timer.time
    → member d w.timer.dev_list ≡ true
    → (t.time ≡ w.timer.time + 1) × (w.place d ≢ Place.working)
unfolding timer_routine
ends_at w Position.unborn t d i e changed m = cc
ends_at w Position.exited t d i e changed m = cc
ends_at w Position.head t d i e changed m = absurd (changed (ground arith))
ends_at w (Position.collect [] f ev) t d i e changed m =
    (ground arith, counted_waits _ _ _ _ _ (i.fits d m))
ends_at w (Position.collect (x ∷ rest) f ev) t d i e changed m = absurd (changed (ground arith))
ends_at w (Position.release [] f ev) t d i e changed m = absurd (changed (ground arith))
ends_at w (Position.release (x ∷ rest) f ev) t d i e changed m = absurd (changed (ground arith))

-- When a step of the timer changes the time, it adds one, and no device is at work: the slot ends
-- only once every device has called `next_slot` or detached itself.
pub slot_ends :
    {w w' : World} {t : Timer} (d : ℕ)
    → IsStart w
    → Reach w w'
    → timer_step w'.timer ≡ some t
    → t.time ≢ w'.timer.time
    → member d w'.timer.dev_list ≡ true
    → (t.time ≡ w'.timer.time + 1) × (w'.place d ≢ Place.working)
unfolding timer_step
slot_ends {w'} {t} d h r e changed m =
    ends_at w' w'.timer.position t d (Reach-IsSynced h r) e changed m

-- When the timer has ended, every device has detached itself: no thread is left waiting for it.
pub exited_gone :
    {w w' : World} (d : ℕ)
    → IsStart w
    → Reach w w'
    → w'.timer.position ≡ Position.exited
    → member d w'.timer.dev_list ≡ true
    → w'.place d ≡ Place.gone
exited_gone {w'} d h r e m =
    let i = rw e at (Reach-IsSynced h r) in alone_gone w' _ _ _ _ _ _ (i.fits d m)

-- The device that the collecting loop waits for is at work, or may go on.
awaited :
    (pl : Place) (v : Device) (s time : ℕ) (c a : Bool)
    → Fits pl v s time false c a
    → v.done ≡ 0
    → v.fsh ≡ 0
    → (pl ≡ Place.working) ⊎ (pl ≡ Place.waiting)
awaited pl v s time c a (works h dn fs e q r b) z y = inl h
awaited pl v s time c a (arrived h dn fs e q b) z y = inr h
awaited pl v s time c a (held h dn fs e q b) z y = inr h
awaited pl v s time c a (freed h dn fs e q r b) z y = inr h
awaited pl v s time c a (detached h fs) z y = absurd (fs y)

progress_at :
    (w : World) (at : Position)
    → IsSynced w at
    → at ≢ Position.unborn
    → at ≢ Position.exited
    → ((t : Timer) × (timer_routine w.timer at ≡ some t))
      ⊎ ((d : ℕ) × (member d w.timer.dev_list ≡ true)
          × ((w.place d ≡ Place.working)
              ⊎ ((w.place d ≡ Place.waiting) × ((w.timer.device d).done ≡ 0))))
unfolding timer_routine
progress_at w Position.unborn i u x = absurd (u refl)
progress_at w Position.exited i u x = absurd (x refl)
progress_at w Position.head i u x = inl (_, refl)
progress_at w (Position.collect [] f ev) i u x = inl (_, refl)
progress_at w (Position.collect (d ∷ rest) f ev) i u x =
    elim (Bool-cases (((w.timer.device d).done == 0) && ((w.timer.device d).fsh == 0))) [
      | inr go ↦ rw go (inl (_, refl))
      | inl blocked ↦
          let dn : (w.timer.device d).done ≡ 0 = ground arith in
          let fs : (w.timer.device d).fsh ≡ 0 = ground arith in
          inr (
            d,
            i.rest_listed.0,
            elim (awaited _ _ _ _ _ _ (i.fits d i.rest_listed.0) dn fs) [
              | inl at_work ↦ inl at_work
              | inr waits ↦ inr (waits, dn)
            ],
          )
    ]
progress_at w (Position.release [] f ev) i u x = inl (_, refl)
progress_at w (Position.release (d ∷ rest) f ev) i u x = inl (_, refl)

-- No deadlock: from a start with all devices at work, while the timer runs, in every reachable
-- state the timer can go on, or a device of the list is at work, or one that waits has been
-- released and can go on.
pub no_deadlock :
    {w w' : World}
    → IsStart w
    → Reach w w'
    → w'.timer.position ≢ Position.unborn
    → w'.timer.position ≢ Position.exited
    → ((t : Timer) × (timer_step w'.timer ≡ some t))
      ⊎ ((d : ℕ) × (member d w'.timer.dev_list ≡ true)
          × ((w'.place d ≡ Place.working)
              ⊎ ((w'.place d ≡ Place.waiting) × ((w'.timer.device d).done ≡ 0))))
unfolding timer_step
no_deadlock {w'} h r u x = progress_at w' w'.timer.position (Reach-IsSynced h r) u x
