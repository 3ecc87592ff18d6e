-- ===== src/Timer/World/Pace.antt =====
-- How each step of the timer, and of a device, leaves a device that fits the time.
use native.Mathlib.Decide.{ℕ_discrete}
use hk232_assignment_os.Base.{
  ℕ, ◌+◌, ◌≤◌, ◌≡◌, refl, Bool, true, false, not, ◌&&◌, ◌||◌, ◌==◌, if◌then◌else◌, List, update,
  update_ne, arith,
}
use hk232_assignment_os.Timer.{Device}
use hk232_assignment_os.Timer.World.{
  World, Place, member, Fits, works, arrived, held, freed, detached,
}

module _ (w : World) where
  -- A device is counted by the collecting loop.
  pub collect_fits :
      (d e : ℕ) (rest : List ℕ) (f ev : ℕ)
      → f ≤ ev
      → (((w.timer.device d).done == 0) && ((w.timer.device d).fsh == 0)) ≡ false
      → Fits
          (w.place e)
          (w.timer.device e)
          (w.slots e)
          w.timer.time
          false
          (not (e == d || member e rest))
          (not (e == d || member e rest) && (f == ev))
      → Fits
          (w.place e)
          (w.timer.device e)
          (w.slots e)
          w.timer.time
          false
          (not (member e rest))
          (not (member e rest) && ((if (w.timer.device d).fsh == 0 then f else f + 1) == ev + 1))
  collect_fits d e rest f ev le go (works pl dn fs s p c a) =
      works pl dn fs s p (ground arith) (ground arith)
  collect_fits d e rest f ev le go (arrived pl dn fs s p a) = arrived pl dn fs s p (ground arith)
  collect_fits d e rest f ev le go (held pl dn fs s p a) = cc
  collect_fits d e rest f ev le go (freed pl dn fs s p c a) =
      freed pl dn fs s p (ground arith) (ground arith)
  collect_fits d e rest f ev le go (detached pl fs) = detached pl fs

  -- The time goes on, with every device counted.
  pub time_fits :
      (pl : Place) (v : Device) (s time : ℕ) (listed one : Bool)
      → listed ≡ true
      → Fits pl v s time false true (true && one)
      → Fits pl v s (time + 1) listed false one
  time_fits pl v s time listed one l (works h dn fs e p c a) = cc
  time_fits pl v s time listed one l (arrived h dn fs e p a) = held h dn fs (omega arith) l a
  time_fits pl v s time listed one l (held h dn fs e p a) = cc
  time_fits pl v s time listed one l (freed h dn fs e p c a) = cc
  time_fits pl v s time listed one l (detached h fs) = detached h fs

  -- A device is released.
  pub release_fits :
      (d e : ℕ) (rest : List ℕ) (one : Bool)
      → member d rest ≡ false
      → Fits
          (w.place e)
          (w.timer.device e)
          (w.slots e)
          w.timer.time
          (e == d || member e rest)
          false
          one
      → Fits
          (w.place e)
          (update w.timer.device d (record (w.timer.device d) { done = 0 }) e)
          (w.slots e)
          w.timer.time
          (member e rest)
          false
          one
  release_fits d e rest one last (works pl dn fs s p c a) =
      works pl (ground arith) (ground arith) s (ground arith) c a
  release_fits d e rest one last (arrived pl dn fs s p a) =
      arrived pl (ground arith) (ground arith) s (ground arith) a
  release_fits d e rest one last (held pl dn fs s p a) = elim (ℕ_discrete d e) [
    | yes same ↦ freed pl (ground arith) (ground arith) s (ground arith) refl a
    | no other ↦ held pl (ground arith) (ground arith) s (ground arith) a
  ]
  release_fits d e rest one last (freed pl dn fs s p c a) =
      freed pl (ground arith) (ground arith) s (ground arith) c a
  release_fits d e rest one last (detached pl fs) = detached pl (ground arith)

  -- The loop is over: its last device has been released.
  pub over_fits :
      (pl : Place) (v : Device) (s time : ℕ) (one : Bool)
      → Fits pl v s time false false one
      → Fits pl v s time false false false
  over_fits pl v s time one (works h dn fs e p c a) = works h dn fs e p c refl
  over_fits pl v s time one (arrived h dn fs e p a) = arrived h dn fs e p refl
  over_fits pl v s time one (held h dn fs e p a) = held h dn fs e p refl
  over_fits pl v s time one (freed h dn fs e p c a) = freed h dn fs e p c refl
  over_fits pl v s time one (detached h fs) = detached h fs

  -- The steps of a device `d`, as another one `e` or itself sees them.
  pub arrive_fits :
      (d e : ℕ) (p c a : Bool)
      → w.place d ≡ Place.working
      → Fits (w.place e) (w.timer.device e) (w.slots e) w.timer.time p c a
      → Fits
          (update w.place d Place.waiting e)
          (update w.timer.device d (record (w.timer.device d) { done = 1 }) e)
          (w.slots e)
          w.timer.time
          p
          c
          a
  arrive_fits d e p c a at f = elim (ℕ_discrete d e) [
    | yes same ↦ itself same f
    | no other ↦ rw (update_ne w.place d e _ other, update_ne w.timer.device d e _ other) f
  ]
    where
      itself :
          d ≡ e
          → Fits (w.place e) (w.timer.device e) (w.slots e) w.timer.time p c a
          → Fits
              (update w.place d Place.waiting e)
              (update w.timer.device d (record (w.timer.device d) { done = 1 }) e)
              (w.slots e)
              w.timer.time
              p
              c
              a
      itself same (works h dn fs s q r b) =
          arrived (ground arith) (ground arith) (ground arith) s q b
      itself same (arrived h dn fs s q b) = cc
      itself same (held h dn fs s q b) = cc
      itself same (freed h dn fs s q r b) = cc
      itself same (detached h fs) = cc

  pub resume_fits :
      (d e : ℕ) (p c a : Bool)
      → w.place d ≡ Place.waiting
      → (w.timer.device d).done ≡ 0
      → Fits (w.place e) (w.timer.device e) (w.slots e) w.timer.time p c a
      → Fits
          (update w.place d Place.working e)
          (w.timer.device e)
          (update w.slots d (w.slots d + 1) e)
          w.timer.time
          p
          c
          a
  resume_fits d e p c a at clear f = elim (ℕ_discrete d e) [
    | yes same ↦ itself same f
    | no other ↦ rw (update_ne w.place d e _ other, update_ne w.slots d e _ other) f
  ]
    where
      itself :
          d ≡ e
          → Fits (w.place e) (w.timer.device e) (w.slots e) w.timer.time p c a
          → Fits
              (update w.place d Place.working e)
              (w.timer.device e)
              (update w.slots d (w.slots d + 1) e)
              w.timer.time
              p
              c
              a
      itself same (works h dn fs s q r b) = cc
      itself same (arrived h dn fs s q b) = absurd (ground arith)
      itself same (held h dn fs s q b) = absurd (ground arith)
      itself same (freed h dn fs s q r b) = works (ground arith) dn fs (ground arith) q r b
      itself same (detached h fs) = cc

  pub leave_fits :
      (d e : ℕ) (p c a : Bool)
      → Fits (w.place e) (w.timer.device e) (w.slots e) w.timer.time p c a
      → Fits
          (update w.place d Place.gone e)
          (update w.timer.device d (record (w.timer.device d) { fsh = 1 }) e)
          (w.slots e)
          w.timer.time
          p
          c
          a
  leave_fits d e p c a f = elim (ℕ_discrete d e) [
    | yes same ↦ detached (ground arith) (ground arith)
    | no other ↦ rw (update_ne w.place d e _ other, update_ne w.timer.device d e _ other) f
  ]

  -- A device that is gone fits whatever the position says.
  pub gone_fits :
      (pl : Place) (v : Device) (s time : ℕ) (p c a p' c' a' : Bool)
      → pl ≡ Place.gone
      → Fits pl v s time p c a
      → Fits pl v s time p' c' a'
  gone_fits pl v s time p c a p' c' a' g (works h dn fs e q r b) = cc
  gone_fits pl v s time p c a p' c' a' g (arrived h dn fs e q b) = cc
  gone_fits pl v s time p c a p' c' a' g (held h dn fs e q b) = cc
  gone_fits pl v s time p c a p' c' a' g (freed h dn fs e q r b) = cc
  gone_fits pl v s time p c a p' c' a' g (detached h fs) = detached h fs

  -- With every device counted gone, none is at work or waits.
  pub alone_gone :
      (pl : Place) (v : Device) (s time : ℕ) (p c : Bool)
      → Fits pl v s time p c true
      → pl ≡ Place.gone
  alone_gone pl v s time p c (works h dn fs e q r b) = cc
  alone_gone pl v s time p c (arrived h dn fs e q b) = cc
  alone_gone pl v s time p c (held h dn fs e q b) = cc
  alone_gone pl v s time p c (freed h dn fs e q r b) = cc
  alone_gone pl v s time p c (detached h fs) = h
