-- ===== src/Os/Working.antt =====
-- A thread's own steps leave it at work.
use hk232_assignment_os.Base.{ℕ, ◌≡◌, some, ap, arith}
use mathlib.Core.Option.{some-injective}
use hk232_assignment_os.Timer.World.{Place}
use hk232_assignment_os.Os.{
  Shared, Phase, inside, calling, waiting, leaving, stopped, Spot, top, fetch, recheck, LdSpot,
  loading, await, adding, Cpu, Ld, Config, cpu_top, cpu_fetch, cpu_recheck, cpu_at, ld_at,
  ld_loading, ld_await, ld_adding,
}

abbrev pub place_of : Phase → Place
place_of inside = Place.working
place_of calling = Place.working
place_of waiting = Place.waiting
place_of leaving = Place.working
place_of stopped = Place.gone

cpu_top_working :
    (s s' : Shared) (c k : Cpu)
    → cpu_top s c ≡ some (s', k)
    → c.phase ≡ inside
    → place_of k.phase ≡ Place.working
unfolding cpu_top
cpu_top_working s s' c k e h = ground (arith, e, h)

cpu_fetch_working :
    (s s' : Shared) (c k : Cpu)
    → cpu_fetch s c ≡ some (s', k)
    → c.phase ≡ inside
    → place_of k.phase ≡ Place.working
unfolding cpu_fetch
cpu_fetch_working s s' c k e h = ground (arith, e, h)

cpu_recheck_working :
    (t : ℕ) (s s' : Shared) (c k : Cpu)
    → cpu_recheck t s c ≡ some (s', k)
    → place_of k.phase ≡ Place.working
unfolding cpu_recheck
cpu_recheck_working t s s' c k e = ground (arith, e)

pub cpu_at_working :
    (at : Spot) (t : ℕ) (s s' : Shared) (c k : Cpu)
    → cpu_at at t s c ≡ some (s', k)
    → c.phase ≡ inside
    → place_of k.phase ≡ Place.working
unfolding cpu_at
cpu_at_working top t s s' c k e h = cpu_top_working s s' c k e h
cpu_at_working fetch t s s' c k e h = cpu_fetch_working s s' c k e h
cpu_at_working recheck t s s' c k e h = cpu_recheck_working t s s' c k e

module _ (config : Config) where
  ld_loading_working :
      (s s' : Shared) (l k : Ld)
      → ld_loading config s l ≡ some (s', k)
      → l.phase ≡ inside
      → place_of k.phase ≡ Place.working
  unfolding ld_loading
  ld_loading_working s s' l k e h = ground (arith, e, h)

  ld_await_working :
      (time : ℕ) (l : Ld)
      → l.phase ≡ inside
      → place_of (ld_await config time l).phase ≡ Place.working
  unfolding ld_await
  ld_await_working time l h = ground (arith, h)

  ld_adding_working :
      (s s' : Shared) (l k : Ld)
      → ld_adding config s l ≡ some (s', k)
      → place_of k.phase ≡ Place.working
  unfolding ld_adding
  ld_adding_working s s' l k e = ground (arith, e)

  pub ld_at_working :
      (at : LdSpot) (time : ℕ) (s s' : Shared) (l k : Ld)
      → ld_at config at time s l ≡ some (s', k)
      → l.phase ≡ inside
      → place_of k.phase ≡ Place.working
  unfolding ld_at
  ld_at_working loading time s s' l k e h = ld_loading_working s s' l k e h
  ld_at_working await time s s' l k e h =
      rw (ap (λ r. r.1) (some-injective _ _ e)) at (ld_await_working time l h)
  ld_at_working adding time s s' l k e h = ld_adding_working s s' l k e
