-- ===== src/Timer/Rounds.antt =====
-- The timer's thread on its own: from the test of its loop to the next, once all devices are done.
use native.Mathlib.Decide.{ℕ_discrete}
use mathlib.Core.Option.{some-injective}
use hk232_assignment_os.Base.{
  ℕ, zero, suc, ◌+◌, ◌≡◌, refl, ◌∙◌, true, false, ◌&&◌, ◌==◌, if◌then◌else◌, Option, some, List, [],
  ◌∷◌, length, All, update, arith, ◌>>=◌, >>=-eq-some,
}
use hk232_assignment_os.Timer.{Device, Position, Timer, timer_step, set_device}
use hk232_assignment_os.Timer.World.{member}

-- `n` steps of the timer in a row.
abbrev pub steps : ℕ → Timer → Option Timer
steps zero t = some t
steps (suc n) t = timer_step t >>= λ t'. steps n t'

steps_join :
    (m n : ℕ) (t u : Timer) (r : Option Timer)
    → steps m t ≡ some u
    → steps n u ≡ r
    → steps (m + n) t ≡ r
steps_join zero n t u r e q = let z : 0 + n ≡ n = omega arith in rw (z, some-injective t u e) q
steps_join (suc m) n t u r e q =
    let (v, first, others) = >>=-eq-some (timer_step t) (steps m) e in
    let z : suc m + n ≡ suc (m + n) = omega arith in rw z (rw first (steps_join m n v u r others q))

-- The devices of a list that are detached.
abbrev pub finished : (ℕ → Device) → List ℕ → ℕ
finished v [] = 0
finished v (d ∷ rest) = (if (v d).fsh == 0 then 0 else 1) + finished v rest

abbrev pub HasArrived : (ℕ → Device) → ℕ → Type 0
HasArrived v d = (((v d).done == 0) && ((v d).fsh == 0)) ≡ false

collect_every :
    (t : Timer) (rest : List ℕ) (f ev : ℕ)
    → All (HasArrived t.device) rest
    → steps (length rest) (record t { position = Position.collect rest f ev })
      ≡ some (record t {
        position = Position.collect [] (f + finished t.device rest) (ev + length rest);
      })
unfolding timer_step
collect_every t [] f ev h = ground arith
collect_every t (d ∷ rest) f ev h = rw h.0 (collect_every t rest _ (ev + 1) h.1 ∙ ground arith)

-- The devices once those of a list are released.
abbrev pub cleared : (ℕ → Device) → List ℕ → ℕ → Device
cleared v [] = v
cleared v (d ∷ rest) = cleared (update v d (record (v d) { done = 0 })) rest

release_every :
    (t : Timer) (rest : List ℕ) (f ev : ℕ)
    → steps (length rest) (record t { position = Position.release rest f ev })
      ≡ some (record t { device = cleared t.device rest; position = Position.release [] f ev })
unfolding timer_step
release_every t [] f ev = refl
release_every t (d ∷ rest) f ev =
    release_every (set_device t d (record (t.device d) { done = 0 })) rest f ev

cleared_fsh : (v : ℕ → Device) (l : List ℕ) (d : ℕ) → (cleared v l d).fsh ≡ (v d).fsh
cleared_fsh v [] d = refl
cleared_fsh v (x ∷ l) d = cleared_fsh (update v x (record (v x) { done = 0 })) l d ∙ ground arith

cleared_keeps : (v : ℕ → Device) (l : List ℕ) (d : ℕ) → (v d).done ≡ 0 → (cleared v l d).done ≡ 0
cleared_keeps v [] d h = h
cleared_keeps v (x ∷ l) d h =
    cleared_keeps (update v x (record (v x) { done = 0 })) l d (ground arith)

cleared_done : (v : ℕ → Device) (l : List ℕ) (d : ℕ) → member d l ≡ true → (cleared v l d).done ≡ 0
cleared_done v [] d m = cc
cleared_done v (x ∷ l) d m = elim (ℕ_discrete d x) [
  | yes same ↦ cleared_keeps (update v x (record (v x) { done = 0 })) l d (ground arith)
  | no other ↦ cleared_done (update v x (record (v x) { done = 0 })) l d (ground arith)
]

head_step :
    (t : Timer)
    → t.position ≡ Position.head
    → t.timer_stop ≡ 0
    → steps 1 t ≡ some (record t { position = Position.collect t.dev_list 0 0 })
unfolding timer_step
head_step t at go = simp (at, go)

time_step :
    (t : Timer) (f ev : ℕ)
    → steps 1 (record t { position = Position.collect [] f ev })
      ≡ some (record t { time = t.time + 1; position = Position.release t.dev_list f ev })
unfolding timer_step
time_step t f ev = refl

over_step :
    (t : Timer) (f ev : ℕ)
    → steps 1 (record t { position = Position.release [] f ev })
      ≡ some (record t { position = if f == ev then Position.exited else Position.head })
unfolding timer_step
over_step t f ev = refl

-- From the test of its loop, when `timer_stop` is 0 and every device of its list is done or
-- detached, the timer comes back there after two steps for each device of the list and three more,
-- or to its end if all devices of the list are detached: one slot later, with no device of the
-- list done, and the same devices detached.
pub slot_completes :
    (t : Timer)
    → t.position ≡ Position.head
    → t.timer_stop ≡ 0
    → All (HasArrived t.device) t.dev_list
    → (t' : Timer) × (steps (length t.dev_list + length t.dev_list + 3) t ≡ some t')
      × (t'.time ≡ t.time + 1)
      × (t'.position ≡ (
          if finished t.device t.dev_list == length t.dev_list
          then Position.exited
          else Position.head))
      × ((d : ℕ) → member d t.dev_list ≡ true → (t'.device d).done ≡ 0)
      × ((d : ℕ) → (t'.device d).fsh ≡ (t.device d).fsh)
slot_completes t at go h =
    let l = t.dev_list in
    let n = length l in
    let f = finished t.device l in
    let t1 = record t { position = Position.collect l 0 0 } in
    let t2 = record t { position = Position.collect [] (0 + f) (0 + n) } in
    let t3 = record t { time = t.time + 1; position = Position.release l (0 + f) (0 + n) } in
    let t4 = record t3 {
      device = cleared t.device l;
      position = Position.release [] (0 + f) (0 + n);
    } in
    let t5 = record t4 { position = if 0 + f == 0 + n then Position.exited else Position.head } in
    let count : n + n + 3 ≡ 1 + (n + (1 + (n + 1))) = omega arith in
    (
      t5,
      rw count (
          steps_join 1 _ t t1 _ (head_step t at go) (
            steps_join n _ t1 t2 _ (collect_every t l 0 0 h) (
              steps_join 1 _ t2 t3 _ (time_step t _ _)
                (steps_join n _ t3 t4 _ (release_every t3 l (0 + f) (0 + n)) (over_step t4 _ _))))),
      refl,
      ground arith,
      (λ d m. cleared_done t.device l d m),
      (λ d. cleared_fsh t.device l d),
    )
