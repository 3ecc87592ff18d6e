-- ===== src/Timer/Keeping.antt =====
-- The invariant of the timer and its devices, kept by every step.
use native.Mathlib.Decide.{ℕ_discrete}
use hk232_assignment_os.Base.{
  ℕ, ◌≡◌, inl, inr, refl, ◌∙◌, true, ◌&&◌, ◌==◌, some, List, [], ◌∷◌, All, update_ne, arith,
  Bool-cases,
}
use mathlib.Core.Option.{some-injective}
use hk232_assignment_os.Timer.{
  Position, Timer, timer_routine, timer_step, next_slot, detach_event, stop_timer,
}
use hk232_assignment_os.Timer.World.{
  World, member, Step, tick, arrive, resume, leave, stop, IsStart, Reach, here, later, works,
  IsSynced,
}
use hk232_assignment_os.Timer.World.Pace.{
  collect_fits, time_fits, release_fits, over_fits, arrive_fits, resume_fits, leave_fits, gone_fits,
}

-- A list lists its own entries.
member-All :
    (xs : List ℕ) (l : List ℕ)
    → ((d : ℕ) → member d xs ≡ true → member d l ≡ true)
    → All (λ d. member d l ≡ true) xs
member-All [] l h = tt
member-All (x ∷ xs) l h = (h x (ground arith), member-All xs l (λ d m. h d (ground arith)))

-- Every step of the timer keeps the invariant.
routine-IsSynced :
    (w : World) (at : Position) (t : Timer)
    → IsSynced w at
    → timer_routine w.timer at ≡ some t
    → IsSynced (record w { timer = t }) t.position
unfolding timer_routine
routine-IsSynced w Position.unborn t h e = cc
routine-IsSynced w Position.exited t h e = cc
routine-IsSynced w Position.head t h e = elim (Bool-cases (w.timer.timer_stop == 0)) [
  | inl go ↦ rw (← some-injective _ _ (rw go at e)) (record {
    distinct = h.distinct;
    rest_distinct = h.distinct;
    rest_listed = member-All w.timer.dev_list w.timer.dev_list (λ d m. m);
    tally = omega arith;
    stopped = h.stopped;
    fits = λ d m. rw m (h.fits d m);
  })
  | inr halt ↦ rw (← some-injective _ _ (rw halt at e)) (record {
    distinct = h.distinct;
    rest_distinct = tt;
    rest_listed = tt;
    tally = tt;
    stopped = h.stopped;
    fits = λ d m. gone_fits w _ _ _ _ _ _ _ _ _ _ (h.stopped (ground arith) d m) (h.fits d m);
  })
]
routine-IsSynced w (Position.collect [] f ev) t h e = rw (← some-injective _ _ e) (record {
  distinct = h.distinct;
  rest_distinct = h.distinct;
  rest_listed = member-All w.timer.dev_list w.timer.dev_list (λ d m. m);
  tally = tt;
  stopped = h.stopped;
  fits = λ d m. time_fits w _ _ _ _ _ _ m (h.fits d m);
})
routine-IsSynced w (Position.collect (d ∷ rest) f ev) t h e =
    elim (Bool-cases (((w.timer.device d).done == 0) && ((w.timer.device d).fsh == 0))) [
      | inl blocked ↦ let none_left = rw blocked at e in cc
      | inr go ↦ rw (← some-injective _ _ (rw go at e)) (record {
        distinct = h.distinct;
        rest_distinct = h.rest_distinct.1;
        rest_listed = h.rest_listed.1;
        tally = ground (arith, h.tally);
        stopped = h.stopped;
        fits = λ k m. collect_fits w d k rest f ev h.tally go (h.fits k m);
      })
    ]
routine-IsSynced w (Position.release [] f ev) t h e = elim (Bool-cases (f == ev)) [
  | inl all_gone ↦ rw (← some-injective _ _ (rw all_gone at e)) (record {
    distinct = h.distinct;
    rest_distinct = tt;
    rest_listed = tt;
    tally = tt;
    stopped = h.stopped;
    fits = λ d m. rw all_gone at (h.fits d m);
  })
  | inr more ↦ rw (← some-injective _ _ (rw more at e)) (record {
    distinct = h.distinct;
    rest_distinct = tt;
    rest_listed = tt;
    tally = tt;
    stopped = h.stopped;
    fits = λ d m. over_fits w _ _ _ _ _ (h.fits d m);
  })
]
routine-IsSynced w (Position.release (d ∷ rest) f ev) t h e = rw (← some-injective _ _ e) (record {
  distinct = h.distinct;
  rest_distinct = h.rest_distinct.1;
  rest_listed = h.rest_listed.1;
  tally = tt;
  stopped = h.stopped;
  fits = λ k m. release_fits w d k rest _ h.rest_distinct.0 (h.fits k m);
})

-- Every step of the timer or of a device keeps the invariant: each device of the list that is not
-- detached has ended as many slots as the time says, or one fewer while it waits to be released.
pub Step-IsSynced :
    {w w' : World} → Step w w' → IsSynced w w.timer.position → IsSynced w' w'.timer.position
unfolding next_slot detach_event stop_timer timer_step
Step-IsSynced {w} (tick {t} e) h = routine-IsSynced w w.timer.position t h e
Step-IsSynced {w} (arrive d at) h = record {
  distinct = h.distinct;
  rest_distinct = h.rest_distinct;
  rest_listed = h.rest_listed;
  tally = h.tally;
  stopped = λ s k m. elim (ℕ_discrete d k) [
    | yes same ↦ let g = h.stopped s k m in cc
    | no other ↦ update_ne w.place d k _ other ∙ h.stopped s k m
  ];
  fits = λ k m. arrive_fits w d k _ _ _ at (h.fits k m);
}
Step-IsSynced {w} (resume d at clear) h = record {
  distinct = h.distinct;
  rest_distinct = h.rest_distinct;
  rest_listed = h.rest_listed;
  tally = h.tally;
  stopped = λ s k m. elim (ℕ_discrete d k) [
    | yes same ↦ let g = h.stopped s k m in cc
    | no other ↦ update_ne w.place d k _ other ∙ h.stopped s k m
  ];
  fits = λ k m. resume_fits w d k _ _ _ at clear (h.fits k m);
}
Step-IsSynced {w} (leave d at) h = record {
  distinct = h.distinct;
  rest_distinct = h.rest_distinct;
  rest_listed = h.rest_listed;
  tally = h.tally;
  stopped = λ s k m. let g = h.stopped s k m in ground arith;
  fits = λ k m. leave_fits w d k _ _ _ (h.fits k m);
}
Step-IsSynced {w} (stop all_gone) h = record {
  distinct = h.distinct;
  rest_distinct = h.rest_distinct;
  rest_listed = h.rest_listed;
  tally = h.tally;
  stopped = λ s. all_gone;
  fits = h.fits;
}

IsStart-IsSynced : (w : World) → IsStart w → IsSynced w w.timer.position
IsStart-IsSynced w h = rw h.ready (record {
  distinct = h.distinct;
  rest_distinct = tt;
  rest_listed = tt;
  tally = tt;
  stopped = λ s. absurd (s h.no_stop);
  fits = λ d m.
      let (p, dn, fs, s) = h.fresh d m in
      works p dn fs (omega (arith, h.at_zero, s)) refl refl refl;
})

pub Reach-IsSynced : {w w' : World} → IsStart w → Reach w w' → IsSynced w' w'.timer.position
Reach-IsSynced {w} h here = IsStart-IsSynced w h
Reach-IsSynced h (later r s) = Step-IsSynced s (Reach-IsSynced h r)
