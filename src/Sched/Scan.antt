-- ===== src/Sched/Scan.antt =====
-- The search loop of `get_mlq_proc`.
use native.Mathlib.Nat.{mod-eq_of_lt}
use native.Mathlib.Decide.{ℕ_discrete}
use hk232_assignment_os.Base.{
  ℕ, zero, suc, ◌+◌, ◌-◌, ◌%◌, ◌≤◌, ◌<◌, ◌≡◌, refl, ap, ◌∙◌, true, false, Option, none, arith,
  Bool-cases, inl, inr,
}
use hk232_assignment_os.Queue.{Queue, empty}
use hk232_assignment_os.Sched.{Sched, max_prio, exhausted, take_current, scan, get_mlq_proc}

-- The state as the scan reaches a priority: all of its slots are left.
abbrev pub at_prio {ℓ} : {A : Type ℓ} → Sched A → ℕ → Sched A
at_prio s p = record s { curr_prio = p; slot_left = max_prio - p }

module _ {ℓ} {A : Type ℓ} where
  scan_stops : (n : ℕ) (s : Sched A) → exhausted s ≡ false → scan (suc n) s ≡ take_current s
  unfolding scan
  scan_stops n s e = rw e

  scan_moves :
      (n i : ℕ) (s : Sched A)
      → empty (s.mlq_ready_queue i) ≡ true
      → scan (suc n) (at_prio s i) ≡ scan n (at_prio s ((i + 1) % max_prio))
  unfolding scan
  scan_moves n i s e = let x : exhausted (at_prio s i) ≡ true = ground arith in rw x

  scan_finds :
      (d n i : ℕ) (s : Sched A)
      → i + d < max_prio
      → d < n
      → ((q : ℕ) → i ≤ q → q < i + d → empty (s.mlq_ready_queue q) ≡ true)
      → empty (s.mlq_ready_queue (i + d)) ≡ false
      → scan n (at_prio s i) ≡ take_current (at_prio s (i + d))
  scan_finds d zero i s b r before here = absurd (omega arith)
  scan_finds zero (suc n) i s b r before here =
      let e : i + 0 ≡ i = omega arith in
      let here' = rw e at here in rw e (scan_stops n (at_prio s i) (ground (arith, here')))
  scan_finds (suc d) (suc n) i s b r before here =
      let next : (i + 1) % max_prio ≡ i + 1 = mod-eq_of_lt (omega arith) in
      let e : i + 1 + d ≡ i + suc d = omega arith in
      scan_moves n i s (before i (omega arith) (omega arith))
      ∙ rw (next, ← e)
          (scan_finds d n (i + 1) s (omega arith) (omega arith)
            (λ q lo hi. before q (omega arith) (omega arith)) (rw e here))

  scan_ends : (s : Sched A) → scan 0 s ≡ (none, s)
  unfolding scan
  scan_ends s = refl

  scan_fails :
      (n i : ℕ) (s : Sched A)
      → i + suc n ≡ max_prio
      → ((q : ℕ) → q < max_prio → empty (s.mlq_ready_queue q) ≡ true)
      → scan (suc n) (at_prio s i) ≡ (none, at_prio s 0)
  scan_fails zero i s e idle =
      let wrap : (i + 1) % max_prio ≡ 0 = omega arith in
      scan_moves 0 i s (idle i (omega arith)) ∙ rw wrap (scan_ends (at_prio s 0))
  scan_fails (suc n) i s e idle =
      let next : (i + 1) % max_prio ≡ i + 1 = mod-eq_of_lt (omega arith) in
      scan_moves (suc n) i s (idle i (omega arith))
      ∙ rw next (scan_fails n (i + 1) s (omega arith) idle)

  -- The least of the first `n` queues that holds a process, if any does.
  pub data Least (qs : ℕ → Queue A) (n : ℕ) : Type ℓ where
    least :
        (p : ℕ)
        → p < n
        → ((q : ℕ) → q < p → empty (qs q) ≡ true)
        → empty (qs p) ≡ false
        → Least qs n
    no_ready : ((q : ℕ) → q < n → empty (qs q) ≡ true) → Least qs n

  pub find-Least : (qs : ℕ → Queue A) (n : ℕ) → Least qs n
  find-Least qs zero = no_ready (λ q h. elim h [ ])
  find-Least qs (suc n) = extend (find-Least qs n)
    where
      at_end : ((q : ℕ) → q < n → empty (qs q) ≡ true) → Least qs (suc n)
      at_end idle = elim (Bool-cases (empty (qs n))) [
        | inl e ↦ no_ready (λ q h. elim (ℕ_discrete q n) [
          | yes same ↦ rw same e
          | no other ↦ idle q (omega arith)
        ])
        | inr e ↦ least n (omega arith) idle e
      ]

      extend : Least qs n → Least qs (suc n)
      extend (least p h before here) = least p (omega arith) before here
      extend (no_ready idle) = at_end idle

  pub get_continues : (s : Sched A) → exhausted s ≡ false → get_mlq_proc s ≡ take_current s
  unfolding get_mlq_proc
  get_continues s e = rw e (scan_stops 139 s e)

  pub get_restarts :
      (s : Sched A) (p : ℕ)
      → exhausted s ≡ true
      → p < max_prio
      → ((q : ℕ) → q < p → empty (s.mlq_ready_queue q) ≡ true)
      → empty (s.mlq_ready_queue p) ≡ false
      → get_mlq_proc s ≡ take_current (at_prio s p)
  unfolding get_mlq_proc
  get_restarts s p e b before here =
      let z : 0 + p ≡ p = omega arith in
      rw e (
        scan_finds p max_prio 0 s (omega arith) b (λ q lo hi. before q (omega arith)) (rw z here)
        ∙ ap (λ k. take_current (at_prio s k)) z)

  pub get_finds_none :
      (s : Sched A)
      → ((q : ℕ) → q < max_prio → empty (s.mlq_ready_queue q) ≡ true)
      → exhausted s ≡ true
      → get_mlq_proc s ≡ (none, at_prio s 0)
  unfolding get_mlq_proc
  get_finds_none s idle e = rw e (scan_fails 139 0 s refl idle)

  -- What holds of each outcome holds of `get_mlq_proc`.
  pub get_cases {κ} :
      (P : Option A × Sched A → Type κ) (s : Sched A)
      → s.curr_prio < max_prio
      → (exhausted s ≡ false → P (take_current s))
      → ((p : ℕ)
          → p < max_prio
          → empty (s.mlq_ready_queue p) ≡ false
          → P (take_current (at_prio s p)))
      → P (none, at_prio s 0)
      → P (get_mlq_proc s)
  get_cases P s b go restart idle = elim (Bool-cases (exhausted s)) [
    | inr e ↦ rw (get_continues s e) (go e)
    | inl e ↦ elim (find-Least s.mlq_ready_queue max_prio) [
      | least p h before here ↦ rw (get_restarts s p e h before here) (restart p h here)
      | no_ready none_left ↦ rw (get_finds_none s none_left e) idle
    ]
  ]
