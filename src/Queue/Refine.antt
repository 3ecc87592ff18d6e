-- ===== src/Queue/Refine.antt =====
-- The array queue refines a list: `enqueue` appends while there is room, `dequeue` takes the head.
use hk232_assignment_os.Base.{
  ℕ, zero, suc, ◌+◌, ◌-◌, ◌<◌, ◌≡◌, refl, ap, ap₂, ◌∙◌, true, false, ◌&&◌, ◌==◌, ltb, leb,
  if◌then◌else◌, Option, none, List, [], ◌∷◌, ◌++◌, update, length, arith, Bool-cases, inl, inr,
  update_ne,
}
use hk232_assignment_os.Queue.{Queue, max_queue_size, enqueue, shift, dequeue}

module _ {ℓ} {A : Type ℓ} where
  -- `n` entries of an array from index `i` on.
  pub entries : ℕ → ℕ → (ℕ → A) → List A
  entries zero i f = []
  entries (suc n) i f = f i ∷ entries n (i + 1) f

  length-entries : (n i : ℕ) (f : ℕ → A) → length (entries n i f) ≡ n
  unfolding entries
  length-entries zero i f = refl
  length-entries (suc n) i f = ap suc (length-entries n (i + 1) f)

  -- Entries that agree, `d` places apart.
  entries_ext :
      (n i j : ℕ) (f g : ℕ → A)
      → ((k : ℕ) → k < n → f (i + k) ≡ g (j + k))
      → entries n i f ≡ entries n j g
  unfolding entries
  entries_ext zero i j f g h = refl
  entries_ext (suc n) i j f g h =
      let e : f i ≡ g j = ground (arith, h 0 (omega arith)) in
      rw (e, entries_ext n (i + 1) (j + 1) f g (λ k hk. ground (arith, h (k + 1) (omega arith))))

  entries_snoc : (n i : ℕ) (f : ℕ → A) → entries (suc n) i f ≡ entries n i f ++ f (i + n) ∷ []
  unfolding entries
  entries_snoc zero i f = let e : i ≡ i + 0 = omega arith in ap (λ k. f k ∷ []) e
  entries_snoc (suc n) i f =
      let e : i + 1 + n ≡ i + suc n = omega arith in
      ap (λ xs. f i ∷ xs) (entries_snoc n (i + 1) f)
      ∙ ap (λ k. f i ∷ (entries n (i + 1) f ++ f k ∷ [])) e

module _ {ℓ} {A : Type ℓ} where
  -- The waiting processes, oldest first.
  pub to_list : Queue A → List (Option A)
  to_list q = entries q.size 0 q.proc

  pub shift_lem :
      (n i j : ℕ) (f : ℕ → Option A)
      → shift n i f j ≡ (if leb i j && ltb j (i + n) then f (j + 1) else f j)
  unfolding shift
  shift_lem zero i j f = ground arith
  shift_lem (suc n) i j f = ground (arith, shift_lem n (i + 1) j (update f i (f (i + 1))))

  abbrev pub head : List (Option A) → Option A
  head [] = none
  head (x ∷ xs) = x

  abbrev pub tail : List (Option A) → List (Option A)
  tail [] = []
  tail (x ∷ xs) = xs

  -- `enqueue` appends the process to a queue of fewer than ten, and drops it else.
  pub to_list-enqueue :
      (q : Queue A) (p : Option A)
      → to_list (enqueue q p)
        ≡ (if ltb q.size max_queue_size then to_list q ++ p ∷ [] else to_list q)
  unfolding to_list enqueue
  to_list-enqueue q p = elim (Bool-cases (leb max_queue_size q.size)) [
    | inl full ↦ let e : ltb q.size max_queue_size ≡ false = ground arith in rw (full, e)
    | inr room ↦ let e : ltb q.size max_queue_size ≡ true = ground arith in rw (room, e) (appended)
  ]
    where
      f' : ℕ → Option A
      f' = update q.proc q.size p

      update_at : f' (0 + q.size) ≡ p
      update_at = ground arith

      appended : entries (q.size + 1) 0 f' ≡ entries q.size 0 q.proc ++ p ∷ []
      appended =
          let e : q.size + 1 ≡ suc q.size = omega arith in
          rw (e) (
            entries_snoc q.size 0 f'
            ∙ ap₂ (λ xs x. xs ++ x ∷ [])
                (entries_ext q.size 0 0 f' q.proc
                  (λ k hk. update_ne q.proc q.size (0 + k) p (omega arith)))
                (update_at))

  dequeue_lem :
      (n : ℕ) (f : ℕ → Option A)
      → let q : Queue A = record { proc = f; size = n } in
        ((dequeue q).0 ≡ head (entries n 0 f)) × (to_list (dequeue q).1 ≡ tail (entries n 0 f))
  unfolding to_list dequeue entries
  dequeue_lem zero f = (refl, refl)
  dequeue_lem (suc n) f =
      let e : suc n - 1 ≡ n = omega arith in
      let z : (suc n == 0) ≡ false = ground arith in
      rw (z, e)
        (
          refl,
          entries_ext n 0 1 (update (shift n 0 f) n none) f
              (λ k hk. ground (arith, shift_lem n 0 (0 + k) f)),
        )

  -- `dequeue` returns the oldest process, whatever the priorities of the processes in the queue,
  -- and NULL on an empty queue, and leaves the others in order.
  pub to_list-dequeue :
      (q : Queue A)
      → ((dequeue q).0 ≡ head (to_list q)) × (to_list (dequeue q).1 ≡ tail (to_list q))
  unfolding to_list
  to_list-dequeue q = dequeue_lem q.size q.proc
