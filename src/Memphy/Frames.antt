-- ===== src/Memphy/Frames.antt =====
-- The free frames of a device.
use hk232_assignment_os.Base.{
  ℕ, zero, suc, ◌+◌, ◌-◌, ◌*◌, ◌/◌, ◌≤◌, ◌≡◌, refl, ◌==◌, ltb, if◌then◌else◌, none, some, List, ◌∷◌,
  get_elem?, arith, inl, inr, Bool-cases,
}
use hk232_assignment_os.Paging.{pagesz}
use hk232_assignment_os.Memphy.{Memphy, format, format_rest, get_freefp, put_freefp, init_memphy}

get_elem?-format_rest :
    (left iter i : ℕ)
    → get_elem? (format_rest left iter) i ≡ (if ltb i left then some (iter + i) else none)
unfolding format_rest
get_elem?-format_rest zero iter i = ground arith
get_elem?-format_rest (suc left) iter zero = ground arith
get_elem?-format_rest (suc left) iter (suc i) =
    ground (arith, get_elem?-format_rest left (iter + 1) i)

get_elem?_all :
    (numfp n i : ℕ)
    → numfp ≡ suc n
    → get_elem? (0 ∷ format_rest n 1) i ≡ (if ltb i numfp then some i else none)
unfolding format_rest
get_elem?_all numfp n zero e = ground arith
get_elem?_all numfp n (suc i) e = ground (arith, get_elem?-format_rest n 1 i)

format_many :
    (garbage : List ℕ) (mp : Memphy) (n : ℕ)
    → mp.maxsz / pagesz ≡ suc (suc n)
    → format garbage mp pagesz ≡ some (0, record mp { free_fp_list = 0 ∷ format_rest (suc n) 1 })
unfolding format
format_many garbage mp n e = rw e

-- `init_memphy` of a device of at least two pages sets its size and lists its frames 0, 1, … in
-- order, as many as fit in it.
pub free_fp_list-init_memphy :
    (raw : Memphy) (block : ℕ → ℕ) (garbage : List ℕ) (max_size rdm i : ℕ)
    → 2 * pagesz ≤ max_size
    → (mp : Memphy) × (init_memphy raw block garbage max_size rdm ≡ some mp)
      × (mp.maxsz ≡ max_size)
      × (get_elem? mp.free_fp_list i ≡ (if ltb i (max_size / pagesz) then some i else none))
unfolding init_memphy
free_fp_list-init_memphy raw block garbage max_size rdm i h =
    let n : ℕ = max_size / pagesz - 2 in
    let e : max_size / pagesz ≡ suc (suc n) = omega arith in
    let raw' = record raw { storage = block; maxsz = max_size } in
    let mp1 = record raw' { free_fp_list = 0 ∷ format_rest (suc n) 1 } in
    let frames = get_elem?_all (max_size / pagesz) (suc n) i e in
    rw (format_many garbage raw' n e) (elim (Bool-cases (rdm == 0)) [
      | inl z ↦ rw z (record mp1 { rdmflg = 0; cursor = 0 }, refl, refl, frames)
      | inr z ↦ rw z (record mp1 { rdmflg = 1 }, refl, refl, frames)
    ])

-- A released frame is the next to be handed out, and the device is as before.
pub get_freefp-put_freefp :
    (mp : Memphy) (fpn : ℕ) → get_freefp (put_freefp mp fpn) ≡ some (fpn, mp)
unfolding get_freefp put_freefp
get_freefp-put_freefp mp fpn = refl
