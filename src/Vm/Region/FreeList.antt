-- ===== src/Vm/Region/FreeList.antt =====
-- The first-fit search of `get_free_vmrg_area`, byte by byte.
use hk232_assignment_os.Base.{
  ℕ, ◌+◌, ◌^◌, ◌≤◌, ◌<◌, ◌≡◌, refl, Bool, true, false, ◌&&◌, ltb, leb, if◌then◌else◌, List, [], ◌∷◌,
  All, length, arith,
}
use hk232_assignment_os.Pcb.{VmRg}
use hk232_assignment_os.Vm.{first_fit, use_up, invalid_rg}

-- 1 if the region holds address `a`, and how many regions of a list hold it.
abbrev pub covers : VmRg → ℕ → ℕ
covers rg a = if leb rg.rg_start a && ltb a rg.rg_end then 1 else 0

abbrev pub cover : List VmRg → ℕ → ℕ
cover [] a = 0
cover (rg ∷ rest) a = covers rg a + cover rest a

-- A region of user space: its bounds are in order and below 2 ^ 31.
abbrev pub IsRegion : VmRg → Type 0
IsRegion rg = (rg.rg_start ≤ rg.rg_end) × (rg.rg_end < 2 ^ 31)

cover-use_up : (rg : VmRg) (rest : List VmRg) (a : ℕ) → cover (use_up rg rest) a ≡ cover rest a
unfolding use_up
cover-use_up rg [] a = ground arith
cover-use_up rg (next ∷ rest) a = refl

-- Whether some region has room.
abbrev pub has_fit : List VmRg → ℕ → Bool
has_fit [] size = false
has_fit (rg ∷ rest) size = if leb (rg.rg_start + size) rg.rg_end then true else has_fit rest size

-- On a list of regions with ordered bounds below 2 ^ 31 of which one has room, the first such
-- region gives its first `size` bytes: every address lies in the new region and the remaining
-- list together as often as it lay in the list before.
pub first_fit-cover :
    (rgs : List VmRg) (size a : ℕ)
    → size < 2 ^ 31
    → All IsRegion rgs
    → has_fit rgs size ≡ true
    → let r = first_fit rgs size in
      (r.0.rg_end ≡ r.0.rg_start + size)
      × (r.0.rg_end < 2 ^ 31)
      × (cover rgs a ≡ covers r.0 a + cover r.1 a)
unfolding first_fit
first_fit-cover [] size a s wf fit = cc
first_fit-cover (rg ∷ rest) size a s wf fit =
    ground (arith, cover-use_up rg rest a, first_fit-cover rest size a s wf.1)

-- With no room anywhere the search leaves the list as it is and yields the invalid region.
pub first_fit_fails :
    (rgs : List VmRg) (size : ℕ)
    → size < 2 ^ 31
    → All IsRegion rgs
    → has_fit rgs size ≡ false
    → first_fit rgs size ≡ (invalid_rg, rgs)
unfolding first_fit
first_fit_fails [] size s wf none_fits = refl
first_fit_fails (rg ∷ rest) size s wf none_fits = ground (arith, first_fit_fails rest size s wf.1)

-- A first fit leaves a list of regions that is not empty.
pub first_fit-IsRegion :
    (rgs : List VmRg) (size : ℕ)
    → size < 2 ^ 31
    → All IsRegion rgs
    → has_fit rgs size ≡ true
    → let r = first_fit rgs size in IsRegion r.0 × All IsRegion r.1 × (0 < length r.1)
unfolding first_fit use_up
first_fit-IsRegion [] size s wf fit = cc
first_fit-IsRegion (rg ∷ []) size s wf fit = ground arith
first_fit-IsRegion (rg ∷ next ∷ rest) size s wf fit =
    ground (arith, first_fit-IsRegion (next ∷ rest) size s wf.1)
