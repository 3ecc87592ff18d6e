-- ===== src/CpuTlb/Flush.antt =====
-- The two routines that are meant to flush the entries of a process.
use hk232_assignment_os.Base.{
  ℕ, zero, suc, ◌+◌, ◌*◌, ◌/◌, ◌≤◌, ◌<◌, ◌≡◌, refl, ap, fun_ext, true, false, not, ◌&&◌, ◌==◌, ltb,
  some, update, arith, Bool-cases, inl, inr,
}
use hk232_assignment_os.Memphy.{Memphy}
use hk232_assignment_os.Pcb.{Pcb}
use hk232_assignment_os.TlbCache.{tlbmemphy_read, tlbmemphy_write}
use hk232_assignment_os.CpuTlb.{
  entry_size, valid_offset, decode_int, flush_loop, tlb_flush_tlb_of, tlb_change_all_page_tables_of,
}

module _ (pid : ℕ) (mp : Memphy) where
  -- Writing back the byte that was read changes nothing.
  write_back :
      (a : ℕ)
      → a < mp.maxsz
      → (tlbmemphy_read mp a ≡ some (0, mp.storage a))
        × (tlbmemphy_write mp a (mp.storage a) ≡ some (0, mp))
  unfolding tlbmemphy_read tlbmemphy_write
  write_back a h =
      let ok : ltb a mp.maxsz ≡ true = ground arith in
      (
        rw ok refl,
        rw ok (ap (λ g. some (0, record mp { storage = g })) (fun_ext λ j. ground arith)),
      )

  -- With the local array's valid byte at 0 nothing is counted.
  flush_invalid :
      (left i count : ℕ) (entry : ℕ → ℕ)
      → (i + left) * entry_size ≤ mp.maxsz
      → entry valid_offset ≡ 0
      → flush_loop left i pid entry count mp ≡ some (count, mp)
  unfolding flush_loop
  flush_invalid zero i count entry b z = refl
  flush_invalid (suc left) i count entry b z =
      let inside : ltb mp.maxsz (i * entry_size + entry_size) ≡ false = ground arith in
      rw inside (
        rw (write_back (i * entry_size) (omega arith)).0 (
          rw z (
            flush_invalid left (i + 1) count (update entry 0 (mp.storage (i * entry_size)))
              (omega arith) z)))

  flush_any :
      (left i count : ℕ) (entry : ℕ → ℕ)
      → (i + left) * entry_size ≤ mp.maxsz
      → (k : ℕ) × (flush_loop left i pid entry count mp ≡ some (k, mp)) × (k ≤ count + 1)
  unfolding flush_loop
  flush_any zero i count entry b = (count, refl, omega arith)
  flush_any (suc left) i count entry b =
      let inside : ltb mp.maxsz (i * entry_size + entry_size) ≡ false = ground arith in
      let entry1 = update entry 0 (mp.storage (i * entry_size)) in
      let (got, put) = write_back (i * entry_size) (omega arith) in
      let stop =
        flush_invalid left (i + 1) (count + 1) (update entry1 valid_offset 0) (omega arith) refl in
      rw inside (
        rw got (elim (Bool-cases (not (entry1 valid_offset == 0) && (decode_int entry1 == pid))) [
          | inl e ↦ rw e (rw put (count + 1, stop, omega arith))
          | inr e ↦ rw e (flush_any left (i + 1) count entry1 (omega arith))
        ]))

-- Whatever the local array held, `tlb_flush_tlb_of` and `tlb_change_all_page_tables_of` end
-- without a fault, leave the device as it was and count at most one entry.
pub tlb_flush_tlb_of_keeps :
    (proc : Pcb) (entry : ℕ → ℕ) (mp : Memphy)
    → (k : ℕ) × (tlb_flush_tlb_of proc entry mp ≡ some (k, mp))
      × (tlb_change_all_page_tables_of proc entry mp ≡ some (k, mp))
      × (k ≤ 1)
unfolding tlb_flush_tlb_of tlb_change_all_page_tables_of
tlb_flush_tlb_of_keeps proc entry mp =
    let (k, e, b) = flush_any proc.pid mp (mp.maxsz / entry_size) 0 0 entry (omega arith) in
    (k, e, e, b)
