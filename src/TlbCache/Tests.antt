-- ===== src/TlbCache/Tests.antt =====
-- A concrete cache of 64 bytes, hence of ten lines.
use hk232_assignment_os.Base.{◌≡◌, some, arith}
use hk232_assignment_os.Paging.{minus_one}
use hk232_assignment_os.Memphy.{Memphy}
use hk232_assignment_os.Sample.{ram}
use hk232_assignment_os.TlbCache.{tlb_cache_read, tlb_cache_write}
use hk232_assignment_os.TlbCache.Lines.{HasLines}
use hk232_assignment_os.TlbCache.Answers.{tlb_cache_read-tlb_cache_write}

abbrev cache : Memphy
cache = record ram { maxsz = 64 }

cache-HasLines : HasLines cache
cache-HasLines = record { one_line = omega arith; small = omega arith }

tlb_cache_read-tlb_cache_write_example :
    (mp' : Memphy) × (tlb_cache_write cache 1 5 0x8000_0003 ≡ some (0, mp'))
    × (tlb_cache_read mp' 1 5 ≡ some (minus_one, some 255))
tlb_cache_read-tlb_cache_write_example =
    tlb_cache_read-tlb_cache_write cache 1 5 0x8000_0003 cache-HasLines (omega arith) (omega arith)
      (omega arith) (omega arith) (omega arith) (omega arith)
