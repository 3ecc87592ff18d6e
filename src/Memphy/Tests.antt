-- ===== src/Memphy/Tests.antt =====
-- Concrete devices.
use hk232_assignment_os.Base.{◌%◌, [], ◌∷◌}
use hk232_assignment_os.Memphy.{Memphy}

-- 1024 bytes of random access, with two frames free.
abbrev random_device : Memphy
random_device = record {
  storage = λ i. i % 100;
  maxsz = 1024;
  rdmflg = 1;
  cursor = 0;
  free_fp_list = 2 ∷ 3 ∷ [];
  used_fp_list = [];
}

abbrev sequential_device : Memphy
sequential_device = record random_device { rdmflg = 0 }
