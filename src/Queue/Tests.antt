-- ===== src/Queue/Tests.antt =====
-- Concrete queues.
use hk232_assignment_os.Base.{ℕ, ◌≡◌, none, some, [], ◌∷◌, ◌++◌, ◌==◌, if◌then◌else◌}
use hk232_assignment_os.Queue.{Queue, enqueue, dequeue}
use hk232_assignment_os.Queue.Refine.{to_list, head, tail, to_list-enqueue, to_list-dequeue}

abbrev two_waiting : Queue ℕ
two_waiting = record {
  proc = λ i. if i == 0 then some 11 else (if i == 1 then some 12 else none);
  size = 2;
}

to_list-enqueue_example :
    to_list (enqueue two_waiting (some 13)) ≡ to_list two_waiting ++ some 13 ∷ []
to_list-enqueue_example = to_list-enqueue two_waiting (some 13)

to_list-dequeue_example :
    ((dequeue two_waiting).0 ≡ head (to_list two_waiting))
    × (to_list (dequeue two_waiting).1 ≡ tail (to_list two_waiting))
to_list-dequeue_example = to_list-dequeue two_waiting
