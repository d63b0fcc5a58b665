-- ===== src/Examples/Queueing.antt =====
-- The queue and `copy` on concrete data.
use diy_ddmin.Base.{ℕ, ◌≡◌, refl, Option, none, some, [], ◌∷◌, arith, if◌then◌else◌, ◌==◌}
use diy_ddmin.Paths.{codes, bytes_eq}
use diy_ddmin.Machine.{World, done, put}
use diy_ddmin.Stdio.Writing.{Stored}
use diy_ddmin.Copy.{copy}
use diy_ddmin.Copy.Correct.{copy-Stored}
use diy_ddmin.Range.Queue.{Node, Store, ok, init_queue, push_queue, pop_queue, free_node}
use diy_ddmin.Range.Queue.Chain.{Cell, used}
use diy_ddmin.Range.Queue.Refine.{Holds, init_queue-Holds, push_queue-Holds, pop_queue-Holds}
use diy_ddmin.Examples.Lab.{lab, input_path, desk}

abbrev empty_heap : Store
empty_heap = record { nodes = λ a. none; queue = record { count = 5; front = none; rear = none } }

abbrev first_cell : Cell
first_cell = record { at = 7; job = record { rs = 2; begin = 0 } }

abbrev second_cell : Cell
second_cell = record { at = 3; job = record { rs = 2; begin = 1 } }

one_pushed :
    (s : Store) × (push_queue 7 first_cell.job (init_queue empty_heap) ≡ ok tt s)
    × Holds s (first_cell ∷ [])
    × ((b : ℕ) → used (s.nodes b) ≡ (if 7 == b then 1 else used (empty_heap.nodes b)))
one_pushed =
    push_queue-Holds (init_queue empty_heap) [] first_cell (init_queue-Holds empty_heap) refl
      (omega arith)

no_node : (n : Option Node) → used n ≡ 0 → n ≡ none
no_node none h = refl
no_node (some n) h = absurd (omega arith)

push_queue-Holds_example :
    (s : Store) × (push_queue 3 second_cell.job one_pushed.0 ≡ ok tt s)
    × Holds s (first_cell ∷ second_cell ∷ [])
    × ((b : ℕ) → used (s.nodes b) ≡ (if 3 == b then 1 else used (one_pushed.0.nodes b)))
unfolding one_pushed
push_queue-Holds_example =
    push_queue-Holds one_pushed.0 (first_cell ∷ []) second_cell one_pushed.2
      (no_node (one_pushed.0.nodes 3) (one_pushed.3 3)) (omega arith)

pop_queue-Holds_example :
    (s : Store) × (n : Node) × (pop_queue one_pushed.0 ≡ ok 7 s)
    × (s.nodes 7 ≡ some n)
    × (s.nodes ≡ one_pushed.0.nodes)
    × (n.job ≡ first_cell.job)
    × Holds s []
    × Holds (free_node 7 s) []
unfolding one_pushed
pop_queue-Holds_example = pop_queue-Holds one_pushed.0 first_cell [] one_pushed.2

copy-Stored_example :
    (w : World) × (copy lab input_path (codes "origin_input0") (desk (codes "ab")) ≡ done tt w)
    × Stored (codes "origin_input0") (codes "ab") (desk (codes "ab")) w
unfolding put bytes_eq
copy-Stored_example =
    copy-Stored lab input_path (codes "origin_input0") (codes "ab") (desk (codes "ab")) refl refl
      refl
