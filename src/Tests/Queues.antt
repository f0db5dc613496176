-- ===== src/Tests/Queues.antt =====
-- The list of the elements 21, 22 and 23, and a fourth element, 24.
use disir_c.Prelude.{refl, none, some, [], ◌∷◌, arith, ◌==◌, ltb, if◌then◌else◌}
use disir_c.Queue.{Queue, enqueue_conditional, remove, remove_safe}
use disir_c.Queue.Chain.{Represents}
use disir_c.Queue.Insert.Enqueue.{Leaves}
use disir_c.Queue.Insert.Conditional.{enqueue_conditional-Leaves}
use disir_c.Queue.Search.{remove-delete, remove_safe-delete, SafelyRemoved}

abbrev three : Queue
three = record {
  first = some 21;
  next = λ c. if c == 21 then some 22 else if c == 22 then some 23 else none;
  prev = λ c. if c == 21 then some 23 else if c == 22 then some 21 else some 22;
}

three-Represents : Represents three (21 ∷ 22 ∷ 23 ∷ [])
three-Represents = (refl, refl, (refl, refl, (refl, refl, refl)), λ c. ground arith)

enqueue_conditional-Leaves_example :
    Leaves (enqueue_conditional 3 24 (λ e. ltb 22 e) three) (21 ∷ 22 ∷ 24 ∷ 23 ∷ [])
enqueue_conditional-Leaves_example =
    enqueue_conditional-Leaves (λ e. ltb 22 e) 24 three 3 (21 ∷ 22 ∷ 23 ∷ []) three-Represents refl
      (omega arith)

remove-delete_example : Leaves (remove 22 three) (21 ∷ 23 ∷ [])
remove-delete_example = remove-delete three 22 (21 ∷ 22 ∷ 23 ∷ []) three-Represents (omega arith)

remove_safe-delete_example : SafelyRemoved 22 (21 ∷ 22 ∷ 23 ∷ []) (remove_safe 4 22 three)
remove_safe-delete_example =
    remove_safe-delete three 22 (21 ∷ 22 ∷ 23 ∷ []) 4 three-Represents (omega arith)
