-- ===== src/Links/Tests.antt =====
-- The links of a list of three objects.
use nsproxy.Common.{refl, [], ◌∷◌, arith}
use nsproxy.Links.{Links, push_front, take_out, take_out_worker}
use nsproxy.Links.Segment.{Represents}
use nsproxy.Links.Front.{push_front-Represents}
use nsproxy.Links.Refines.{take_out-Represents}

abbrev empty : Links
empty = record { head = 0; next = λ a. 0; prev = λ a. 0 }

-- 7, 5, 3.
abbrev three : Links
three = push_front 7 (push_front 5 (push_front 3 empty))

empty-Represents : Represents empty []
empty-Represents = record { seg = refl; distinct = tt; proper = tt }

three-Represents : Represents three (7 ∷ 5 ∷ 3 ∷ [])
three-Represents =
    push_front-Represents (push_front 5 (push_front 3 empty)) 7 (5 ∷ 3 ∷ [])
      (push_front-Represents (push_front 3 empty) 5 (3 ∷ [])
        (push_front-Represents empty 3 [] empty-Represents (omega arith) tt) (omega arith)
        (omega arith))
      (omega arith) (omega arith)

take_out-Represents_example :
    Represents (push_front 9 empty) (9 ∷ [])
    × (Represents (take_out 5 three) (7 ∷ 3 ∷ [])
        × Represents (take_out_worker 5 three) (7 ∷ 3 ∷ []))
take_out-Represents_example =
    take_out-Represents empty three 9 5 [] (7 ∷ []) (3 ∷ []) empty-Represents (omega arith) tt
      three-Represents
