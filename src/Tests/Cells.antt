-- ===== src/Tests/Cells.antt =====
-- A concrete queue of cells.
use elephants.Base.{ℕ, refl, false, [], ◌∷◌, ◌==◌, if◌then◌else◌}
use elephants.Frame.{Packet}
use elephants.Frame.Cells.{Store, State, put, step_list}
use elephants.Frame.Cells.Chain.{packets_at}
use elephants.Frame.Cells.Refinement.{IsStep, queue_cell-Refines}

abbrev packet : ℕ → Packet
packet n = record { buffer = n ∷ []; len = 1; curr_offset = 0 }

-- Cells at 8 and 16; that at 24 is in no queue.
abbrev store : Store
store a = record { packet = packet a; next = if a == 8 then 16 else 0 }

abbrev queue : State
queue = (store, record { head = 8; last = 16 })

queue_cell-Refines_example :
    IsStep (put 24 false) queue (step_list (put 24 false) store (packets_at store (8 ∷ 16 ∷ [])))
queue_cell-Refines_example =
    queue_cell-Refines (put 24 false) queue (8 ∷ 16 ∷ []) (packets_at store (8 ∷ 16 ∷ []))
      (record { chain = (refl, refl, refl, (refl, refl, refl, refl)); contents = refl })
      (refl, refl)
