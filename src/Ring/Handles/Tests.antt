-- ===== src/Ring/Handles/Tests.antt =====
-- Tests of the slot handles.
use go_ipc.Prelude.{ℕ, Bool, false, [], arith}
use go_ipc.Ring.{fresh_ring}
use go_ipc.Ring.Handles.{Handle, take_slot}
use go_ipc.Ring.Handles.Held.{IsHandle, Handed, take_slot_lem}

abbrev new_handle : Handle
new_handle = record { idle = []; owned = [] }

new_handle-IsHandle : IsHandle 9 new_handle [] (fresh_ring 4096 0)
new_handle-IsHandle = record { apart = λ j. omega arith; mine = λ j p. absurd (omega arith) }

abbrev nobody : ℕ → Bool
nobody id = false

take_slot_lem_example : Handed 9 [] (take_slot 9 nobody new_handle (fresh_ring 4096 0))
take_slot_lem_example =
    take_slot_lem 9 nobody (λ e. cc) new_handle [] (fresh_ring 4096 0) new_handle-IsHandle
