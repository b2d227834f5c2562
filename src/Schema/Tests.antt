-- ===== src/Schema/Tests.antt =====
-- Tests of the schema model.
use go_ipc.Prelude.{◌-◌, ◌^◌, ◌≡◌, some, [], ◌∷◌, arith}
use go_ipc.Schema.{scalar, string, array, u8, u64, Message, fixed_fields, layout_message}
use go_ipc.Schema.Placing.{Laid, layout_message_lem, layout_message-overflow}

abbrev point : Message
point = record { id = 1; fields = scalar u8 ∷ string ∷ scalar u64 ∷ [] }

layout_message_lem_example : Laid [] point (layout_message [] point)
unfolding fixed_fields
layout_message_lem_example = layout_message_lem [] point (tt, (tt, tt))

layout_message-overflow_example :
    layout_message []
      (record { id = 1; fields = scalar u64 ∷ array (2 ^ 31 - 8 - 7) (scalar u8) ∷ [] })
    ≡ some (record { offsets = 0 ∷ 8 ∷ []; fixed_size = 2 ^ 31; align = 8 })
layout_message-overflow_example = layout_message-overflow 1 7 (omega arith) (omega arith)
