-- ===== src/Schema/CheckTests.antt =====
-- Tests of the model of `Check`.
use go_ipc.Prelude.{List, [], ◌∷◌}
use go_ipc.Schema.{u32}
use go_ipc.Schema.Parser.{scalar, ref, array, Message}
use go_ipc.Schema.Check.{check}
use go_ipc.Schema.Checked.{Approved, check_lem}

-- A line has two points, and comes first.
abbrev declared : List Message
declared =
    record {
      name = 76 ∷ [];
      id = 1;
      pos = (3, 9);
      id_pos = (3, 13);
      fields =
          record { name = 97 ∷ []; type_of = array 2 (ref (80 ∷ []) (4, 8)) (4, 5); pos = (4, 3) }
          ∷ [];
    }
    ∷ record {
      name = 80 ∷ [];
      id = 2;
      pos = (7, 9);
      id_pos = (7, 13);
      fields = record { name = 120 ∷ []; type_of = scalar u32 (8, 5); pos = (8, 3) } ∷ [];
    }
    ∷ []

check_lem_example : Approved [] declared (check [] declared)
check_lem_example = check_lem [] declared
