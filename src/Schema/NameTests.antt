-- ===== src/Schema/NameTests.antt =====
-- Tests of the model of `names`.
use go_ipc.Prelude.{◌≡◌, ◌↔◌, [], ◌∷◌, refl}
use go_ipc.Schema.{u32}
use go_ipc.Schema.Parser.{Schema, scalar}
use go_ipc.Schema.Names.{names, field_names, message_names, constant_clashes, snake, camel}
use go_ipc.Schema.Words.{lexicon}
use go_ipc.Schema.Unclashed.{IsUnclashed, names_iff}

-- `HTTPReq` in C, and `ab_c` in Go.
snake_http :
    snake (72 ∷ 84 ∷ 84 ∷ 80 ∷ 82 ∷ 101 ∷ 113 ∷ [])
    ≡ 104 ∷ 116 ∷ 116 ∷ 112 ∷ 95 ∷ 114 ∷ 101 ∷ 113 ∷ []
unfolding snake
snake_http = refl

camel_words : camel (97 ∷ 98 ∷ 95 ∷ 99 ∷ []) ≡ 65 ∷ 98 ∷ 67 ∷ []
unfolding camel
camel_words = refl

-- Two messages, with a field each.
abbrev declared : Schema
declared = record {
  package_name = 112 ∷ [];
  package_pos = (1, 9);
  messages =
      record {
        name = 76 ∷ [];
        id = 1;
        pos = (3, 9);
        id_pos = (3, 13);
        fields = record { name = 97 ∷ []; type_of = scalar u32 (4, 5); pos = (4, 3) } ∷ [];
      }
      ∷ record {
        name = 80 ∷ [];
        id = 1;
        pos = (7, 9);
        id_pos = (7, 13);
        fields = record { name = 105 ∷ 102 ∷ []; type_of = scalar u32 (8, 5); pos = (8, 3) } ∷ [];
      }
      ∷ [];
}

-- The second message has the type ID of the first, and a field that is a reserved word.
declared_errors : names lexicon declared ≡ (7, 13) ∷ (8, 3) ∷ []
unfolding names field_names message_names constant_clashes camel snake
declared_errors = refl

names_iff_example : (names lexicon declared ≡ []) ↔ IsUnclashed lexicon declared
names_iff_example = names_iff lexicon declared
