-- ===== src/Schema/ParserTests.antt =====
-- Tests of the parser model.
use go_ipc.Prelude.{◌+◌, ◌≡◌, ◌≢◌, [], ◌∷◌, length, refl, arith}
use go_ipc.Schema.{u32}
use go_ipc.Schema.Lexer.{good, spent}
use go_ipc.Schema.Parser.{scalar, ref, array, Schema, parse_tokens, parse}
use go_ipc.Schema.Printer.{print}
use go_ipc.Schema.RoundTrip.{parse_tokens-print}
use go_ipc.Schema.Total.{parse-total}

abbrev written : Schema
written = record {
  package_name = 105 ∷ 112 ∷ 99 ∷ [];
  package_pos = (1, 9);
  messages =
      record {
        name = 80 ∷ [];
        id = 42;
        pos = (3, 9);
        id_pos = (3, 13);
        fields =
            record { name = 97 ∷ []; type_of = scalar u32 (4, 5); pos = (4, 3) }
            ∷ record {
              name = 98 ∷ [];
              type_of = array 3 (ref (81 ∷ []) (5, 9)) (5, 5);
              pos = (5, 3);
            }
            ∷ [];
      }
      ∷ [];
}

parse_tokens-print_example :
    parse_tokens (length (print written) + 1) (print written) ≡ good written
parse_tokens-print_example =
    parse_tokens-print written ((omega arith, (tt, ((omega arith, (refl, refl, refl)), tt))), tt)

parse-total_example : parse (112 ∷ 32 ∷ 123 ∷ 10 ∷ []) ≢ spent
parse-total_example = parse-total (112 ∷ 32 ∷ 123 ∷ 10 ∷ [])
