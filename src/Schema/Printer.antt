-- ===== src/Schema/Printer.antt =====
-- A printer of schemas into tokens, which the parser of parse.go is compared with. Numbers are printed in hex, with
-- eight digits, and each declaration on a line of its own.
use go_ipc.Prelude.{
  ℕ, zero, suc, ◌+◌, ◌*◌, ◌/◌, ◌%◌, ◌^◌, ◌<◌, ◌≡◌, Bool, true, false, Option, none, some, List, [],
  ◌∷◌, ◌++◌, All, ltb, if◌then◌else◌, lt→ltb, refl, ap, ◌∙◌, arith,
}
use go_ipc.Schema.Lexer.{
  Kind, eof, newline, ident, number, lbrace, rbrace, lbrack, rbrack, equals, Token,
}
use go_ipc.Schema.Parser.{
  Syntax, scalar, string, bytes, ref, array, Field, Message, Schema, eq_text, scalars, scalar_name,
  string_name, bytes_name, find_scalar, digit_value, digits_value, parse_num, parse_uint,
  package_word, message_word,
}

abbrev pub hex_char : ℕ → ℕ
hex_char d = if ltb d 10 then 48 + d else 87 + d

unfoldable pub hex_digits : ℕ → ℕ → List ℕ
hex_digits zero n = []
hex_digits (suc k) n = hex_digits k (n / 16) ++ (hex_char (n % 16) ∷ [])

abbrev pub number_text : ℕ → List ℕ
number_text n = 48 ∷ 120 ∷ 48 ∷ hex_digits 8 n

abbrev pub mark : Kind → Token
mark k = record { kind = k; text = []; pos = (0, 0) }

abbrev pub print_type : Syntax → List Token → List Token
print_type (scalar k at) rest = record { kind = ident; text = scalar_name k; pos = at } ∷ rest
print_type (string at) rest = record { kind = ident; text = string_name; pos = at } ∷ rest
print_type (bytes at) rest = record { kind = ident; text = bytes_name; pos = at } ∷ rest
print_type (ref name at) rest = record { kind = ident; text = name; pos = at } ∷ rest
print_type (array len elem at) rest =
    record { kind = lbrack; text = []; pos = at }
    ∷ record { kind = number; text = number_text len; pos = (0, 0) }
    ∷ mark rbrack
    ∷ print_type elem rest

abbrev pub print_fields : List Field → List Token → List Token
print_fields [] rest = rest
print_fields (f ∷ fs) rest =
    record { kind = ident; text = f.name; pos = f.pos }
    ∷ print_type f.type_of (mark newline ∷ print_fields fs rest)

abbrev pub print_message : Message → List Token → List Token
print_message m rest =
    record { kind = ident; text = m.name; pos = m.pos }
    ∷ mark equals
    ∷ record { kind = number; text = number_text m.id; pos = m.id_pos }
    ∷ mark lbrace
    ∷ mark newline
    ∷ print_fields m.fields (mark rbrace ∷ mark newline ∷ rest)

abbrev pub print_messages : List Message → List Token
print_messages [] = mark eof ∷ []
print_messages (m ∷ ms) =
    record { kind = ident; text = message_word; pos = (0, 0) } ∷ print_message m (print_messages ms)

abbrev pub print : Schema → List Token
print s =
    record { kind = ident; text = package_word; pos = (0, 0) }
    ∷ record { kind = ident; text = s.package_name; pos = s.package_pos }
    ∷ mark newline
    ∷ print_messages s.messages

-- What can be written in a schema: no reference has the name of a type that is built in, and numbers are in range.
abbrev pub IsWritten : Syntax → Type 0
IsWritten (ref name at) =
    (find_scalar scalars name ≡ none)
    × (eq_text name string_name ≡ false)
    × (eq_text name bytes_name ≡ false)
IsWritten (array len elem at) = (len < 2 ^ 31) × IsWritten elem
IsWritten t = Unit

abbrev pub IsWrittenMessage : Message → Type 0
IsWrittenMessage m = (m.id < 2 ^ 32) × All (λ (f : Field). IsWritten f.type_of) m.fields

digit_value-hex_char : (d : ℕ) → d < 16 → digit_value (hex_char d) ≡ some d
digit_value-hex_char d h = ground arith

-- One digit more, whatever follows it.
abbrev one_digit : ℕ → Option ℕ → (ℕ → Option ℕ) → Option ℕ
one_digit base o f = elim o [ none ↦ none | some c ↦ if ltb c base then f c else none ]

one_digit-map :
    (base v w : ℕ) (o : Option ℕ) (f g : ℕ → Option ℕ)
    → ((c : ℕ) → f c ≡ some v → g c ≡ some w)
    → one_digit base o f ≡ some v
    → one_digit base o g ≡ some w
one_digit-map base v w none f g h e = absurd cc
one_digit-map base v w (some c) f g h e = pick (ltb c base) e
  where
    pick : (t : Bool) → (if t then f c else none) ≡ some v → (if t then g c else none) ≡ some w
    pick true e = h c e
    pick false e = absurd cc

some-injective : (a b : ℕ) → some a ≡ some b → a ≡ b
some-injective a b e = ap (λ (o : Option ℕ). elim o [ some x ↦ x | none ↦ 0 ]) e

digits_value-append :
    (base acc : ℕ) (xs : List ℕ) (b v d : ℕ)
    → digits_value base acc xs ≡ some v
    → digit_value b ≡ some d
    → ltb d base ≡ true
    → digits_value base acc (xs ++ (b ∷ [])) ≡ some (v * base + d)
unfolding digits_value
digits_value-append base acc [] b v d e f g = rw (digits_value, f, g, some-injective acc v e) refl
digits_value-append base acc (x ∷ xs) b v d e f g =
    one_digit-map base v (v * base + d) (digit_value x) (λ c. digits_value base (acc * base + c) xs)
      (λ c. digits_value base (acc * base + c) (xs ++ (b ∷ [])))
      (λ c h. digits_value-append base (acc * base + c) xs b v d h f g) e

digits_value-hex_digits : (k n : ℕ) → n < 16 ^ k → digits_value 16 0 (hex_digits k n) ≡ some n
unfolding hex_digits digits_value
digits_value-hex_digits zero n h = ap some (omega (arith, h))
digits_value-hex_digits (suc k) n h =
    let ih = digits_value-hex_digits k (n / 16) (omega arith) in
    let more =
      digits_value-append 16 0 (hex_digits k (n / 16)) (hex_char (n % 16)) (n / 16) (n % 16) ih
        (digit_value-hex_char (n % 16) (omega arith)) (ground arith) in
    more ∙ ap some (omega arith)

pub parse_num-number_text :
    (bits n : ℕ) → n < 2 ^ bits → n < 2 ^ 32 → parse_num bits (number_text n) ≡ some n
unfolding parse_num parse_uint digits_value
parse_num-number_text bits n h small =
    ap
      (λ o. elim o as (λ _. Option ℕ) [
        | none ↦ none
        | some m ↦ if ltb m (2 ^ bits) then some m else none
      ])
      (digits_value-hex_digits 8 n (omega (arith, small)))
    ∙ rw (lt→ltb n (2 ^ bits) h) refl
