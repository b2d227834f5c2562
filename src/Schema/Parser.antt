-- ===== src/Schema/Parser.antt =====
-- The parser of ipcgen/internal/schema/parse.go, over the tokens that are left. The last token is the end of the
-- file, which is never passed.
use go_ipc.Prelude.{
  ℕ, zero, suc, ◌+◌, ◌*◌, ◌-◌, ◌^◌, Bool, true, false, not, ◌&&◌, ◌||◌, Option, none, some, List,
  [], ◌∷◌, ltb, leb, ◌==◌, if◌then◌else◌, length,
}
use go_ipc.Schema.{Scalar, bool, u8, i8, u16, i16, u32, i32, f32, u64, i64, f64}
use go_ipc.Schema.Lexer.{
  Kind, eof, newline, ident, number, lbrace, rbrace, lbrack, rbrack, equals, code, Pos, Token,
  expected_package, already_declared, expected_message, expected_field, expected_type, not_u32,
  too_large, expected_newline, expected, Parsed, good, bad, spent, bind, lex, is_digit,
}

-- `Type` as it is parsed: a name that is no scalar, string or bytes is that of a message.
pub data Syntax : Type 0 where
  scalar : Scalar → Pos → Syntax
  string bytes : Pos → Syntax
  ref : List ℕ → Pos → Syntax
  array : (len : ℕ) → Syntax → Pos → Syntax

pub record Field : Type 0 where
  pub name : List ℕ
  pub type_of : Syntax
  pub pos : Pos

pub record Message : Type 0 where
  pub name : List ℕ
  pub id : ℕ
  pub pos : Pos
  pub id_pos : Pos
  pub fields : List Field

pub record Schema : Type 0 where
  pub package_name : List ℕ
  pub package_pos : Pos
  pub messages : List Message

abbrev pub eq_text : List ℕ → List ℕ → Bool
eq_text [] [] = true
eq_text (x ∷ xs) (y ∷ ys) = (x == y) && eq_text xs ys
eq_text xs ys = false

abbrev pub is_kind : Kind → Token → Bool
is_kind k t = code t.kind == code k

-- `parser.next`.
unfoldable pub next : List Token → Token × List Token
next [] = (record { kind = eof; text = []; pos = (0, 0) }, [])
next (t ∷ ts) = (t, if is_kind eof t then t ∷ ts else ts)

unfoldable pub expect : Kind → List Token → Parsed (Token × List Token)
unfolding next
expect k ts =
    let (t, rest) = next ts in if is_kind k t then good (t, rest) else bad (t.pos) (expected k)

unfoldable pub skip_newlines : List Token → List Token
skip_newlines [] = []
skip_newlines (t ∷ ts) = let rest = skip_newlines ts in if is_kind newline t then rest else t ∷ ts

-- `parser.endLine`.
unfoldable pub end_line : List Token → Parsed (List Token)
unfolding next
end_line ts =
    let (t, rest) = next ts in
    if is_kind newline t || is_kind eof t then good rest else bad (t.pos) expected_newline

-- `scalarNames`, by kind.
abbrev pub scalar_name : Scalar → List ℕ
scalar_name bool = 98 ∷ 111 ∷ 111 ∷ 108 ∷ []
scalar_name u8 = 117 ∷ 56 ∷ []
scalar_name i8 = 105 ∷ 56 ∷ []
scalar_name u16 = 117 ∷ 49 ∷ 54 ∷ []
scalar_name i16 = 105 ∷ 49 ∷ 54 ∷ []
scalar_name u32 = 117 ∷ 51 ∷ 50 ∷ []
scalar_name i32 = 105 ∷ 51 ∷ 50 ∷ []
scalar_name f32 = 102 ∷ 51 ∷ 50 ∷ []
scalar_name u64 = 117 ∷ 54 ∷ 52 ∷ []
scalar_name i64 = 105 ∷ 54 ∷ 52 ∷ []
scalar_name f64 = 102 ∷ 54 ∷ 52 ∷ []

abbrev pub scalars : List Scalar
scalars = bool ∷ u8 ∷ i8 ∷ u16 ∷ i16 ∷ u32 ∷ i32 ∷ f32 ∷ u64 ∷ i64 ∷ f64 ∷ []

abbrev pub string_name : List ℕ
string_name = 115 ∷ 116 ∷ 114 ∷ 105 ∷ 110 ∷ 103 ∷ []

abbrev pub bytes_name : List ℕ
bytes_name = 98 ∷ 121 ∷ 116 ∷ 101 ∷ 115 ∷ []

abbrev pub find_scalar : List Scalar → List ℕ → Option Scalar
find_scalar [] text = none
find_scalar (k ∷ ks) text =
    let more = find_scalar ks text in if eq_text (scalar_name k) text then some k else more

unfoldable pub named_type : List ℕ → Pos → Syntax
named_type text pos = elim (find_scalar scalars text) [
  | some k ↦ scalar k pos
  | none ↦
      if eq_text text string_name
      then string pos
      else if eq_text text bytes_name
      then bytes pos
      else ref text pos
]

-- `strconv.ParseUint`: the digits in a base of 10 or 16.
abbrev pub digit_value : ℕ → Option ℕ
digit_value b =
    if is_digit b
    then some (b - 48)
    else if leb 97 b && leb b 102
    then some (b - 87)
    else if leb 65 b && leb b 70
    then some (b - 55)
    else none

unfoldable pub digits_value : ℕ → ℕ → List ℕ → Option ℕ
digits_value base acc [] = some acc
digits_value base acc (b ∷ bs) = elim (digit_value b) [
  | none ↦ none
  | some d ↦ let more = digits_value base (acc * base + d) bs in if ltb d base then more else none
]

unfoldable pub parse_uint : ℕ → ℕ → List ℕ → Option ℕ
unfolding digits_value
parse_uint base bits [] = none
parse_uint base bits (b ∷ bs) = elim (digits_value base 0 (b ∷ bs)) [
  | none ↦ none
  | some n ↦ if ltb n (2 ^ bits) then some n else none
]

unfoldable pub parse_num : ℕ → List ℕ → Option ℕ
unfolding parse_uint
parse_num bits (z ∷ x ∷ d ∷ ds) =
    if (z == 48) && ((x == 120) || (x == 88))
    then parse_uint 16 bits (d ∷ ds)
    else parse_uint 10 bits (z ∷ x ∷ d ∷ ds)
parse_num bits text = parse_uint 10 bits text

-- `parser.typ`.
unfoldable pub parse_type : ℕ → List Token → Parsed (Syntax × List Token)
unfolding next expect named_type parse_num
parse_type zero ts = spent
parse_type (suc fuel) ts =
    let (t, us) = next ts in
    let of_array = bind (expect number us) (λ (n, vs). elim (parse_num 31 n.text) [
      | none ↦ bad (n.pos) too_large
      | some len ↦
          bind (expect rbrack vs)
            (λ (b, ws). bind (parse_type fuel ws) (λ (elem, xs). good (array len elem t.pos, xs)))
    ]) in
    if is_kind ident t
    then good (named_type t.text t.pos, us)
    else if is_kind lbrack t
    then of_array
    else bad (t.pos) expected_type

-- The loop of `parser.message`, up to the closing brace.
unfoldable pub parse_fields : ℕ → List Token → Parsed (List Field × List Token)
unfolding next skip_newlines parse_type end_line
parse_fields zero ts = spent
parse_fields (suc fuel) ts =
    let (t, us) = next (skip_newlines ts) in
    let of_field = bind (parse_type fuel us) (λ (typ, vs). bind (end_line vs) (λ ws.
      bind (parse_fields fuel ws)
        (λ (more, xs). good (record { name = t.text; type_of = typ; pos = t.pos } ∷ more, xs)))) in
    if is_kind rbrace t
    then bind (end_line us) (λ vs. good ([], vs))
    else if is_kind ident t
    then of_field
    else bad (t.pos) expected_field

-- `parser.message`.
unfoldable pub parse_message : ℕ → List Token → Parsed (Message × List Token)
unfolding expect parse_num parse_fields
parse_message fuel ts = bind (expect ident ts) (λ (name, us). bind (expect equals us) (λ (e, vs).
    bind (expect number vs) (λ (id, ws). elim (parse_num 32 id.text) [
      | none ↦ bad (id.pos) not_u32
      | some n ↦ bind (expect lbrace ws) (λ (b, xs). bind (parse_fields fuel xs) (λ (fields, ys).
          good (
            record { name = name.text; id = n; pos = name.pos; id_pos = id.pos; fields = fields },
            ys,
          )))
    ])))

abbrev pub package_word : List ℕ
package_word = 112 ∷ 97 ∷ 99 ∷ 107 ∷ 97 ∷ 103 ∷ 101 ∷ []

abbrev pub message_word : List ℕ
message_word = 109 ∷ 101 ∷ 115 ∷ 115 ∷ 97 ∷ 103 ∷ 101 ∷ []

-- The loop of `Parse`.
unfoldable pub parse_messages : ℕ → List Token → Parsed (List Message)
unfolding next skip_newlines parse_message
parse_messages zero ts = spent
parse_messages (suc fuel) ts =
    let (t, us) = next (skip_newlines ts) in
    let of_message =
      bind (parse_message fuel us)
        (λ (m, vs). bind (parse_messages fuel vs) (λ more. good (m ∷ more))) in
    if is_kind eof t
    then good []
    else if is_kind ident t && eq_text t.text package_word
    then bad (t.pos) already_declared
    else if not (is_kind ident t && eq_text t.text message_word)
    then bad (t.pos) expected_message
    else of_message

-- `Parse`, behind the lexer.
unfoldable pub parse_tokens : ℕ → List Token → Parsed Schema
unfolding next skip_newlines expect end_line parse_messages
parse_tokens fuel ts =
    let (t, us) = next (skip_newlines ts) in
    let of_package = bind (expect ident us) (λ (name, vs). bind (end_line vs) (λ ws.
      bind (parse_messages fuel ws) (λ ms.
        good (record { package_name = name.text; package_pos = name.pos; messages = ms })))) in
    if not (is_kind ident t && eq_text t.text package_word)
    then bad (t.pos) expected_package
    else of_package

-- `Parse`, with fuel for the longest text.
unfoldable pub parse : List ℕ → Parsed Schema
unfolding lex parse_tokens
parse src = bind (lex (length src + 1) 1 1 src) (λ ts. parse_tokens (length ts + 1) ts)
