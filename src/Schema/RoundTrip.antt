-- ===== src/Schema/RoundTrip.antt =====
-- What the printer writes of a schema, the parser reads back.
use go_ipc.Prelude.{
  ℕ, zero, suc, ◌+◌, ◌≤◌, ◌≡◌, none, some, List, [], ◌∷◌, All, length, refl, ap, ◌∙◌, arith,
}
use go_ipc.Schema.{Scalar, bool, u8, i8, u16, i16, u32, i32, f32, u64, i64, f64}
use go_ipc.Schema.Lexer.{newline, rbrace, Token, Parsed, good, bad, bind, too_large, not_u32}
use go_ipc.Schema.Parser.{
  Syntax, scalar, string, bytes, ref, array, Field, Message, Schema, scalar_name, named_type,
  parse_type, parse_fields, parse_message, parse_messages, parse_tokens,
}
use go_ipc.Schema.Printer.{
  mark, print_type, print_fields, print_message, print_messages, print, IsWritten, IsWrittenMessage,
  parse_num-number_text,
}

-- The rounds that the parser takes.
abbrev pub type_size : Syntax → ℕ
type_size (array len elem at) = suc (type_size elem)
type_size t = 1

abbrev pub fields_size : List Field → ℕ
fields_size [] = 1
fields_size (f ∷ fs) = suc (type_size f.type_of + fields_size fs)

abbrev pub messages_size : List Message → ℕ
messages_size [] = 1
messages_size (m ∷ ms) = suc (fields_size m.fields + messages_size ms)

named_type-scalar_name : (k : Scalar) (at : ℕ × ℕ) → named_type (scalar_name k) at ≡ scalar k at
unfolding named_type
named_type-scalar_name bool at = refl
named_type-scalar_name u8 at = refl
named_type-scalar_name i8 at = refl
named_type-scalar_name u16 at = refl
named_type-scalar_name i16 at = refl
named_type-scalar_name u32 at = refl
named_type-scalar_name i32 at = refl
named_type-scalar_name f32 at = refl
named_type-scalar_name u64 at = refl
named_type-scalar_name i64 at = refl
named_type-scalar_name f64 at = refl

type_size-pos : (t : Syntax) → type_size t ≤ 0 → ⊥
type_size-pos (scalar k at) h = omega (arith, h)
type_size-pos (string at) h = omega (arith, h)
type_size-pos (bytes at) h = omega (arith, h)
type_size-pos (ref name at) h = omega (arith, h)
type_size-pos (array len elem at) h = omega (arith, h)

parse_type-print_type :
    (t : Syntax) (fuel : ℕ) (rest : List Token)
    → type_size t ≤ fuel
    → IsWritten t
    → parse_type fuel (print_type t rest) ≡ good (t, rest)
unfolding parse_type named_type
parse_type-print_type t zero rest h w = absurd (type_size-pos t h)
parse_type-print_type (scalar k at) (suc fuel) rest h w =
    ap (λ t. good (t, rest)) (named_type-scalar_name k at)
parse_type-print_type (string at) (suc fuel) rest h w = refl
parse_type-print_type (bytes at) (suc fuel) rest h w = refl
parse_type-print_type (ref name at) (suc fuel) rest h w = rw (w.0, w.1, w.2) refl
parse_type-print_type (array len elem at) (suc fuel) rest h w =
    let n = parse_num-number_text 31 len w.0 (omega (arith, w.0)) in
    let ih = parse_type-print_type elem fuel rest (omega (arith, h)) w.1 in
    ap
      (λ o. elim o as (λ _. Parsed (Syntax × List Token)) [
        | none ↦ bad (0, 0) too_large
        | some l ↦
            bind (parse_type fuel (print_type elem rest)) (λ (e, xs). good (array l e at, xs))
      ])
      n
    ∙ ap (λ p. bind p (λ (e, xs). good (array len e at, xs))) ih

parse_fields-print_fields :
    (fs : List Field) (fuel : ℕ) (rest : List Token)
    → fields_size fs ≤ fuel
    → All (λ (f : Field). IsWritten f.type_of) fs
    → parse_fields fuel (print_fields fs (mark rbrace ∷ mark newline ∷ rest)) ≡ good (fs, rest)
unfolding parse_fields
parse_fields-print_fields [] zero rest h w = absurd (omega (arith, h))
parse_fields-print_fields (f ∷ fs) zero rest h w = absurd (omega (arith, h))
parse_fields-print_fields [] (suc fuel) rest h w = refl
parse_fields-print_fields (f ∷ fs) (suc fuel) rest h w =
    let more = mark newline ∷ print_fields fs (mark rbrace ∷ mark newline ∷ rest) in
    let t = parse_type-print_type f.type_of fuel more (omega (arith, h)) w.0 in
    let ih = parse_fields-print_fields fs fuel rest (omega (arith, h)) w.1 in rw (t, ih) refl

parse_fields-newline :
    (fuel : ℕ) (ts : List Token) → parse_fields fuel (mark newline ∷ ts) ≡ parse_fields fuel ts
unfolding parse_fields
parse_fields-newline zero ts = refl
parse_fields-newline (suc fuel) ts = refl

parse_message-print_message :
    (m : Message) (fuel : ℕ) (rest : List Token)
    → fields_size m.fields ≤ fuel
    → IsWrittenMessage m
    → parse_message fuel (print_message m rest) ≡ good (m, rest)
unfolding parse_message
parse_message-print_message m fuel rest h w =
    let n = parse_num-number_text 32 m.id w.0 w.0 in
    let fs = mark newline ∷ print_fields m.fields (mark rbrace ∷ mark newline ∷ rest) in
    ap
      (λ o. elim o as (λ _. Parsed (Message × List Token)) [
        | none ↦ bad (m.id_pos) not_u32
        | some l ↦ bind (parse_fields fuel fs) (λ (fields, ys).
            good (
              record { name = m.name; id = l; pos = m.pos; id_pos = m.id_pos; fields = fields },
              ys,
            ))
      ])
      n
    ∙ ap
        (λ p. bind p (λ (fields, ys). good (
          record { name = m.name; id = m.id; pos = m.pos; id_pos = m.id_pos; fields = fields },
          ys,
        )))
        (parse_fields-newline fuel (print_fields m.fields (mark rbrace ∷ mark newline ∷ rest))
          ∙ parse_fields-print_fields m.fields fuel rest h w.1)

parse_messages-print_messages :
    (ms : List Message) (fuel : ℕ)
    → messages_size ms ≤ fuel
    → All IsWrittenMessage ms
    → parse_messages fuel (print_messages ms) ≡ good ms
unfolding parse_messages
parse_messages-print_messages [] zero h w = absurd (omega (arith, h))
parse_messages-print_messages (m ∷ ms) zero h w = absurd (omega (arith, h))
parse_messages-print_messages [] (suc fuel) h w = refl
parse_messages-print_messages (m ∷ ms) (suc fuel) h w =
    let one = parse_message-print_message m fuel (print_messages ms) (omega (arith, h)) w.0 in
    let ih = parse_messages-print_messages ms fuel (omega (arith, h)) w.1 in rw (one, ih) refl

length-print_type :
    (t : Syntax) (rest : List Token) → type_size t + length rest ≤ length (print_type t rest)
length-print_type (scalar k at) rest = omega arith
length-print_type (string at) rest = omega arith
length-print_type (bytes at) rest = omega arith
length-print_type (ref name at) rest = omega arith
length-print_type (array len elem at) rest = omega (arith, length-print_type elem rest)

length-print_fields :
    (fs : List Field) (rest : List Token)
    → fields_size fs + length rest ≤ suc (length (print_fields fs rest))
length-print_fields [] rest = omega arith
length-print_fields (f ∷ fs) rest = omega (
  arith,
  length-print_type f.type_of (mark newline ∷ print_fields fs rest),
  length-print_fields fs rest,
)

length-print_messages : (ms : List Message) → messages_size ms ≤ length (print_messages ms)
length-print_messages [] = omega arith
length-print_messages (m ∷ ms) = omega (
  arith,
  length-print_fields m.fields (mark rbrace ∷ mark newline ∷ print_messages ms),
  length-print_messages ms,
)

-- Parsing what the printer writes of a schema gives that schema, with its positions, with the fuel that `Parse`
-- takes for as many tokens. The schema can be written: its numbers are in range and no reference has the name of a
-- type that is built in.
pub parse_tokens-print :
    (s : Schema)
    → All IsWrittenMessage s.messages
    → parse_tokens (length (print s) + 1) (print s) ≡ good s
unfolding parse_tokens
parse_tokens-print s w =
    rw
      (parse_messages-print_messages s.messages (length (print s) + 1)
        (omega (arith, length-print_messages s.messages)) w)
      refl
