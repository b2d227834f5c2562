-- ===== src/Schema/Lexer.antt =====
-- The lexer of ipcgen/internal/schema/parse.go. A text is its bytes: no rune above 127 is accepted outside a comment,
-- and none has the byte of a newline in it, so that the runes of the source are not decoded here.
use go_ipc.Prelude.{
  ℕ, zero, suc, ◌+◌, Bool, ◌&&◌, ◌||◌, Option, none, some, List, [], ◌∷◌, leb, ◌==◌, if◌then◌else◌,
  length,
}

-- `tokKind`.
pub data Kind : Type 0 where
  eof newline ident number lbrace rbrace lbrack rbrack equals : Kind

abbrev pub code : Kind → ℕ
code eof = 0
code newline = 1
code ident = 2
code number = 3
code lbrace = 4
code rbrace = 5
code lbrack = 6
code rbrack = 7
code equals = 8

-- `Pos`: a line and a column.
abbrev pub Pos : Type 0
Pos = ℕ × ℕ

pub record Token : Type 0 where
  pub kind : Kind
  pub text : List ℕ
  pub pos : Pos

-- What an error says; its words are left out.
pub data Complaint : Type 0 where
  unexpected_character expected_package already_declared expected_message expected_field : Complaint
  expected_type not_u32 too_large expected_newline : Complaint
  -- Another token than this one.
  expected : Kind → Complaint

-- A result, an error at a place, or no fuel left.
pub data Parsed {ℓ} (A : Type ℓ) : Type ℓ where
  good : A → Parsed A
  bad : Pos → Complaint → Parsed A
  spent : Parsed A

abbrev pub bind {ℓ κ} : {A : Type ℓ} {B : Type κ} → Parsed A → (A → Parsed B) → Parsed B
bind (good x) f = f x
bind (bad at what) f = bad at what
bind spent f = spent

abbrev pub is_ident_start : ℕ → Bool
is_ident_start r = (r == 95) || leb 97 r && leb r 122 || leb 65 r && leb r 90

abbrev pub is_digit : ℕ → Bool
is_digit r = leb 48 r && leb r 57

abbrev pub is_word : ℕ → Bool
is_word r = is_ident_start r || is_digit r

-- The characters of a word at the start of a text, and the rest.
unfoldable pub word : List ℕ → List ℕ × List ℕ
word [] = ([], [])
word (r ∷ src) = let (w, rest) = word src in if is_word r then (r ∷ w, rest) else ([], r ∷ src)

-- What follows a comment: the newline, or the end.
unfoldable pub comment : List ℕ → List ℕ
comment [] = []
comment (r ∷ src) = let rest = comment src in if r == 10 then r ∷ src else rest

unfoldable pub punctuation : ℕ → Option Kind
punctuation r =
    if r == 123
    then some lbrace
    else if r == 125
    then some rbrace
    else if r == 91
    then some lbrack
    else if r == 93
    then some rbrack
    else if r == 61
    then some equals
    else none

abbrev pub put : Token → Parsed (List Token) → Parsed (List Token)
put t more = bind more (λ ts. good (t ∷ ts))

-- `lex`, from a line and a column on.
unfoldable pub lex : ℕ → ℕ → ℕ → List ℕ → Parsed (List Token)
unfolding word comment punctuation
lex zero line col src = spent
lex (suc fuel) line col [] = good (record { kind = eof; text = []; pos = (line, col) } ∷ [])
lex (suc fuel) line col (r ∷ src) =
    let pos : Pos = (line, col) in
    let (w, rest) = word (r ∷ src) in
    let newlined = lex fuel (line + 1) 1 src in
    let spaced = lex fuel line (col + 1) src in
    let commented = lex fuel line col (comment src) in
    let worded = lex fuel line (col + length w) rest in
    if r == 10
    then put (record { kind = newline; text = 10 ∷ []; pos = pos }) newlined
    else if (r == 32) || (r == 9) || (r == 13)
    then spaced
    else if r == 35
    then commented
    else if is_word r
    then put (record { kind = if is_digit r then number else ident; text = w; pos = pos }) worded
    else elim (punctuation r) [
      | none ↦ bad pos unexpected_character
      | some k ↦ put (record { kind = k; text = r ∷ []; pos = pos }) spaced
    ]
