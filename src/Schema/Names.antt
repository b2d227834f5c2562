-- ===== src/Schema/Names.antt =====
-- `checker.names` and `checker.fieldNames` of ipcgen/internal/schema/check.go, with names.go: which names of a schema
-- are refused. The parser gives ASCII names alone. The lists of reserved words are an argument. Of an error its
-- position is kept.
use go_ipc.Prelude.{
  ℕ, ◌+◌, ◌-◌, ◌^◌, Bool, true, false, not, ◌&&◌, ◌||◌, Option, none, some, List, [], ◌∷◌, ◌++◌,
  leb, ◌==◌, if◌then◌else◌,
}
use go_ipc.Schema.Lexer.{Pos}
use go_ipc.Schema.Parser.{Field, Message, Schema, eq_text}

abbrev pub Text : Type 0
Text = List ℕ

-- The words of names.go: `reservedWords`, `goMethods`, `pyNames` and `goNames`.
pub record Lexicon : Type 0 where
  pub reserved : List Text
  pub go_methods : List Text
  pub py_names : List Text
  pub go_names : List Text

abbrev pub mem : Text → List Text → Bool
mem x [] = false
mem x (y ∷ ys) = eq_text x y || mem x ys

abbrev pub mem_id : ℕ → List ℕ → Bool
mem_id x [] = false
mem_id x (y ∷ ys) = (x == y) || mem_id x ys

abbrev pub is_upper : ℕ → Bool
is_upper c = leb 65 c && leb c 90

abbrev pub is_lower : ℕ → Bool
is_lower c = leb 97 c && leb c 122

abbrev pub is_digit : ℕ → Bool
is_digit c = leb 48 c && leb c 57

-- `messageName`: a capital, then letters and digits.
abbrev pub all_alnum : Text → Bool
all_alnum [] = true
all_alnum (c ∷ cs) = (is_upper c || is_lower c || is_digit c) && all_alnum cs

abbrev pub is_message_name : Text → Bool
is_message_name [] = false
is_message_name (c ∷ cs) = is_upper c && all_alnum cs

-- `snakeName`: small letters and digits, in words with one underscore between them, a letter first.
abbrev pub snake_rest : Bool → Text → Bool
snake_rest after_underscore [] = not after_underscore
snake_rest after_underscore (c ∷ cs) =
    let in_word = snake_rest false cs in
    let new_word = snake_rest true cs in
    if is_lower c || is_digit c then in_word else (c == 95) && (not after_underscore && new_word)

abbrev pub is_snake_name : Text → Bool
is_snake_name [] = false
is_snake_name (c ∷ cs) = is_lower c && snake_rest false cs

-- `Snake`
abbrev pub to_lower : ℕ → ℕ
to_lower c = if is_upper c then c + 32 else c

abbrev pub next_is_lower : Text → Bool
next_is_lower [] = false
next_is_lower (c ∷ cs) = is_lower c

unfoldable pub snake_after : ℕ → Text → Text
snake_after prev [] = []
snake_after prev (c ∷ cs) =
    let rest = to_lower c ∷ snake_after c cs in
    if is_upper c && (is_lower prev || is_digit prev || (is_upper prev && next_is_lower cs))
    then 95 ∷ rest
    else rest

unfoldable pub snake : Text → Text
unfolding snake_after
snake [] = []
snake (c ∷ cs) = to_lower c ∷ snake_after c cs

-- `Camel`: the first letter of every part between underscores is a capital.
unfoldable pub camel_from : Bool → Text → Text
camel_from at_start [] = []
camel_from at_start (c ∷ cs) =
    let skipped = camel_from true cs in
    let rest = camel_from false cs in
    if c == 95 then skipped else (if at_start && is_lower c then c - 32 else c) ∷ rest

unfoldable pub camel : Text → Text
unfolding camel_from
camel name = camel_from true name

-- `strings.HasPrefix(name, "ipcgen")`
abbrev pub has_prefix : Text → Text → Bool
has_prefix [] name = true
has_prefix (x ∷ xs) [] = false
has_prefix (x ∷ xs) (y ∷ ys) = (x == y) && has_prefix xs ys

abbrev pub ipcgen : Text
ipcgen = 105 ∷ 112 ∷ 99 ∷ 103 ∷ 101 ∷ 110 ∷ []

-- "Type"
abbrev pub type_suffix : Text
type_suffix = 84 ∷ 121 ∷ 112 ∷ 101 ∷ []

abbrev pub reserved_id : ℕ
reserved_id = 2 ^ 32 - 1

-- `byName`, after all messages: the first of a name.
abbrev pub by_name : Text → List Message → Option Pos
by_name name [] = none
by_name name (m ∷ ms) =
    let rest = by_name name ms in if eq_text name m.name then some m.pos else rest

unfoldable pub constant_clashes : List Message → List Message → List Pos
constant_clashes all [] = []
constant_clashes all (m ∷ ms) = elim (by_name (m.name ++ type_suffix) all) [
  | none ↦ constant_clashes all ms
  | some at ↦ at ∷ constant_clashes all ms
]

module _ (lex : Lexicon) where
  abbrev pub is_refused_field : Text → Bool
  is_refused_field name =
      mem name lex.reserved || has_prefix ipcgen name || mem (camel name) lex.go_methods

  -- `fieldNames`, with the names and the Go names so far.
  unfoldable pub field_names : List Text → List Text → List Field → List Pos
  field_names seen gos [] = []
  field_names seen gos (f ∷ fs) =
      let rest = field_names (f.name ∷ seen) (camel f.name ∷ gos) fs in
      if not (is_snake_name f.name)
        || is_refused_field f.name
        || mem f.name seen
        || mem (camel f.name) gos
      then f.pos ∷ rest
      else rest

  abbrev pub is_refused_message : Text → Bool
  is_refused_message name =
      mem name lex.py_names || mem name lex.go_names || has_prefix ipcgen (snake name)

  -- The loop over the messages, with the names, the C names and the type IDs so far.
  unfoldable pub message_names : List Text → List Text → List ℕ → List Message → List Pos
  unfolding field_names
  message_names seen snakes ids [] = []
  message_names seen snakes ids (m ∷ ms) =
      let bad_id = (m.id == reserved_id) || mem_id m.id ids in
      let more =
        message_names (if mem m.name seen then seen else m.name ∷ seen) (snake m.name ∷ snakes)
          (if bad_id then ids else m.id ∷ ids) ms in
      let rest = field_names [] [] m.fields ++ more in
      let behind_name = if bad_id then m.id_pos ∷ rest else rest in
      if not (is_message_name m.name)
        || is_refused_message m.name
        || mem m.name seen
        || mem (snake m.name) snakes
      then m.pos ∷ behind_name
      else behind_name

  -- `names`
  unfoldable pub names : Schema → List Pos
  unfolding message_names constant_clashes
  names s =
      let rest = message_names [] [] [] s.messages ++ constant_clashes s.messages s.messages in
      if not (is_snake_name s.package_name)
        || mem s.package_name lex.reserved
        || has_prefix ipcgen s.package_name
      then s.package_pos ∷ rest
      else rest
