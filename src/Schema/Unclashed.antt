-- ===== src/Schema/Unclashed.antt =====
-- What it means that `names` has nothing to report.
use go_ipc.Prelude.{
  ℕ, ◌≡◌, ◌≢◌, ◌↔◌, inl, inr, Bool, true, false, Bool-cases, not, ◌||◌, Option, none, some, List,
  [], ◌∷◌, ◌++◌, refl, ◌==◌, ==_iff, All,
}
use go_ipc.Schema.Lexer.{Pos}
use go_ipc.Schema.Parser.{Field, Message, Schema, eq_text}
use go_ipc.Schema.Names.{
  Text, Lexicon, mem, mem_id, is_snake_name, is_message_name, snake, has_prefix, ipcgen,
  type_suffix, field_names, is_refused_message, reserved_id, message_names, by_name,
  constant_clashes, names,
}
use go_ipc.Schema.{Table}
use go_ipc.Schema.Check.{wrong, accepted, types, check}
use go_ipc.Schema.Named.{
  Outside, Distinct, Fresh, if-nil, or-false, not-false, eq_text_iff, mem_iff, mem_id_iff,
  Fresh-step, Fresh-nil, IsFieldName, field_texts, go_texts, field_names_iff, untrue,
}

abbrev pub message_texts : List Message → List Text
message_texts [] = []
message_texts (m ∷ ms) = m.name ∷ message_texts ms

abbrev pub snake_texts : List Message → List Text
snake_texts [] = []
snake_texts (m ∷ ms) = snake m.name ∷ snake_texts ms

abbrev pub type_ids : List Message → List ℕ
type_ids [] = []
type_ids (m ∷ ms) = m.id ∷ type_ids ms

append-nil_iff : {A : Type 0} (xs ys : List A) → (xs ++ ys ≡ []) ↔ ((xs ≡ []) × (ys ≡ []))
append-nil_iff [] ys = (λ e. (refl, e), λ e. e.1)
append-nil_iff (x ∷ xs) ys = (λ e. cc, λ e. cc)

by_name_iff :
    (name : Text) (ms : List Message) → (by_name name ms ≡ none) ↔ Outside name (message_texts ms)
by_name_iff name [] = (λ e. tt, λ o. refl)
by_name_iff name (m ∷ ms) = elim (Bool-cases (eq_text name m.name)) [
  | inl t ↦
      let same = (eq_text_iff name m.name).0 t in
      (λ e. let bad = rw t at e in cc, λ o. absurd (o.0 same))
  | inr f ↦
      let other = (untrue _ (eq_text_iff name m.name)).0 f in
      (λ e. (other, (by_name_iff name ms).0 (rw f at e)), λ o. rw f ((by_name_iff name ms).1 o.1))
]

constant_clashes_iff :
    (all ms : List Message)
    → (constant_clashes all ms ≡ [])
      ↔ All (λ m. Outside (m.name ++ type_suffix) (message_texts all)) ms
unfolding constant_clashes
constant_clashes_iff all [] = (λ e. tt, λ o. refl)
constant_clashes_iff all (m ∷ ms) =
    split (by_name (m.name ++ type_suffix) all) (by_name_iff (m.name ++ type_suffix) all)
      (constant_clashes_iff all ms)
  where
    split :
        {P Q : Type 0} {errs : List Pos} (o : Option Pos)
        → (o ≡ none) ↔ P
        → (errs ≡ []) ↔ Q
        → ((elim o as (λ _. List Pos) [ none ↦ errs | some at ↦ at ∷ errs ]) ≡ []) ↔ (P × Q)
    split none h ih = (λ e. (h.0 refl, ih.0 e), λ q. ih.1 q.1)
    split (some at) h ih = (λ e. cc, λ q. let bad = h.1 q.0 in cc)

module _ (lex : Lexicon) where
  -- The fields of a message: names that are allowed, no two the same, and no two the same in Go.
  abbrev pub HasFieldNames : List Field → Type 0
  HasFieldNames fs = All (IsFieldName lex) fs × Distinct (field_texts fs) × Distinct (go_texts fs)

  abbrev pub IsNamed : Message → Type 0
  IsNamed m =
      (is_message_name m.name ≡ true)
      × (is_refused_message lex m.name ≡ false)
      × (m.id ≢ reserved_id)
      × HasFieldNames m.fields

  fields_iff : (fs : List Field) → (field_names lex [] [] fs ≡ []) ↔ HasFieldNames fs
  fields_iff fs = (
    λ e. let (a, b, c) = (field_names_iff lex [] [] fs).0 e in (a, b.1, c.1),
    λ h. (field_names_iff lex [] [] fs).1 (h.0, Fresh-nil _ h.1, Fresh-nil _ h.2),
  )

  module _ (m : Message) (seen snakes : List Text) (ids : List ℕ) where
    abbrev bad_name : Bool
    bad_name =
        not (is_message_name m.name)
        || is_refused_message lex m.name
        || mem m.name seen
        || mem (snake m.name) snakes

    abbrev bad_id : Bool
    bad_id = (m.id == reserved_id) || mem_id m.id ids

    bad_name_iff : (bad_name ≡ false) ↔ (
        (is_message_name m.name ≡ true)
        × (is_refused_message lex m.name ≡ false)
        × Outside m.name seen
        × Outside (snake m.name) snakes)
    bad_name_iff = (
      λ e.
          let (abc, d) = (or-false _ _).0 e in
          let (ab, c) = (or-false _ _).0 abc in
          let (a, b) = (or-false _ _).0 ab in
          ((not-false _).0 a, b, (mem_iff m.name seen).0 c, (mem_iff (snake m.name) snakes).0 d),
      λ h. (or-false _ _).1 (
        (or-false _ _).1 ((or-false _ _).1 ((not-false _).1 h.0, h.1), (mem_iff m.name seen).1 h.2),
        (mem_iff (snake m.name) snakes).1 h.3,
      ),
    )

    bad_id_iff : (bad_id ≡ false) ↔ ((m.id ≢ reserved_id) × Outside m.id ids)
    bad_id_iff = (
      λ e.
          let (a, b) = (or-false _ _).0 e in
          ((untrue _ (==_iff m.id (reserved_id))).0 a, (mem_id_iff m.id ids).0 b),
      λ h.
          (or-false _ _).1
            ((untrue _ (==_iff m.id (reserved_id))).1 h.0, (mem_id_iff m.id ids).1 h.1),
    )

  message_names_iff :
      (seen snakes : List Text) (ids : List ℕ) (ms : List Message)
      → (message_names lex seen snakes ids ms ≡ []) ↔ (
          All IsNamed ms
          × Fresh seen (message_texts ms)
          × Fresh snakes (snake_texts ms)
          × Fresh ids (type_ids ms))
  unfolding message_names
  message_names_iff seen snakes ids [] = (λ e. (tt, (tt, tt), (tt, tt), (tt, tt)), λ h. refl)
  message_names_iff seen snakes ids (m ∷ ms) =
      let ih = message_names_iff (m.name ∷ seen) (snake m.name ∷ snakes) (m.id ∷ ids) ms in
      (
        λ e.
            let (b, e1) = (if-nil _ _ _).0 e in
            let (c, e2) = (if-nil _ _ _).0 e1 in
            let (p, q, x, y) = (bad_name_iff m seen snakes ids).0 b in
            let (i, z) = (bad_id_iff m seen snakes ids).0 c in
            let known : mem m.name seen ≡ false = (mem_iff m.name seen).1 x in
            let (fs, more) = (append-nil_iff _ _).0 e2 in
            let (ok, xs, ys, zs) = ih.0 (rw (known, c) at more) in
            (
              ((p, q, i, (fields_iff m.fields).0 fs), ok),
              (Fresh-step _ _ _).1 (x, xs),
              (Fresh-step _ _ _).1 (y, ys),
              (Fresh-step _ _ _).1 (z, zs),
            ),
        λ h.
            let (x, xs) = (Fresh-step m.name seen (message_texts ms)).0 h.1 in
            let (y, ys) = (Fresh-step (snake m.name) snakes (snake_texts ms)).0 h.2 in
            let (z, zs) = (Fresh-step m.id ids (type_ids ms)).0 h.3 in
            let (p, q, i, fs) = h.0.0 in
            let b = (bad_name_iff m seen snakes ids).1 (p, q, x, y) in
            let c = (bad_id_iff m seen snakes ids).1 (i, z) in
            let known : mem m.name seen ≡ false = (mem_iff m.name seen).1 x in
            rw (b, c, known, (fields_iff m.fields).1 fs) (ih.1 (h.0.1, xs, ys, zs)),
      )

  -- A schema whose names and type IDs generated code can use.
  pub record IsUnclashed (s : Schema) : Type 0 where
    pub package_ok :
        (is_snake_name s.package_name ≡ true)
        × (mem s.package_name lex.reserved ≡ false)
        × (has_prefix ipcgen s.package_name ≡ false)
    pub named : All IsNamed s.messages
    pub distinct : Distinct (message_texts s.messages)
    pub distinct_in_c : Distinct (snake_texts s.messages)
    pub distinct_ids : Distinct (type_ids s.messages)
    pub no_constant :
        All (λ m. Outside (m.name ++ type_suffix) (message_texts s.messages)) s.messages

  -- The pass over the names has nothing to report exactly when the package, the messages and their fields
  -- have names that are allowed, no two messages have the same name, the same C name or the same type ID,
  -- no two fields of a message have the same name or the same Go name, and no message has the name of the
  -- Go constant of another.
  pub names_iff : (s : Schema) → (names lex s ≡ []) ↔ IsUnclashed s
  unfolding names
  names_iff s = (
    λ e.
        let (b, e1) = (if-nil _ _ _).0 e in
        let (ab, c) = (or-false _ _).0 b in
        let (a, d) = (or-false _ _).0 ab in
        let (ms, cs) = (append-nil_iff _ _).0 e1 in
        let (ok, xs, ys, zs) = (message_names_iff [] [] [] s.messages).0 ms in
        record {
          package_ok = ((not-false _).0 a, d, c);
          named = ok;
          distinct = xs.1;
          distinct_in_c = ys.1;
          distinct_ids = zs.1;
          no_constant = (constant_clashes_iff s.messages s.messages).0 cs;
        },
    λ u. (if-nil _ _ _).1 (
      (or-false _ _).1
          ((or-false _ _).1 ((not-false _).1 u.package_ok.0, u.package_ok.1), u.package_ok.2),
      (append-nil_iff _ _).1 (
        (message_names_iff [] [] [] s.messages).1 (
          u.named,
          Fresh-nil _ u.distinct,
          Fresh-nil _ u.distinct_in_c,
          Fresh-nil _ u.distinct_ids,
        ),
        (constant_clashes_iff s.messages s.messages).1 u.no_constant,
      ),
    ),
  )

-- A schema that `Check` accepts has such names.
pub check-IsUnclashed :
    (lex : Lexicon) (s : Schema) (t : Table)
    → check (names lex s) s.messages ≡ some (accepted t)
    → IsUnclashed lex s
unfolding check
check-IsUnclashed lex s t e = go (names lex s) refl
  where
    go : (errs : List Pos) → names lex s ≡ errs → IsUnclashed lex s
    go [] k = (names_iff lex s).0 k
    go (x ∷ xs) k = let bad = rw k at e in absurd (refused bad)
      where
        refused :
            some (wrong (x ∷ (xs ++ (types s.messages 0 s.messages).1))) ≡ some (accepted t) → ⊥
        refused k = cc
