-- ===== src/Schema/Check.antt =====
-- `checker.types`, `checker.resolve` and `Check` of ipcgen/internal/schema/check.go, on what the parser gives. A message
-- is known by its place in the schema; the place behind the last stands for a pointer that is nil. Of an error its
-- position is kept. What the pass over the names reports is an argument.
use go_ipc.Prelude.{
  ℕ, zero, suc, ◌+◌, Bool, true, false, Option, none, some, List, [], ◌∷◌, ◌++◌, ltb, if◌then◌else◌,
  length,
}
use go_ipc.Schema
use go_ipc.Schema.{FieldType, Table, layout}
use go_ipc.Schema.Lexer.{Pos}
use go_ipc.Schema.Parser.{Syntax, scalar, string, bytes, ref, array, Field, Message, eq_text}
use go_ipc.Schema.Cycles.{Walk, cycles, oldest_first}

-- `byName`: the first message of the name.
abbrev pub position_of : ℕ → List Message → List ℕ → Option ℕ
position_of i [] name = none
position_of i (m ∷ ms) name =
    let more = position_of (i + 1) ms name in if eq_text m.name name then some i else more

-- `Message.Fixed`, before the references are resolved.
abbrev pub is_fixed_syntax : List Field → Bool
is_fixed_syntax [] = true
is_fixed_syntax (f ∷ fs) = elim f.type_of [
  | string at ↦ false
  | bytes at ↦ false
  | scalar k at ↦ is_fixed_syntax fs
  | ref name at ↦ is_fixed_syntax fs
  | array len elem at ↦ is_fixed_syntax fs
]

abbrev pub is_fixed_at : ℕ → List Message → Bool
is_fixed_at i [] = true
is_fixed_at zero (m ∷ ms) = is_fixed_syntax m.fields
is_fixed_at (suc i) (m ∷ ms) = is_fixed_at i ms

-- A type whose references `resolve` does not come to.
abbrev pub unresolved : ℕ → Syntax → FieldType
unresolved nil (scalar k at) = Schema.scalar k
unresolved nil (string at) = Schema.string
unresolved nil (bytes at) = Schema.bytes
unresolved nil (ref name at) = Schema.ref nil
unresolved nil (array len elem at) = Schema.array len (unresolved nil elem)

-- A reference, and the check that the message is fixed, which is the same for fields and for elements.
abbrev pub resolve_ref : List Message → List ℕ → Pos → FieldType × List Pos
resolve_ref all name at = elim (position_of 0 all name) [
  | none ↦ (Schema.ref (length all), at ∷ [])
  | some i ↦ (Schema.ref i, if is_fixed_at i all then [] else at ∷ [])
]

-- `resolve`, on an element.
abbrev pub resolve_elem : List Message → Syntax → FieldType × List Pos
resolve_elem all (scalar k at) = (Schema.scalar k, [])
resolve_elem all (string at) = (Schema.string, at ∷ [])
resolve_elem all (bytes at) = (Schema.bytes, at ∷ [])
resolve_elem all (ref name at) = resolve_ref all name at
resolve_elem all (array len elem at) = (Schema.array len (unresolved (length all) elem), at ∷ [])

-- `resolve`, on the type of a field.
unfoldable pub resolve : List Message → Syntax → FieldType × List Pos
resolve all (scalar k at) = (Schema.scalar k, [])
resolve all (string at) = (Schema.string, [])
resolve all (bytes at) = (Schema.bytes, [])
resolve all (ref name at) = resolve_ref all name at
resolve all (array len elem at) =
    let (t, errs) = resolve_elem all elem in
    (Schema.array len t, if ltb len 1 then at ∷ errs else errs)

-- `types`: the fields that are left, and the errors.
unfoldable pub resolve_fields : List Message → List Field → List FieldType × List Pos
unfolding resolve
resolve_fields all [] = ([], [])
resolve_fields all (f ∷ fs) =
    let (t, errs) = resolve all f.type_of in
    let (ts, more) = resolve_fields all fs in (t ∷ ts, errs ++ more)

unfoldable pub types : List Message → ℕ → List Message → List Schema.Message × List Pos
unfolding resolve_fields
types all i [] = ([], [])
types all i (m ∷ ms) =
    let (fs, errs) = resolve_fields all m.fields in
    let (rest, more) = types all (i + 1) ms in (record { id = i; fields = fs } ∷ rest, errs ++ more)

-- What `Check` comes to: errors at some positions, messages that contain themselves, a message that is too large, or
-- the layouts.
pub data Report : Type 0 where
  wrong : List Pos → Report
  contain_themselves : List ℕ → Report
  too_large_section : Report
  accepted : Table → Report

abbrev pub laid_out : Option Table → Report
laid_out none = too_large_section
laid_out (some t) = accepted t

abbrev pub walked : Option Walk → Option Report
walked none = none
walked (some w) = elim w.errors [
  | x ∷ xs ↦ some (contain_themselves (x ∷ xs))
  | [] ↦ some (laid_out (layout (oldest_first w.sorted []) []))
]

-- `Check`.
unfoldable pub check : List Pos → List Message → Option Report
unfolding types
check names_errors ms =
    let (resolved, errs) = types ms 0 ms in
    elim (names_errors ++ errs) [ e ∷ es ↦ some (wrong (e ∷ es)) | [] ↦ walked (cycles resolved) ]
