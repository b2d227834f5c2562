-- ===== src/Schema.antt =====
-- ipcgen/internal/schema/schema.go and check.go: the types of a schema, and `checker.layout`, which places
-- the fixed fields of every message. A message is known by a number, for its pointer; what `Check`
-- writes into a message is a `Layout`, and the messages laid out so far are a table of those.
pub mod Placement
pub mod Placing
pub mod Tables
pub mod Lexer
pub mod Parser
pub mod Printer
pub mod RoundTrip
pub mod Fuel
pub mod Total
pub mod Cycles
pub mod Orders
pub mod Enclosed
pub mod Sorting
pub mod Check
pub mod Resolved
pub mod Checked
pub mod Names
pub mod Named
pub mod Unclashed
pub mod Words
mod Tests
mod ParserTests
mod CheckTests
mod NameTests
use go_ipc.Prelude.{
  ℕ, zero, suc, ◌+◌, ◌-◌, ◌*◌, ◌/◌, ◌%◌, ◌^◌, Bool, true, false, not, ◌||◌, Option, none, some,
  List, [], ◌∷◌, ltb, leb, ◌==◌, if◌then◌else◌,
}

-- The kinds of scalars, `Bool` to `F64`.
pub data Scalar : Type 0 where
  bool u8 i8 u16 i16 u32 i32 f32 u64 i64 f64 : Scalar

-- `Kind.ScalarSize`, which is also the alignment.
abbrev pub scalar_size : Scalar → ℕ
scalar_size u16 = 2
scalar_size i16 = 2
scalar_size u32 = 4
scalar_size i32 = 4
scalar_size f32 = 4
scalar_size u64 = 8
scalar_size i64 = 8
scalar_size f64 = 8
scalar_size k = 1

-- `schema.Type`: the fields of one Go struct that a kind uses are the arguments of its constructor.
pub data FieldType : Type 0 where
  scalar : Scalar → FieldType
  string : FieldType
  bytes : FieldType
  array : (len : ℕ) (elem : FieldType) → FieldType
  ref : (msg : ℕ) → FieldType

abbrev pub is_var : FieldType → Bool
is_var string = true
is_var bytes = true
is_var t = false

pub record Layout : Type 0 where
  pub offsets : List ℕ
  pub fixed_size : ℕ
  pub align : ℕ

pub record Message : Type 0 where
  pub id : ℕ
  pub fields : List FieldType

abbrev pub Table : Type 0
Table = List (ℕ × Layout)

-- What a Go message holds before `layout` has set it.
abbrev pub unset : Layout
unset = record { offsets = []; fixed_size = 0; align = 0 }

unfoldable pub lookup : ℕ → Table → Layout
lookup id [] = unset
lookup id ((k, l) ∷ t) = let rest = lookup id t in if k == id then l else rest

-- `Message.FixedFields`, `Message.VarFields` and `Message.Fixed`.
unfoldable pub fixed_fields : List FieldType → List FieldType
fixed_fields [] = []
fixed_fields (f ∷ fs) = let rest = fixed_fields fs in if is_var f then rest else f ∷ rest

unfoldable pub var_fields : List FieldType → List FieldType
var_fields [] = []
var_fields (f ∷ fs) = let rest = var_fields fs in if is_var f then f ∷ rest else rest

unfoldable pub is_fixed : Message → Bool
is_fixed m = elim (var_fields m.fields) [ [] ↦ true | _ ∷ _ ↦ false ]

-- `fieldSize` and `Type.Size`, which differ only in the width of the integers, and `Type.Align`.
unfoldable pub field_size : Table → FieldType → ℕ
field_size t (array len elem) = len * field_size t elem
field_size t (ref msg) = (lookup msg t).fixed_size
field_size t (scalar k) = scalar_size k
field_size t f = 1

unfoldable pub field_align : Table → FieldType → ℕ
field_align t (array len elem) = field_align t elem
field_align t (ref msg) = (lookup msg t).align
field_align t (scalar k) = scalar_size k
field_align t f = 1

abbrev pub max_fixed_size : ℕ
max_fixed_size = 2 ^ 31 - 1

abbrev pub round_up : ℕ → ℕ → ℕ
round_up n a = (n + a - 1) / a * a

-- The loop over the fixed fields: the offsets, the end and the alignment; none for the error of a
-- section that is too large.
unfoldable pub place_fields : Table → List FieldType → (off align : ℕ) → Option (List ℕ × ℕ × ℕ)
place_fields t [] off align = some ([], off, align)
place_fields t (f ∷ fs) off align =
    let a = field_align t f in
    let start = round_up off a in
    let end = start + field_size t f in
    let rest = place_fields t fs end (if ltb align a then a else align) in
    if ltb max_fixed_size end
    then none
    else elim rest [ none ↦ none | some (offs, last, most) ↦ some (start ∷ offs, last, most) ]

unfoldable pub layout_message : Table → Message → Option Layout
layout_message t m = elim (place_fields t (fixed_fields m.fields) 0 1) [
  | none ↦ none
  | some (offs, last, most) ↦
      some (record { offsets = offs; fixed_size = round_up last most; align = most })
]

-- `checker.layout` over `Sorted`.
unfoldable pub layout : List Message → Table → Option Table
layout [] t = some t
layout (m ∷ ms) t = elim (layout_message t m) [ none ↦ none | some l ↦ layout ms ((m.id, l) ∷ t) ]
