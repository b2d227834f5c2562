-- ===== src/Codec.antt =====
-- ipcgen/internal/refcodec/refcodec.go: the reference codec. A checked message is a tree: `Check` has set
-- the pointer of every reference, and no message contains itself, so a reference holds the fields of its
-- message. A field is of a fixed type, with its offset, or of variable length, a string or bytes.
-- This file has the messages and the JSON values; the children have the two directions.
pub mod Encode
pub mod Decode
pub mod Placed
pub mod Puts
pub mod RoundTrip
pub mod Prefixes
pub mod Typing
pub mod Typed
mod Tests
use go_ipc.Prelude.{
  ℕ, zero, suc, ◌+◌, ◌*◌, Bool, true, false, ◌&&◌, ◌||◌, Option, none, some, List, [], ◌∷◌, ◌==◌,
  if◌then◌else◌,
}
use go_ipc.Schema.{Scalar, scalar_size}
use go_ipc.Schema.Parser.{eq_text}

abbrev pub Text : Type 0
Text = List ℕ

mutual
  -- `schema.Type`, of the kinds that have a fixed size.
  pub data FixedType : Type 0 where
    scalar : (k : Scalar) → FixedType
    array : (len : ℕ) (elem : FixedType) → FixedType
    ref : (fixed_size : ℕ) (fields : Fields) → FixedType

  -- The fields of a message, in order.
  pub data Fields : Type 0 where
    no_more : Fields
    fixed : (name : Text) (type_of : FixedType) (offset : ℕ) (rest : Fields) → Fields
    variable : (name : Text) (is_string : Bool) (rest : Fields) → Fields

pub record Message : Type 0 where
  pub fixed_size : ℕ
  pub fields : Fields

-- `Type.Size`
unfoldable pub size_of : FixedType → ℕ
size_of (scalar k) = scalar_size k
size_of (array len elem) = len * size_of elem
size_of (ref fixed_size fields) = fixed_size

mutual
  -- Decoded JSON, with the text of a number.
  pub data Json : Type 0 where
    null : Json
    boolean : Bool → Json
    number : Text → Json
    text : Text → Json
    arr : Items → Json
    obj : Members → Json

  pub data Items : Type 0 where
    nil : Items
    cons : Json → Items → Items

  -- A map, as its keys with their values; no key comes twice.
  pub data Members : Type 0 where
    empty : Members
    member : (key : Text) (value : Json) (rest : Members) → Members

abbrev pub count : Items → ℕ
count nil = 0
count (cons x xs) = suc (count xs)

abbrev pub count_members : Members → ℕ
count_members empty = 0
count_members (member key value rest) = suc (count_members rest)

abbrev pub count_fields : Fields → ℕ
count_fields no_more = 0
count_fields (fixed name type_of offset rest) = suc (count_fields rest)
count_fields (variable name is_string rest) = suc (count_fields rest)

-- `obj[name]`: nil for a key that is missing.
unfoldable pub value_of : Text → Members → Json
value_of name empty = null
value_of name (member key value rest) =
    let more = value_of name rest in if eq_text key name then value else more

unfoldable pub has_key : Text → Members → Bool
has_key name empty = false
has_key name (member key value rest) = eq_text key name || has_key name rest

unfoldable pub has_field : Text → Fields → Bool
has_field key no_more = false
has_field key (fixed name type_of offset rest) = eq_text name key || has_field key rest
has_field key (variable name is_string rest) = eq_text name key || has_field key rest

-- `checkKeys`
unfoldable pub all_present : Fields → Members → Bool
unfolding has_key
all_present no_more o = true
all_present (fixed name type_of offset rest) o = has_key name o && all_present rest o
all_present (variable name is_string rest) o = has_key name o && all_present rest o

unfoldable pub all_known : Fields → Members → Bool
unfolding has_field
all_known fs empty = true
all_known fs (member key value rest) = has_field key fs && all_known fs rest

unfoldable pub check_keys : Fields → Members → Bool
unfolding all_present all_known
check_keys fs o = all_present fs o && ((count_members o == count_fields fs) || all_known fs o)
