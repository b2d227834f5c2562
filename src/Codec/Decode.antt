-- ===== src/Codec/Decode.antt =====
-- `Decode` of refcodec.go: is an input a well-formed encoding of a message.
use go_ipc.Prelude.{
  ℕ, zero, suc, ◌+◌, Bool, true, not, ◌&&◌, Option, none, some, List, [], ◌∷◌, ltb, leb,
  if◌then◌else◌, length, get_or, take, drop,
}
use go_ipc.Memory.{Bytes, load32}
use go_ipc.Schema.{bool}
use go_ipc.Codec.{FixedType, scalar, array, ref, Fields, no_more, fixed, variable, Message, size_of}
use go_ipc.Codec.Encode.{Std}

-- `DecodeError`, by its kind.
pub data DecodeError : Type 0 where
  short bad_length trailing bad_bool bad_utf8 : DecodeError

abbrev pub bytes_of : List ℕ → Bytes
bytes_of b i = get_or b i 0

-- The loop over an array.
unfoldable pub all_items : (ℕ → Bool) → ℕ → ℕ → ℕ → Bool
all_items check step base zero = true
all_items check step base (suc n) = check base && all_items check step (base + step) n

unfoldable mutual
  -- `checkType`, whose one error is that of a bool.
  pub check_type : FixedType → Bytes → ℕ → Bool
  check_type (scalar bool) b base = leb (b base) 1
  check_type (scalar k) b base = true
  check_type (ref fixed_size fields) b base = check_fixed fields b base
  check_type (array len elem) b base = all_items (λ i. check_type elem b i) (size_of elem) base len

  -- `checkFixed`
  pub check_fixed : Fields → Bytes → ℕ → Bool
  check_fixed no_more b base = true
  check_fixed (fixed name type_of offset rest) b base =
      check_type type_of b (base + offset) && check_fixed rest b base
  check_fixed (variable name is_string rest) b base = check_fixed rest b base

module _ (std : Std) where
  -- The loop over the fields of variable length, on the input from `off` on.
  unfoldable pub check_vars : Fields → List ℕ → Option DecodeError
  check_vars no_more [] = none
  check_vars no_more (x ∷ xs) = some trailing
  check_vars (fixed name type_of offset rest) b = check_vars rest b
  check_vars (variable name is_string rest) b =
      let n = load32 (bytes_of b) 0 in
      let b' = drop 4 b in
      let more = check_vars rest (drop n b') in
      if ltb (length b) 4
      then some bad_length
      else if ltb (length b') n
      then some bad_length
      else if is_string && not (std.is_valid (take n b'))
      then some bad_utf8
      else more

  unfoldable pub decode : Message → List ℕ → Option DecodeError
  unfolding check_vars check_type
  decode m b =
      if ltb (length b) m.fixed_size
      then some short
      else if check_fixed m.fields (bytes_of b) 0
      then check_vars m.fields (drop m.fixed_size b)
      else some bad_bool
