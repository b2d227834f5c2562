-- ===== src/Schema/Resolved.antt =====
-- What `types` lets through has its references resolved.
use go_ipc.Prelude.{
  ℕ, ◌+◌, ◌≡◌, inl, inr, Bool, true, false, Option, none, some, List, [], ◌∷◌, ◌++◌, All, ltb,
  if◌then◌else◌, length, refl, sym, ap,
}
use go_ipc.Schema
use go_ipc.Schema.{FieldType, Table, Layout, layout, layout_message}
use go_ipc.Schema.Tables.{IsIn}
use go_ipc.Schema.Lexer.{Pos}
use go_ipc.Schema.Parser.{Syntax, scalar, string, bytes, ref, array, Field, Message, eq_text}
use go_ipc.Schema.Cycles.{message_ids}
use go_ipc.Schema.Orders.{IsResolved, IsResolvedMessage}
use go_ipc.Schema.Check.{
  position_of, is_fixed_at, resolve_ref, resolve_elem, resolve, resolve_fields, types,
}

abbrev pub places : ℕ → List Message → List ℕ
places i [] = []
places i (m ∷ ms) = i ∷ places (i + 1) ms

pub nil-append {ℓ} : {A : Type ℓ} (xs ys : List A) → xs ++ ys ≡ [] → (xs ≡ []) × (ys ≡ [])
nil-append [] ys e = (refl, e)
nil-append (x ∷ xs) ys e = absurd cc

position_of-IsIn :
    (i : ℕ) (ms : List Message) (name : List ℕ) (j : ℕ)
    → position_of i ms name ≡ some j
    → IsIn j (places i ms)
position_of-IsIn i [] name j e = absurd cc
position_of-IsIn i (m ∷ ms) name j e =
    go (eq_text m.name name) e (position_of-IsIn (i + 1) ms name j)
  where
    go :
        (b : Bool)
        → (if b then some i else position_of (i + 1) ms name) ≡ some j
        → (position_of (i + 1) ms name ≡ some j → IsIn j (places (i + 1) ms))
        → IsIn j (i ∷ places (i + 1) ms)
    go true e k = inl (sym (ap (λ (o : Option ℕ). elim o [ some x ↦ x | none ↦ 0 ]) e))
    go false e k = inr (k e)

pub types-places :
    (all : List Message) (i : ℕ) (ms : List Message) → message_ids (types all i ms).0 ≡ places i ms
unfolding types
types-places all i [] = refl
types-places all i (m ∷ ms) = ap (λ xs. i ∷ xs) (types-places all (i + 1) ms)

module _ (all : List Message) where
  resolve_ref-IsIn :
      (name : List ℕ) (at : Pos) (P : FieldType → Type 0)
      → ((j : ℕ) → IsIn j (places 0 all) → P (Schema.ref j))
      → (resolve_ref all name at).1 ≡ []
      → P (resolve_ref all name at).0
  resolve_ref-IsIn name at P h e =
      go (position_of 0 all name) (λ j. position_of-IsIn 0 all name j) e
    where
      go :
          (o : Option ℕ)
          → ((j : ℕ) → o ≡ some j → IsIn j (places 0 all))
          → (elim o as (λ _. FieldType × List Pos) [
            | none ↦ (Schema.ref (length all), at ∷ [])
            | some i ↦ (Schema.ref i, if is_fixed_at i all then [] else at ∷ [])
          ]).1
            ≡ []
          → P
              (elim o as (λ _. FieldType × List Pos) [
                | none ↦ (Schema.ref (length all), at ∷ [])
                | some i ↦ (Schema.ref i, if is_fixed_at i all then [] else at ∷ [])
              ]).0
      go none k e = absurd cc
      go (some i) k e = h i (k i refl)

  rest_nil :
      (b : Bool) (at : Pos) (errs : List Pos) → (if b then at ∷ errs else errs) ≡ [] → errs ≡ []
  rest_nil true at errs e = absurd cc
  rest_nil false at errs e = e

  resolve_elem-IsResolved :
      (len : ℕ) (t : Syntax)
      → (resolve_elem all t).1 ≡ []
      → IsResolved (places 0 all) (Schema.array len (resolve_elem all t).0)
  resolve_elem-IsResolved len (scalar k at) e = tt
  resolve_elem-IsResolved len (string at) e = absurd cc
  resolve_elem-IsResolved len (bytes at) e = absurd cc
  resolve_elem-IsResolved len (ref name at) e =
      resolve_ref-IsIn name at (λ t. IsResolved (places 0 all) (Schema.array len t)) (λ j i. i) e
  resolve_elem-IsResolved len (array n elem at) e = absurd cc

  resolve-IsResolved :
      (t : Syntax) → (resolve all t).1 ≡ [] → IsResolved (places 0 all) (resolve all t).0
  unfolding resolve
  resolve-IsResolved (scalar k at) e = tt
  resolve-IsResolved (string at) e = tt
  resolve-IsResolved (bytes at) e = tt
  resolve-IsResolved (ref name at) e =
      resolve_ref-IsIn name at (IsResolved (places 0 all)) (λ j i. i) e
  resolve-IsResolved (array len elem at) e =
      resolve_elem-IsResolved len elem (rest_nil (ltb len 1) at (resolve_elem all elem).1 e)

  resolve_fields-IsResolved :
      (fs : List Field)
      → (resolve_fields all fs).1 ≡ []
      → All (IsResolved (places 0 all)) (resolve_fields all fs).0
  unfolding resolve_fields
  resolve_fields-IsResolved [] e = tt
  resolve_fields-IsResolved (f ∷ fs) e =
      let (a, b) = nil-append (resolve all f.type_of).1 (resolve_fields all fs).1 e in
      (resolve-IsResolved f.type_of a, resolve_fields-IsResolved fs b)

  pub types-IsResolved :
      (i : ℕ) (ms : List Message)
      → (types all i ms).1 ≡ []
      → All (IsResolvedMessage (places 0 all)) (types all i ms).0
  unfolding types
  types-IsResolved i [] e = tt
  types-IsResolved i (m ∷ ms) e =
      let (a, b) = nil-append (resolve_fields all m.fields).1 (types all (i + 1) ms).1 e in
      (resolve_fields-IsResolved m.fields a, types-IsResolved (i + 1) ms b)
