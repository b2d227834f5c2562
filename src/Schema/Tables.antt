-- ===== src/Schema/Tables.antt =====
-- `checker.layout` on all messages of a schema.
use go_ipc.Prelude.{
  ℕ, ◌≡◌, ◌⊎◌, inl, inr, Bool-cases, Option, none, some, List, [], ◌∷◌, All, refl, arith, ◌==◌,
}
use go_ipc.Schema.{
  FieldType, scalar, string, bytes, array, ref, Table, Layout, Message, lookup, fixed_fields,
  layout_message, layout,
}
use go_ipc.Schema.Placement.{IsAlign, IsLayout}
use go_ipc.Schema.Placing.{Known, Laid, layout_message_lem}

abbrev pub IsMember : Message → List Message → Type 0
IsMember m [] = ⊥
IsMember m (x ∷ xs) = (m ≡ x) ⊎ IsMember m xs

-- Every layout of the table is that of a message of `src`, for the fixed fields of that message, over the layouts of
-- those before it, where all that it contains is found.
abbrev pub IsTable : List Message → Table → Type 0
IsTable src [] = Unit
IsTable src ((id, l) ∷ t) =
    ((m : Message) × IsMember m src
      × (m.id ≡ id)
      × All (Known t) (fixed_fields m.fields)
      × IsLayout t (fixed_fields m.fields) l)
    × IsTable src t

-- The messages of a list come after the messages that they contain, as `cycles` sorts them.
abbrev pub IsIn : ℕ → List ℕ → Type 0
IsIn x [] = ⊥
IsIn x (y ∷ ys) = (x ≡ y) ⊎ IsIn x ys

abbrev pub Contains : List ℕ → FieldType → Type 0
Contains seen (scalar k) = Unit
Contains seen string = Unit
Contains seen bytes = Unit
Contains seen (array len elem) = Contains seen elem
Contains seen (ref msg) = IsIn msg seen

abbrev pub IsSorted : List ℕ → List Message → Type 0
IsSorted seen [] = Unit
IsSorted seen (m ∷ ms) = All (Contains seen) (fixed_fields m.fields) × IsSorted (m.id ∷ seen) ms

abbrev pub ids : Table → List ℕ
ids [] = []
ids ((id, l) ∷ t) = id ∷ ids t

module _ (src : List Message) where
  lookup-IsAlign :
      (t : Table) (id : ℕ) → IsTable src t → IsIn id (ids t) → IsAlign (lookup id t).align
  unfolding lookup
  lookup-IsAlign [] id h i = absurd i
  lookup-IsAlign ((k, l) ∷ t) id ((m, at, same_id, ks, h), hs) i = elim (Bool-cases (k == id)) [
    | inl same ↦ rw same h.align_ok
    | inr other ↦
        rw other
          (elim i [ inl e ↦ absurd (ground (arith, e, other)) | inr j ↦ lookup-IsAlign t id hs j ])
  ]

  Contains-Known : (t : Table) (f : FieldType) → IsTable src t → Contains (ids t) f → Known t f
  Contains-Known t (scalar k) h c = tt
  Contains-Known t string h c = tt
  Contains-Known t bytes h c = tt
  Contains-Known t (array len elem) h c = Contains-Known t elem h c
  Contains-Known t (ref msg) h c = lookup-IsAlign t msg h c

  Known-All :
      (t : Table) (fs : List FieldType)
      → IsTable src t
      → All (Contains (ids t)) fs
      → All (Known t) fs
  Known-All t [] h c = tt
  Known-All t (f ∷ fs) h c = (Contains-Known t f h c.0, Known-All t fs h c.1)

  -- What `layout` gives: a table of layouts, or an error for a message that is too large.
  abbrev pub Tabled : Option Table → Type 0
  Tabled none =
      (m : Message) × (t : Table) × IsMember m src
      × IsTable src t
      × All (Known t) (fixed_fields m.fields)
      × Laid t m none
  Tabled (some t) = IsTable src t

  step_table :
      (m : Message) (ms : List Message) (t : Table) (o : Option Layout)
      → IsMember m src
      → IsTable src t
      → All (Known t) (fixed_fields m.fields)
      → Laid t m o
      → ((l : Layout) → IsTable src ((m.id, l) ∷ t) → Tabled (layout ms ((m.id, l) ∷ t)))
      → Tabled (elim o [ none ↦ none | some l ↦ layout ms ((m.id, l) ∷ t) ])
  step_table m ms t none i h k d next = (m, t, i, h, k, d)
  step_table m ms t (some l) i h k d next = next l ((m, i, refl, k, d), h)

  -- `layout` on messages of `src` sorted as `cycles` sorts them: when it succeeds, every message is laid
  -- out as `IsLayout` says over the layouts of the messages before it, which are all that it contains. It
  -- fails only for one of these messages whose fields end behind the largest size wherever they are
  -- placed.
  pub layout_lem :
      (ms : List Message) (t : Table)
      → All (λ m. IsMember m src) ms
      → IsTable src t
      → IsSorted (ids t) ms
      → Tabled (layout ms t)
  unfolding layout
  layout_lem [] t i h s = h
  layout_lem (m ∷ ms) t i h s =
      let k = Known-All t (fixed_fields m.fields) h s.0 in
      step_table m ms t (layout_message t m) i.0 h k (layout_message_lem t m k)
        (λ l h'. layout_lem ms ((m.id, l) ∷ t) i.1 h' s.1)
