-- ===== src/Schema/Placement.antt =====
-- What a layout promises: fields in order, aligned, apart, and packed as close as alignment allows.
use go_ipc.Prelude.{ℕ, ◌+◌, ◌%◌, ◌≤◌, ◌<◌, ◌≡◌, ◌⊎◌, List, [], ◌∷◌, All}
use go_ipc.Schema.{FieldType, Table, Layout, field_size, field_align, max_fixed_size}

-- An alignment of the format.
abbrev pub IsAlign : ℕ → Type 0
IsAlign a = (a ≡ 1) ⊎ ((a ≡ 2) ⊎ ((a ≡ 4) ⊎ (a ≡ 8)))

-- The fields `fs` lie at the offsets from `off` to `last`.
abbrev pub Placed : Table → ℕ → List FieldType → List ℕ → ℕ → Type 0
Placed t off [] [] last = off ≡ last
Placed t off [] (o ∷ os) last = ⊥
Placed t off (f ∷ fs) [] last = ⊥
Placed t off (f ∷ fs) (o ∷ os) last =
    (off ≤ o)
    × (o < off + field_align t f)
    × (o % field_align t f ≡ 0)
    × Placed t (o + field_size t f) fs os last

pub record IsLayout (t : Table) (fs : List FieldType) (l : Layout) : Type 0 where
  pub last : ℕ
  pub placed : Placed t 0 fs l.offsets last
  pub covers : last ≤ l.fixed_size
  pub tight : l.fixed_size < last + l.align
  pub aligned : l.fixed_size % l.align ≡ 0
  pub align_ok : IsAlign l.align
  pub widest : All (λ f. field_align t f ≤ l.align) fs
  pub bounded : last ≤ max_fixed_size
