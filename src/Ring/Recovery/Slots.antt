-- ===== src/Ring/Recovery/Slots.antt =====
-- Which claim slot `acquireSlot` takes, and from whom.
use go_ipc.Prelude.{
  ℕ, zero, suc, ◌+◌, ◌≤◌, ◌≡◌, ◌≢◌, ◌⊎◌, inl, inr, Bool-cases, Bool, true, false, Option, none,
  some, List, [], ◌∷◌, All, refl, subst, arith, ◌==◌,
}
use go_ipc.Words.{u64_add}
use go_ipc.Errors.{Result, ok, err, too_many_claims}
use go_ipc.Ring.{Ring, Slot, no_intent}
use go_ipc.Ring.Recovery.{take_free, can_steal, steal_dead, acquire_slot}

-- The slots `ss'` are `ss` but for slot `i`, which meets `P` and which `self` now owns without an
-- intent.
abbrev pub Took : (Slot → Type 0) → ℕ → List Slot → List Slot → ℕ → Type 0
Took P self [] ss' i = ⊥
Took P self (s ∷ ss) [] i = ⊥
Took P self (s ∷ ss) (s' ∷ ss') zero =
    (ss' ≡ ss) × (s' ≡ record s { owner = self; at = no_intent }) × P s
Took P self (s ∷ ss) (s' ∷ ss') (suc i) = (s' ≡ s) × Took P self ss ss' i

-- What a search of `ss`, from index `idx` on, for a slot that meets `P` gives: the slot taken, or
-- nothing, and then no slot meets `P`.
abbrev pub Searched : (Slot → Type 0) → ℕ → ℕ → List Slot → Option (ℕ × List Slot) → Type 0
Searched P self idx ss none = All (λ s. ¬ P s) ss
Searched P self idx ss (some (i, ss')) = (k : ℕ) × (i ≡ idx + k) × Took P self ss ss' k

module _ (P : Slot → Type 0) (self : ℕ) where
  found_later :
      (idx : ℕ) (s : Slot) (ss : List Slot) (rest : Option (ℕ × List Slot))
      → ¬ P s
      → Searched P self (idx + 1) ss rest
      → Searched P self idx (s ∷ ss) (elim rest [ none ↦ none | some (i, ss') ↦ some (i, s ∷ ss') ])
  found_later idx s ss none passed h = (passed, h)
  found_later idx s ss (some (i, ss')) passed (k, e, t) = (suc k, omega arith, (refl, t))

abbrev pub IsFree : Slot → Type 0
IsFree s = s.owner ≡ 0

-- The owner is another process, and dead, and the reader has passed whatever it claimed.
pub record IsStealable (dead : ℕ → Bool) (self head : ℕ) (s : Slot) : Type 0 where
  pub owned : s.owner ≢ 0
  pub other : s.owner ≢ self
  pub passed : (s.at ≡ no_intent) ⊎ (u64_add s.at s.size ≤ head)
  pub exited : dead s.owner ≡ true

module _ (dead : ℕ → Bool) (self head : ℕ) (s : Slot) where
  can_steal-IsStealable : can_steal dead self head s ≡ true → IsStealable dead self head s
  can_steal-IsStealable h = record {
    owned = ground (arith, h);
    other = ground (arith, h);
    passed = ground (arith, h);
    exited = ground (arith, h);
  }

  IsStealable-can_steal : can_steal dead self head s ≡ false → ¬ IsStealable dead self head s
  IsStealable-can_steal h p = ground (arith, h, p.owned, p.other, p.passed, p.exited)

take_free_lem :
    (self idx : ℕ) (ss : List Slot) → Searched IsFree self idx ss (take_free self idx ss)
unfolding take_free
take_free_lem self idx [] = tt
take_free_lem self idx (s ∷ ss) = elim (Bool-cases (s.owner == 0)) [
  | inl free ↦ rw free (0, omega arith, (refl, refl, ground arith))
  | inr busy ↦ rw busy (
      found_later IsFree self idx s ss (take_free self (idx + 1) ss) (ground arith)
        (take_free_lem self (idx + 1) ss))
]

module _ (dead : ℕ → Bool) (self head : ℕ) where
  steal_dead_lem :
      (idx : ℕ) (ss : List Slot)
      → Searched (IsStealable dead self head) self idx ss (steal_dead dead self head idx ss)
  unfolding steal_dead
  steal_dead_lem idx [] = tt
  steal_dead_lem idx (s ∷ ss) = elim (Bool-cases (can_steal dead self head s)) [
    | inl can ↦ rw can (0, omega arith, (refl, refl, can_steal-IsStealable dead self head s can))
    | inr cannot ↦ rw cannot (
        found_later (IsStealable dead self head) self idx s ss
          (steal_dead dead self head (idx + 1) ss) (IsStealable-can_steal dead self head s cannot)
          (steal_dead_lem (idx + 1) ss))
  ]

-- What `acquireSlot` may return for the ring `r`.
abbrev pub Acquired : (ℕ → Bool) → ℕ → Ring → Ring × Result ℕ → Type 0
Acquired dead self r (r', ok i) =
    (ss : List Slot) × (r' ≡ record r { slots = ss })
    × (Took IsFree self r.slots ss i
        ⊎ (All (λ s. ¬ IsFree s) r.slots × Took (IsStealable dead self r.head) self r.slots ss i))
Acquired dead self r (r', err e) =
    (e ≡ too_many_claims)
    × (r' ≡ r)
    × All (λ s. ¬ IsFree s) r.slots
    × All (λ s. ¬ IsStealable dead self r.head s) r.slots

module _ (dead : ℕ → Bool) (self : ℕ) (r : Ring) where
  take_at :
      (P : Slot → Type 0) (i k : ℕ) (ss : List Slot)
      → i ≡ 0 + k
      → Took P self r.slots ss k
      → Took P self r.slots ss i
  take_at P i k ss e t = subst (λ j. Took P self r.slots ss j) (omega (arith, e)) t

  settle :
      (a b : Option (ℕ × List Slot))
      → Searched IsFree self 0 r.slots a
      → Searched (IsStealable dead self r.head) self 0 r.slots b
      → Acquired dead self r (elim a [
        | some (i, ss) ↦ (record r { slots = ss }, ok i)
        | none ↦ elim b [
          | some (i, ss) ↦ (record r { slots = ss }, ok i)
          | none ↦ (r, err too_many_claims)
        ]
      ])
  settle (some (i, ss)) b (k, e, t) q = (ss, refl, inl (take_at IsFree i k ss e t))
  settle none (some (i, ss)) p (k, e, t) =
      (ss, refl, inr (p, take_at (IsStealable dead self r.head) i k ss e t))
  settle none none p q = (refl, refl, p, q)

  -- `acquireSlot` takes one slot and leaves the others and the rest of the ring alone. The slot it
  -- takes had no owner, or, when every slot has one, the owner was another process, dead, and the
  -- reader had passed its claim. It gives `ErrTooManyClaims`, and the ring as it was, only when there
  -- is no such slot.
  pub acquire_slot_lem : Acquired dead self r (acquire_slot self dead r)
  unfolding acquire_slot
  acquire_slot_lem =
      settle (take_free self 0 r.slots) (steal_dead dead self r.head 0 r.slots)
        (take_free_lem self 0 r.slots) (steal_dead_lem dead self r.head 0 r.slots)
