-- ===== src/Ring/Handles/Held.antt =====
-- No two claims of a handle hold the same slot at the same time.
use go_ipc.Prelude.{
  ℕ, zero, suc, ◌+◌, ◌≤◌, ◌<◌, ◌≡◌, ◌≢◌, inl, inr, Bool, Bool-cases, List, [], ◌∷◌, refl, sym, ◌∙◌,
  ap, subst, arith, ◌==◌, get_or, if◌then◌else◌,
}
use native.Mathlib.Decide.{dec_lt}
use go_ipc.Errors.{Result, ok, err}
use go_ipc.Ring.{Ring, Slot, free_slot}
use go_ipc.Ring.Recovery.{acquire_slot}
use go_ipc.Ring.Recovery.Slots.{Took, IsFree, IsStealable, Acquired, acquire_slot_lem}
use go_ipc.Ring.Handles.{Handle, acquired, take_slot, put_slot}

abbrev pub owner_of : List Slot → ℕ → ℕ
owner_of ss j = (get_or ss j free_slot).owner

-- How often a slot stands in a list.
abbrev pub count : ℕ → List ℕ → ℕ
count j [] = 0
count j (x ∷ xs) = (if j == x then 1 else 0) + count j xs

-- The slots that are idle and those that claims hold are different slots, all owned by this process.
pub record IsHandle (self : ℕ) (h : Handle) (held : List ℕ) (r : Ring) : Type 0 where
  pub apart : (j : ℕ) → count j h.idle + count j held ≤ 1
  pub mine : (j : ℕ) → 0 < count j h.idle + count j held → owner_of r.slots j ≡ self

-- The slot taken was another's or nobody's; now it is this process's, and the others are as before.
Took-owner :
    (P : Slot → Type 0) (self : ℕ) (ss ss' : List Slot) (i : ℕ)
    → ((s : Slot) → P s → s.owner ≢ self)
    → Took P self ss ss' i
    → (owner_of ss i ≢ self)
      × (owner_of ss' i ≡ self)
      × ((j : ℕ) → j ≢ i → owner_of ss' j ≡ owner_of ss j)
Took-owner P self [] ss' i other t = absurd t
Took-owner P self (s ∷ ss) [] i other t = absurd t
Took-owner P self (s ∷ ss) (s' ∷ ss') zero other (e, e', p) = (
  other s p,
  ap (λ (x : Slot). x.owner) e',
  λ j. elim j as (λ k. k ≢ 0 → owner_of (s' ∷ ss') k ≡ owner_of (s ∷ ss) k) [
    | zero ↦ λ ne. absurd (ne refl)
    | suc k ↦ λ ne. ap (λ l. owner_of l k) e
  ],
)
Took-owner P self (s ∷ ss) (s' ∷ ss') (suc i) other (e, t) =
    let (a, b, c) = Took-owner P self ss ss' i other t in
    (
      a,
      b,
      λ j. elim j as (λ k. k ≢ suc i → owner_of (s' ∷ ss') k ≡ owner_of (s ∷ ss) k) [
        | zero ↦ λ ne. ap (λ (x : Slot). x.owner) e
        | suc k ↦ λ ne. c k (λ same. ne (ap suc same))
      ],
    )

-- What a claim gets.
abbrev pub Handed : ℕ → List ℕ → Handle × Ring × Result ℕ → Type 0
Handed self held (h, r, ok i) = IsHandle self h (i ∷ held) r
Handed self held (h, r, err e) = IsHandle self h held r

module _ (self : ℕ) (dead : ℕ → Bool) (pos : self ≢ 0) where
  free_other : (s : Slot) → IsFree s → s.owner ≢ self
  free_other s f e = pos (sym e ∙ f)

  module _ (h : Handle) (held : List ℕ) (r : Ring) (v : IsHandle self h held r) where
    grown :
        (ss : List Slot) (i : ℕ)
        → (owner_of r.slots i ≢ self)
          × (owner_of ss i ≡ self)
          × ((j : ℕ) → j ≢ i → owner_of ss j ≡ owner_of r.slots j)
        → IsHandle self (record h { owned = i ∷ h.owned }) (i ∷ held) (record r { slots = ss })
    grown ss i (a, b, c) = record {
      apart = λ j. elim (Bool-cases (j == i)) [
        | inl same ↦ let e : j ≡ i = ground arith in rw same (omega (arith, unheld j e))
        | inr other ↦ rw other (omega (arith, v.apart j))
      ];
      mine = λ j. elim (Bool-cases (j == i)) [
        | inl same ↦ λ p. let e : j ≡ i = ground arith in ap (owner_of ss) e ∙ b
        | inr other ↦
            let ne : j ≢ i = ground arith in rw other (λ p. c j ne ∙ v.mine j (omega arith))
      ];
    }
      where
        unheld : (j : ℕ) → j ≡ i → count j h.idle + count j held ≡ 0
        unheld j e = elim (dec_lt 0 (count j h.idle + count j held)) [
          | yes p ↦ absurd (a (ap (owner_of r.slots) (sym e) ∙ v.mine j p))
          | no p ↦ omega arith
        ]

    settled : (o : Ring × Result ℕ) → Acquired dead self r o → Handed self held (acquired h o)
    settled (r', ok i) (ss, e, inl t) =
        subst (λ x. IsHandle self (record h { owned = i ∷ h.owned }) (i ∷ held) x) (sym e)
          (grown ss i (Took-owner IsFree self r.slots ss i free_other t))
    settled (r', ok i) (ss, e, inr (_, t)) =
        subst (λ x. IsHandle self (record h { owned = i ∷ h.owned }) (i ∷ held) x) (sym e)
          (grown ss i
            (Took-owner (IsStealable dead self r.head) self r.slots ss i (λ s p. p.other) t))
    settled (r', err x) (_, e, _, _) = subst (λ y. IsHandle self h held y) (sym e) v

  -- What `takeSlot` hands out is held by no other claim of the handle and is owned by this process; this
  -- stays so for all the slots that its claims hold and those that are idle. If it fails, they are as
  -- before.
  pub take_slot_lem :
      (h : Handle) (held : List ℕ) (r : Ring)
      → IsHandle self h held r
      → Handed self held (take_slot self dead h r)
  unfolding take_slot
  take_slot_lem h held r v = take h.idle h.owned v
    where
      take :
          (idle owned : List ℕ)
          → IsHandle self (record { idle = idle; owned = owned }) held r
          → Handed self held (take_slot self dead (record { idle = idle; owned = owned }) r)
      take [] owned k =
          settled (record { idle = []; owned = owned }) held r k (acquire_slot self dead r)
            (acquire_slot_lem dead self r)
      take (slot ∷ rest) owned k = record {
        apart = λ j. omega (arith, k.apart j);
        mine = λ j p. k.mine j (omega arith);
      }

  -- A slot that a claim gives back is idle, and held no more.
  pub put_slot_lem :
      (h : Handle) (slot : ℕ) (held : List ℕ) (r : Ring)
      → IsHandle self h (slot ∷ held) r
      → IsHandle self (put_slot slot h) held r
  unfolding put_slot
  put_slot_lem h slot held r v = record {
    apart = λ j. omega (arith, v.apart j);
    mine = λ j p. v.mine j (omega arith);
  }
