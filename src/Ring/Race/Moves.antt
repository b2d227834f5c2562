-- ===== src/Ring/Race/Moves.antt =====
-- A step of a producer, as a change of the records: none, one record for another, or new records.
use go_ipc.Prelude.{
  ℕ, ◌+◌, ◌≤◌, ◌≡◌, ◌≢◌, ◌⊎◌, inl, inr, Bool-cases, List, [], ◌∷◌, ◌++◌, append_assoc, refl, sym,
  ◌∙◌, ap, subst, arith, ◌==◌,
}
use go_ipc.Memory.{Bytes}
use go_ipc.Ring.{Ring}
use go_ipc.Ring.Records.{Record, span}
use go_ipc.Ring.Replace.{at_end}
use go_ipc.Ring.Race.{
  Phase, idle, wants, loaded, short, caching, roomy, crossed, taken, owns, written, Stamped, update,
}
use go_ipc.Ring.Race.Sits.{Sits, Sits-there, Sits-replace, stamp, stamped, stamped-append}
use go_ipc.Ring.Race.Invariant.{Relies, Holding, Apart}
use mathlib.Core.List.{Perm, perm_middle}
use mathlib.Core.List.Perm

pub Relies-grow :
    (r r' : Ring)
    → r'.capacity ≡ r.capacity
    → r.tail ≤ r'.tail
    → r.head ≤ r'.head
    → (p : Phase) → Relies r p
    → Relies r' p
Relies-grow r r' e t h idle q = q
Relies-grow r r' e t h (wants m) q = q
Relies-grow r r' e t h (loaded m tail) q = (q.0, omega (arith, q.1))
Relies-grow r r' e t h (short m tail) q = (q.0, omega (arith, q.1))
Relies-grow r r' e t h (caching m tail head) q = (q.0, omega (arith, q), omega (arith, q), rw e q.3)
Relies-grow r r' e t h (roomy m tail) q = (q.0, omega (arith, q), rw e (omega (arith, q.2)))
Relies-grow r r' e t h (crossed m tail) q = rw e q
Relies-grow r r' e t h (taken m at index) q = rw e q
Relies-grow r r' e t h (owns m at index) q = rw e q
Relies-grow r r' e t h (written m at index) q = rw e q

-- What holds of the phase of `i` and of the phases of the others holds after an update.
pub update-all :
    (P : ℕ → Phase → Type 0) (f : ℕ → Phase) (i : ℕ) (p : Phase)
    → P i p
    → ((j : ℕ) → j ≢ i → P j (f j))
    → (j : ℕ) → P j (update f i p j)
unfolding update
update-all P f i p here there j = elim (Bool-cases (j == i)) [
  | inl e ↦ let same : j ≡ i = ground arith in rw e (subst (λ (k : ℕ). P k p) (sym same) here)
  | inr e ↦ let other : j ≢ i = λ k. ground arith in rw e (there j other)
]

module _ {r : Ring} {h : ℕ} {xs : List Record} {phases : ℕ → Phase} {owner : ℕ → ℕ}
    (a : Apart r h xs phases owner) (i : ℕ) (p : Phase) where
  -- A phase without a record, or with one that is there already.
  pub Apart-update :
      Relies r p
      → ((c : ℕ) (x : Record) → Holding r.capacity p c x → Sits h xs c x × (owner c ≡ i))
      → Apart r h xs (update phases i p) owner
  Apart-update q own = record {
    relies = update-all (λ j s. Relies r s) phases i p q (λ j k. a.relies j);
    sits =
        update-all (λ j s. (c : ℕ) (x : Record) → Holding r.capacity s c x → Sits h xs c x) phases i
          p (λ c x o. (own c x o).0) (λ j k. a.sits j);
    owned =
        update-all (λ j s. (c : ℕ) (x : Record) → Holding r.capacity s c x → owner c ≡ j) phases i p
          (λ c x o. (own c x o).1) (λ j k. a.owned j);
  }

-- The record of `i` at the end of `ys` is written over.
module _ {r : Ring} {h : ℕ} (ys zs : List Record) (x y : Record) (e : span y ≡ span x)
    {phases : ℕ → Phase} {owner : ℕ → ℕ} (a : Apart r h (ys ++ x ∷ zs) phases owner) (i : ℕ)
    (p : Phase) (m : Bytes) (mine : owner (at_end h ys) ≡ i) where
  pub Apart-replace :
      Relies r p
      → ((c : ℕ) (z : Record)
          → Holding r.capacity p c z
          → ((c ≡ at_end h ys) × (z ≡ y))
            ⊎ ((c ≢ at_end h ys) × Sits h (ys ++ x ∷ zs) c z × (owner c ≡ i)))
      → Apart (record r { bytes = m }) h (ys ++ y ∷ zs) (update phases i p) owner
  Apart-replace q own = record {
    relies = λ j.
        Relies-grow r (record r { bytes = m }) refl (omega arith) (omega arith)
          (update phases i p j)
          (update-all (λ j s. Relies r s) phases i p q (λ k ne. a.relies k) j);
    sits =
        update-all
          (λ j s. (c : ℕ) (z : Record) → Holding r.capacity s c z → Sits h (ys ++ y ∷ zs) c z)
          phases i p here
          (λ j ne c z o.
            Sits-replace x y e h c ys zs z (λ s. ne (sym (a.owned j c z o) ∙ ap owner s ∙ mine))
              (a.sits j c z o));
    owned =
        update-all (λ j s. (c : ℕ) (z : Record) → Holding r.capacity s c z → owner c ≡ j) phases i p
          owns_it (λ j ne. a.owned j);
  }
    where
      here : (c : ℕ) (z : Record) → Holding r.capacity p c z → Sits h (ys ++ y ∷ zs) c z
      here c z o = elim (own c z o) [
        | inl (s, t) ↦ Sits-there h ys zs c y z s t
        | inr (ne, s, k) ↦ Sits-replace x y e h c ys zs z ne s
      ]

      owns_it : (c : ℕ) (z : Record) → Holding r.capacity p c z → owner c ≡ i
      owns_it c z o = elim (own c z o) [ inl (s, t) ↦ ap owner s ∙ mine | inr (ne, s, k) ↦ k ]

pub perm_insert : (d a n b : List Stamped) → Perm (d ++ (a ++ (n ++ b))) (n ++ (d ++ (a ++ b)))
perm_insert d a [] b = Perm.refl _
perm_insert d a (s ∷ n) b = rw (append_assoc d a (s ∷ (n ++ b))) at (
    Perm.trans (perm_middle (d ++ a) (n ++ b))
      (Perm.cons s (rw (← append_assoc d a (n ++ b)) at (perm_insert d a n b))))

-- A record that is written over, by one that may be a message: it is what is new.
pub stamped-replace :
    (h : ℕ) (ys zs : List Record) (x y : Record) (d sent : List Stamped)
    → span y ≡ span x
    → stamp (at_end h ys) x ≡ []
    → Perm (d ++ stamped h (ys ++ x ∷ zs)) sent
    → Perm (d ++ stamped h (ys ++ y ∷ zs)) (stamp (at_end h ys) y ++ sent)
stamped-replace h ys zs x y d sent e z k =
    let c = at_end h ys in
    let before = stamped h ys in
    let behind = stamped (c + span x) zs in
    let old : stamped h (ys ++ x ∷ zs) ≡ before ++ behind =
      stamped-append h ys (x ∷ zs) ∙ ap (λ (l : List Stamped). before ++ (l ++ behind)) z in
    let new : stamped h (ys ++ y ∷ zs) ≡ before ++ (stamp c y ++ behind) =
      stamped-append h ys (y ∷ zs)
      ∙ ap (λ (n : ℕ). before ++ (stamp c y ++ stamped (c + n) zs)) e in
    rw new (
      Perm.trans (perm_insert d before (stamp c y) behind)
        (Perm.append_left (stamp c y) (rw old at k)))
