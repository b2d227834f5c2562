-- ===== src/Ring/Race/Producing.antt =====
-- Every step of a producer keeps the invariant.
use go_ipc.Prelude.{ℕ, ◌+◌, ◌%◌, ◌≡◌, ◌≢◌, ◌⊎◌, inl, List, [], ◌∷◌, ◌++◌, sym, ◌∙◌, ap, subst}
use go_ipc.Memory.{Bytes}
use go_ipc.Ring.{Ring}
use go_ipc.Ring.Records.{Record, span, IsRing}
use go_ipc.Ring.Replace.{at_end}
use go_ipc.Ring.Steps.{index_after}
use go_ipc.Ring.Race.{Phase, Reader, resting, reading, broken, Stamped, World, update}
use go_ipc.Ring.Race.Sits.{Sits, Sits-split, Bounds-replace, stamp}
use go_ipc.Ring.Race.Invariant.{front, ahead, Relies, Holding, Follows, Inv}
use go_ipc.Ring.Race.Moves.{Apart-update, Apart-replace, stamped-replace}

-- The world after producer `i` moved.
abbrev pub after : World → ℕ → Ring → Phase → List Stamped → World
after w i r p out = record w { ring = r; phases = update w.phases i p; sent = out ++ w.sent }

module _ {w : World} {xs : List Record} {owner : ℕ → ℕ} (inv : Inv w xs owner) (i : ℕ)
    (p : Phase) where
  -- Nothing but the phase changes, to one without a record.
  pub stays :
      Relies w.ring p
      → ((c : ℕ) (x : Record) → Holding w.ring.capacity p c x → ⊥)
      → Inv (after w i w.ring p []) xs owner
  stays q nothing = record {
    ring = inv.ring;
    apart = Apart-update inv.apart i p q (λ c x o. absurd (nothing c x o));
    cached = inv.cached;
    follows = inv.follows;
    kept = inv.kept;
    limited = inv.limited;
    ordered = inv.ordered;
  }

Follows-replace :
    (r : Ring) (m : Bytes) (ys zs : List Record) (x y : Record) (e : span y ≡ span x) (rd : Reader)
    → Follows r (ys ++ x ∷ zs) rd
    → Follows (record r { bytes = m }) (ys ++ y ∷ zs) rd
Follows-replace r m ys zs x y e resting f = f
Follows-replace r m ys zs x y e (reading limit available consumed count) f =
    Bounds-replace x y e (r.head + consumed) (r.head + available) ys zs f
Follows-replace r m ys zs x y e broken f = f

-- The record `x` of producer `i` is written over by `y`.
module _ {w : World} {owner : ℕ → ℕ} (i : ℕ) (p : Phase) (m : Bytes) (ys zs : List Record)
    (x y : Record) (e : span y ≡ span x) (inv : Inv w (ys ++ x ∷ zs) owner) where
  pub overwrites :
      owner (at_end (front w) ys) ≡ i
      → stamp (at_end (front w) ys) x ≡ []
      → IsRing (record (ahead w.ring (front w)) { bytes = m }) (ys ++ y ∷ zs)
      → Relies w.ring p
      → ((c : ℕ) (z : Record)
          → Holding w.ring.capacity p c z
          → ((c ≡ at_end (front w) ys) × (z ≡ y))
            ⊎ ((c ≢ at_end (front w) ys) × Sits (front w) (ys ++ x ∷ zs) c z × (owner c ≡ i)))
      → Inv
          (after w i (record w.ring { bytes = m }) p (stamp (at_end (front w) ys) y))
          (ys ++ y ∷ zs)
          owner
  overwrites mine quiet v q own = record {
    ring = v;
    apart = Apart-replace ys zs x y e inv.apart i p m mine q own;
    cached = inv.cached;
    follows = Follows-replace w.ring m ys zs x y e w.reader inv.follows;
    kept = stamped-replace (front w) ys zs x y w.delivered w.sent e quiet inv.kept;
    limited = inv.limited;
    ordered = inv.ordered;
  }

-- The steps that write: each with the record of the phase `p` that it starts from.
module _ {w : World} {xs : List Record} {owner : ℕ → ℕ} (inv : Inv w xs owner) (i : ℕ) {p : Phase}
    (e : w.phases i ≡ p) where
  abbrev pub Next : Ring → Phase → List Stamped → Type 0
  Next r q out = (ys : List Record) × (o : ℕ → ℕ) × Inv (after w i r q out) ys o

  pub relied : Relies w.ring p
  relied = subst (Relies w.ring) e (inv.apart.relies i)

  -- What `i` has lies in the ring, and is its own.
  pub found :
      (c : ℕ) (x : Record)
      → Holding w.ring.capacity p c x
      → (ys zs : List Record) × Inv w (ys ++ x ∷ zs) owner
        × (at_end (front w) ys ≡ c)
        × (owner c ≡ i)
  found c x o =
      let o' = subst (λ q. Holding w.ring.capacity q c x) (sym e) o in
      let (ys, zs, s, k) = Sits-split (front w) c xs x (inv.apart.sits i c x o') in
      (ys, zs, subst (λ (l : List Record). Inv w l owner) s inv, k, inv.apart.owned i c x o')

  -- Its one record, at the index that it holds, becomes `y`, and nothing is left to do but what the
  -- phase `q` says.
  pub rewrites :
      (c index : ℕ) (x y : Record) (q : Phase) (m : Bytes)
      → Holding w.ring.capacity p c x
      → index ≡ c % w.ring.capacity
      → span y ≡ span x
      → stamp c x ≡ []
      → ((ys zs : List Record)
          → IsRing (ahead w.ring (front w)) (ys ++ x ∷ zs)
          → index_after (ahead w.ring (front w)) ys ≡ index
          → IsRing (record (ahead w.ring (front w)) { bytes = m }) (ys ++ y ∷ zs))
      → Relies w.ring q
      → ((d : ℕ) (z : Record) → Holding w.ring.capacity q d z → (d ≡ c) × (z ≡ y))
      → Next (record w.ring { bytes = m }) q (stamp c y)
  rewrites c index x y q m o at same quiet v relies own =
      let (ys, zs, inv', k, mine) = found c x o in
      let there : index_after (ahead w.ring (front w)) ys ≡ index =
        ap (λ (d : ℕ). d % w.ring.capacity) k ∙ sym at in
      (
        ys ++ y ∷ zs,
        owner,
        subst
            (λ (d : ℕ).
              Inv (after w i (record w.ring { bytes = m }) q (stamp d y)) (ys ++ y ∷ zs) owner)
            k
            (overwrites i q m ys zs x y same inv' (ap owner k ∙ mine)
              (ap (λ (d : ℕ). stamp d x) k ∙ quiet) (v ys zs inv'.ring there) relies
              (λ d z h. inl ((own d z h).0 ∙ sym k, (own d z h).1))),
      )
