-- ===== src/Ring/Race/Safety.antt =====
-- What holds of producers and reader in every reachable state.
use go_ipc.Prelude.{
  ℕ, ◌+◌, ◌-◌, ◌^◌, ◌<◌, ◌≤◌, ◌≡◌, ◌≢◌, ◌⊎◌, inl, inr, List, [], ◌++◌, refl, sym, ◌∙◌, ap, subst,
  arith,
}
use go_ipc.Ring.{Ring}
use go_ipc.Ring.Race.Ranges.{Writes, Writes-Own, Sits-wrapped}
use go_ipc.Ring.Records.{Record, IsRing}
use go_ipc.Ring.Race.{broken, World}
use go_ipc.Ring.Race.Sits.{stamped}
use go_ipc.Ring.Race.Invariant.{front, Follows, Inv}
use mathlib.Core.List.{Perm}
use go_ipc.Ring.Race.{Step, produces, reads, Reach, begin, later, start}
use go_ipc.Ring.Race.Invariant.{Ordered}
use go_ipc.Ring.Race.Kept.{Move-Inv}
use go_ipc.Ring.Race.Reads.{Turn-Inv}
use mathlib.Core.List.Perm

abbrev Held : World → Type 0
Held w = (xs : List Record) × (owner : ℕ → ℕ) × Inv w xs owner

start-Inv : {r : Ring} → IsRing r [] → r.capacity < 2 ^ 32 - 8 → Inv (start r) [] (λ _. 0)
start-Inv {r} v small =
    let e : r.head + 0 ≡ r.head = omega arith in
    record {
      ring = rw e v;
      apart = record {
        relies = λ i. tt;
        sits = λ i c x o. elim o [ ];
        owned = λ i c x o. elim o [ ];
      };
      cached = v.cached;
      follows = tt;
      kept = Perm.refl [];
      limited = small;
      ordered = tt;
    }

Step-Inv : {w w' : World} → Held w → Step w w' → Held w'
Step-Inv (xs, owner, inv) (produces i mv) = Move-Inv inv i refl mv
Step-Inv (xs, owner, inv) (reads t) = let (ys, inv') = Turn-Inv inv t in (ys, owner, inv')

Reach-Inv : {r : Ring} {w : World} → IsRing r [] → r.capacity < 2 ^ 32 - 8 → Reach r w → Held w
Reach-Inv v small begin = ([], (λ _. 0), start-Inv v small)
Reach-Inv v small (later k s) = Step-Inv (Reach-Inv v small k) s

-- Whatever the producers and the reader of a ring of less than 2 ^ 32 - 8 bytes do, in any order: the ring is well-formed from
-- where the reader stands, and the messages that were delivered, with those that are still there,
-- are the ones that were committed, each once, with the type and the payload of its producer.
pub Reach-exact :
    {r : Ring} {w : World}
    → IsRing r []
    → r.capacity < 2 ^ 32 - 8
    → Reach r w
    → (xs : List Record) × IsRing (record w.ring { head = front w }) xs
      × Perm (w.delivered ++ stamped (front w) xs) w.sent
Reach-exact v small k = let (xs, _, inv) = Reach-Inv v small k in (xs, inv.ring, inv.kept)

-- On a ring of less than 2 ^ 32 - 8 bytes the reader gets the messages in the order of the ranges
-- that the producers took, each before the cursor where it stands now.
pub Reach-Ordered :
    {r : Ring} {w : World}
    → IsRing r []
    → r.capacity < 2 ^ 32 - 8
    → Reach r w
    → Ordered (front w) w.delivered
Reach-Ordered v small k = let (_, _, inv) = Reach-Inv v small k in inv.ordered

-- On a ring of less than 2 ^ 32 - 8 bytes no interleaving makes `Read` report a corrupt ring or
-- panic.
pub Reach-intact :
    {r : Ring} {w : World} → IsRing r [] → r.capacity < 2 ^ 32 - 8 → Reach r w → w.reader ≢ broken
Reach-intact {w = w} v small k e =
    let (xs, _, inv) = Reach-Inv v small k in subst (λ rd. Follows w.ring xs rd) e inv.follows

-- The bytes of the data region that two producers have at the same time lie within the region and
-- do not overlap, so that the writes of one never reach the record of another. The ring has less
-- than 2 ^ 32 - 8 bytes.
pub Reach-apart :
    {r : Ring} {w : World}
    → IsRing r []
    → r.capacity < 2 ^ 32 - 8
    → Reach r w
    → (i j lo n lo' n' : ℕ) → Writes w.ring.capacity (w.phases i) lo n
    → Writes w.ring.capacity (w.phases j) lo' n'
    → i ≢ j
    → (lo + n ≤ w.ring.capacity) × (lo' + n' ≤ w.ring.capacity) × ((lo + n ≤ lo') ⊎ (lo' + n' ≤ lo))
Reach-apart {w = w} v small k i j lo n lo' n' a b ne =
    let (xs, owner, inv) = Reach-Inv v small k in
    let o = Writes-Own w.ring (w.phases i) lo n (inv.apart.relies i) a in
    let o' = Writes-Own w.ring (w.phases j) lo' n' (inv.apart.relies j) b in
    let (inside, inside', sep) =
      Sits-wrapped o.cursor o'.cursor o.record_there o'.record_there inv.ring
        (inv.apart.sits i _ _ o.holds) (inv.apart.sits j _ _ o'.holds)
        (λ e.
          ne (sym (inv.apart.owned i _ _ o.holds) ∙ ap owner e ∙ inv.apart.owned j _ _ o'.holds)) in
    (
      omega (arith, inside, o.starts, o.covers),
      omega (arith, inside', o'.starts, o'.covers),
      elim sep [
        | inl p ↦ inl (omega (arith, p, o.starts, o.covers, o'.starts))
        | inr p ↦ inr (omega (arith, p, o.starts, o'.covers, o'.starts))
      ],
    )
