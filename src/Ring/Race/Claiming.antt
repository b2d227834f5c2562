-- ===== src/Ring/Race/Claiming.antt =====
-- The steps of a producer up to the compare-and-swap on the tail, which takes new records.
use go_ipc.Prelude.{
  ℕ, ◌+◌, ◌≤◌, ◌<◌, ◌≡◌, List, [], ◌++◌, refl, ◌∙◌, ap, subst, arith, if◌then◌else◌, ltb,
}
use go_ipc.Ring.{Ring}
use go_ipc.Ring.Reader.{Msg}
use go_ipc.Ring.Records.{Record, IsRing, Holds-span}
use go_ipc.Ring.Replace.{place}
use go_ipc.Ring.Race.{
  Phase, caching, roomy, Reader, resting, reading, broken, Stamped, World, update,
}
use go_ipc.Ring.Race.Sits.{Sits, Sits-split, stamped, stamped-append}
use go_ipc.Ring.Race.Invariant.{front, ahead, Relies, Holding, Follows, Inv}
use go_ipc.Ring.Race.Moves.{Apart-update}
use go_ipc.Prelude.{append-nil}
use go_ipc.Ring.Steps.{tail-at_end}
use go_ipc.Ring.Race.Moves.{Relies-grow, update-all}
use go_ipc.Ring.Race.Sits.{Sits-append, Bounds-append}
use go_ipc.Ring.Race.Producing.{Next, relied, after}

-- A record lies before the tail.
Sits-below :
    {r : Ring} {xs : List Record} (c : ℕ) (x : Record)
    → IsRing r xs
    → Sits r.head xs c x
    → c < r.tail
Sits-below {r} {xs} c x v s =
    let (ys, zs, e, k) = Sits-split r.head c xs x s in
    let at = place ys x zs (subst (λ (l : List Record). IsRing r l) e v) in
    omega (arith, at.below, k, Holds-span _ _ x at.holds)

-- Records from `tail` on have the owner `i`.
abbrev owner_from : ℕ → ℕ → (ℕ → ℕ) → ℕ → ℕ
owner_from tail i owner c = if ltb c tail then owner c else i

module _ {w : World} {xs : List Record} {owner : ℕ → ℕ} (inv : Inv w xs owner) (i : ℕ)
    (zs : List Record) (t : ℕ) (q : Phase) where
  abbrev grown : Ring
  grown = record w.ring { tail = t }

  -- Records without a message are put behind the others.
  pub extends :
      w.ring.tail ≤ t
      → stamped w.ring.tail zs ≡ []
      → IsRing (ahead grown (front w)) (xs ++ zs)
      → Relies grown q
      → ((c : ℕ) (x : Record)
          → Holding w.ring.capacity q c x
          → Sits (front w) (xs ++ zs) c x × (w.ring.tail ≤ c))
      → Inv (after w i grown q []) (xs ++ zs) (owner_from w.ring.tail i owner)
  extends le quiet v relies own = record {
    ring = v;
    apart = record {
      relies =
          update-all (λ j s. Relies grown s) w.phases i q relies
            (λ j k.
              Relies-grow w.ring grown refl le (omega arith) (w.phases j) (inv.apart.relies j));
      sits =
          update-all
            (λ j s.
              (c : ℕ) (x : Record) → Holding w.ring.capacity s c x → Sits (front w) (xs ++ zs) c x)
            w.phases i q (λ c x o. (own c x o).0)
            (λ j k c x o. Sits-append (front w) c xs zs x (inv.apart.sits j c x o));
      owned =
          update-all
            (λ j s.
              (c : ℕ) (x : Record)
              → Holding w.ring.capacity s c x
              → owner_from w.ring.tail i owner c ≡ j)
            w.phases i q (λ c x o. new c (own c x o).1)
            (λ j k c x o.
              old c (Sits-below c x inv.ring (inv.apart.sits j c x o)) ∙ inv.apart.owned j c x o);
    };
    cached = inv.cached;
    follows = follows w.reader inv.follows;
    kept = rw (same) inv.kept;
    limited = inv.limited;
    ordered = inv.ordered;
  }
    where
      new : (c : ℕ) → w.ring.tail ≤ c → owner_from w.ring.tail i owner c ≡ i
      new c h = ground arith

      old : (c : ℕ) → c < w.ring.tail → owner_from w.ring.tail i owner c ≡ owner c
      old c h = ground arith

      same : stamped (front w) (xs ++ zs) ≡ stamped (front w) xs
      same =
          stamped-append (front w) xs zs
          ∙ ap (λ (c : ℕ). stamped (front w) xs ++ stamped c zs) (tail-at_end inv.ring)
          ∙ ap (λ (l : List Stamped). stamped (front w) xs ++ l) quiet
          ∙ append-nil _

      follows : (rd : Reader) → Follows w.ring xs rd → Follows grown (xs ++ zs) rd
      follows resting f = f
      follows (reading limit available consumed count) f =
          Bounds-append (w.ring.head + consumed) (w.ring.head + available) xs zs f
      follows broken f = f

-- The store of a head that the producer loaded before; the reader's own is not behind it.
pub caches-Inv :
    {w : World} {xs : List Record} {owner : ℕ → ℕ} (inv : Inv w xs owner) (i : ℕ) (m : Msg)
    (tail head : ℕ) (e : w.phases i ≡ caching m tail head)
    → Next inv i e (record w.ring { head_cache = head }) (roomy m tail) []
caches-Inv {w} {xs} {owner} inv i m tail head e =
    let (sound, le, behind, fit) = relied inv i e in
    let r' = record w.ring { head_cache = head } in
    let v = inv.ring in
    let a =
      Apart-update inv.apart i (roomy m tail) (sound, le, omega arith) (λ c x o. elim o [ ]) in
    (
      xs,
      owner,
      record {
        ring = record {
          large = v.large;
          whole = v.whole;
          small = v.small;
          head_aligned = v.head_aligned;
          chain = v.chain;
          room = v.room;
          cached = omega (arith, behind);
          fits = v.fits;
          clean = v.clean;
        };
        apart = record {
          relies = λ j.
              Relies-grow w.ring r' refl (omega arith) (omega arith)
                (update w.phases i (roomy m tail) j) (a.relies j);
          sits = a.sits;
          owned = a.owned;
        };
        cached = behind;
        follows = follows w.reader inv.follows;
        kept = inv.kept;
        limited = inv.limited;
        ordered = inv.ordered;
      },
    )
  where
    follows :
        (rd : Reader) → Follows w.ring xs rd → Follows (record w.ring { head_cache = head }) xs rd
    follows resting f = f
    follows (reading limit available consumed count) f = f
    follows broken f = f
