-- ===== src/Ring/Race/Reads.antt =====
-- Every step of the reader keeps the invariant, and none finds a corrupt ring.
use go_ipc.Prelude.{
  ℕ, ◌+◌, ◌<◌, ◌≡◌, inl, inr, true, false, Bool-cases, List, [], ◌∷◌, ◌++◌, refl, sym, ◌∙◌, subst,
  arith, if◌then◌else◌, ltb, ltb→lt, ◌==◌, ==_iff,
}
use go_ipc.Ring.{Ring, type_padding}
use go_ipc.Ring.Records.{Record, blank, claimed, filled, message, padding}
use go_ipc.Ring.Race.{Phase, Reader, resting, reading, Stamped}
use go_ipc.Ring.Race.Sits.{Bounds}
use go_ipc.Ring.Race.Invariant.{Inv}
use go_ipc.Words.{u64_add, u64_sub}
use go_ipc.Ring.{align}
use go_ipc.Ring.Recovery.Reclaim.{is_open}
use go_ipc.Ring.Steps.{tail-at_end}
use go_ipc.Ring.Claims.{head-le-tail}
use go_ipc.Ring.Race.{
  length_at, message_at, cleared_at, Turn, starts, takes, skips, breaks, panics, returns,
}
use go_ipc.Ring.Race.Sits.{Bounds-end}
use go_ipc.Ring.Race.Moves.{Relies-grow}
use go_ipc.Ring.Race.Turns.{typ_at, body_at, world, cursor, shuts, intact, within, passes}

module _ {r : Ring} {phases : ℕ → Phase} {sent delivered : List Stamped} {xs : List Record}
    {owner : ℕ → ℕ} where
  starts-Inv :
      (limit : ℕ)
      → Inv (world r phases resting sent delivered) xs owner
      → Inv (world r phases (reading limit (u64_sub r.tail r.head) 0 0) sent delivered) xs owner
  starts-Inv limit inv = record {
    ring = inv.ring;
    apart = inv.apart;
    cached = inv.cached;
    follows =
        subst (λ (c : ℕ). Bounds (r.head + 0) xs c)
          (tail-at_end inv.ring
            ∙ (let le = head-le-tail inv.ring in omega (arith, le, inv.ring.fits)))
          (Bounds-end (r.head + 0) xs);
    kept = inv.kept;
    limited = inv.limited;
    ordered = inv.ordered;
  }

  module _ (limit available k count : ℕ)
      (inv : Inv (world r phases (reading limit available k count) sent delivered) xs owner) where
    head' : ℕ
    head' = if ltb 0 k then u64_add r.head k else r.head

    moved : head' ≡ r.head + k
    unfolding head'
    moved =
        let le = head-le-tail inv.ring in
        elim (Bool-cases (ltb 0 k)) [
          | inl e ↦ rw e (omega (arith, le, inv.ring.fits))
          | inr e ↦ rw e (ground arith)
        ]

    returns-Inv :
        Inv
          (world
            (record r { head = if ltb 0 k then u64_add r.head k else r.head })
            phases
            resting
            sent
            delivered)
          xs
          owner
    unfolding head'
    returns-Inv =
        let e : head' + 0 ≡ r.head + k = omega (arith, moved) in
        let r' = record r { head = head' } in
        record {
          ring = rw e inv.ring;
          apart = record {
            relies = λ j.
                Relies-grow r r' refl (omega arith) (omega (arith, moved)) (phases j)
                  (inv.apart.relies j);
            sits = rw e inv.apart.sits;
            owned = inv.apart.owned;
          };
          cached = omega (arith, moved, inv.cached);
          follows = tt;
          kept = rw e inv.kept;
          limited = inv.limited;
          ordered = rw e inv.ordered;
        }

  module _ {limit available k count : ℕ} where
    -- Below what the loop may read there is a record.
    some_record :
        Inv (world r phases (reading limit available k count) sent delivered) xs owner
        → k < available
        → (x : Record) × (ys : List Record) × Inv
            (world r phases (reading limit available k count) sent delivered)
            (x ∷ ys)
            owner
    some_record inv more = pick xs inv
      where
        pick :
            (zs : List Record)
            → Inv (world r phases (reading limit available k count) sent delivered) zs owner
            → (x : Record) × (ys : List Record) × Inv
                (world r phases (reading limit available k count) sent delivered)
                (x ∷ ys)
                owner
        pick [] inv' = absurd (omega (arith, inv'.follows, more))
        pick (x ∷ ys) inv' = (x, ys, inv')

-- A record that is committed, by its type.
takes-Inv :
    {r : Ring} {phases : ℕ → Phase} {limit available k count : ℕ} {sent delivered : List Stamped}
    (x : Record) {xs : List Record} {owner : ℕ → ℕ}
    (inv : Inv (world r phases (reading limit available k count) sent delivered) (x ∷ xs) owner)
    → k < available
    → is_open x ≡ false
    → ((message_at r k).0 == type_padding) ≡ false
    → Inv
        (world
          (cleared_at r k)
          phases
          (reading limit available (k + align (length_at r k)) (count + 1))
          sent
          ((r.head + k, message_at r k) ∷ delivered))
        xs
        owner
takes-Inv (blank size) inv more shut typed = cc
takes-Inv (claimed len typ) inv more shut typed = cc
takes-Inv (filled typ payload) inv more shut typed = cc
takes-Inv {r} {k = k} {count = count} (message typ payload) inv more shut typed =
    let c = cursor inv more in
    let e : message_at r k ≡ (typ, payload) =
      rw (c, typ_at inv.ring ∙ inv.ring.chain.0.1, body_at inv.ring) in
    rw e (passes inv more (count + 1) shut)
takes-Inv {r} {k = k} (padding len) inv more shut typed =
    let c = cursor inv more in
    let e : (message_at r k).0 ≡ type_padding = rw c (typ_at inv.ring ∙ inv.ring.chain.0.1) in
    let t : ((message_at r k).0 == type_padding) ≡ true = (==_iff _ _).1 e in cc

skips-Inv :
    {r : Ring} {phases : ℕ → Phase} {limit available k count : ℕ} {sent delivered : List Stamped}
    (x : Record) {xs : List Record} {owner : ℕ → ℕ}
    (inv : Inv (world r phases (reading limit available k count) sent delivered) (x ∷ xs) owner)
    → k < available
    → is_open x ≡ false
    → ((message_at r k).0 == type_padding) ≡ true
    → Inv
        (world
          (cleared_at r k)
          phases
          (reading limit available (k + align (length_at r k)) count)
          sent
          delivered)
        xs
        owner
skips-Inv (blank size) inv more shut typed = cc
skips-Inv (claimed len typ) inv more shut typed = cc
skips-Inv (filled typ payload) inv more shut typed = cc
skips-Inv {r} {k = k} (message typ payload) inv more shut typed =
    let c = cursor inv more in
    let e : (message_at r k).0 ≡ typ = rw c (typ_at inv.ring ∙ inv.ring.chain.0.1) in
    absurd (inv.ring.chain.0.4 (sym e ∙ (==_iff _ _).0 typed))
skips-Inv {count = count} (padding len) inv more shut typed = passes inv more count shut

pub Turn-Inv :
    {r r' : Ring} {phases : ℕ → Phase} {rd rd' : Reader} {sent delivered out : List Stamped}
    {xs : List Record} {owner : ℕ → ℕ}
    → Inv (world r phases rd sent delivered) xs owner
    → Turn r rd r' rd' out
    → (ys : List Record) × Inv (world r' phases rd' sent (out ++ delivered)) ys owner
Turn-Inv {xs = xs} inv (starts {limit} k) = (xs, starts-Inv limit inv)
Turn-Inv inv (takes {limit} {available} {consumed} {count} a b c d o e) =
    let more = ltb→lt _ _ b in
    let (x, ys, inv') = some_record inv more in (ys, takes-Inv x inv' more (shuts inv' more c) e)
Turn-Inv inv (skips {limit} {available} {consumed} {count} a b c d o e) =
    let more = ltb→lt _ _ b in
    let (x, ys, inv') = some_record inv more in (ys, skips-Inv x inv' more (shuts inv' more c) e)
Turn-Inv inv (breaks {limit} {available} {consumed} {count} a b c d) =
    let more = ltb→lt _ _ b in
    let (x, ys, inv') = some_record inv more in let e = intact inv' more (shuts inv' more c) in cc
Turn-Inv inv (panics {limit} {available} {consumed} {count} a b c d o) =
    let more = ltb→lt _ _ b in
    let (x, ys, inv') = some_record inv more in let e = within inv' more (shuts inv' more c) in cc
Turn-Inv {xs = xs} inv (returns {limit} {available} {consumed} {count} a) =
    (xs, returns-Inv limit available consumed count inv)
