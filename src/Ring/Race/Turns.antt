-- ===== src/Ring/Race/Turns.antt =====
-- A round of the loop of the reader, over a record that is committed.
use go_ipc.Prelude.{
  ℕ, ◌+◌, ◌-◌, ◌%◌, ◌≤◌, ◌<◌, ◌≡◌, inl, inr, true, false, List, [], ◌∷◌, ◌++◌, append_assoc, refl,
  sym, ◌∙◌, ap, arith, length,
}
use go_ipc.Memory.{Bytes}
use go_ipc.Ring.{Ring}
use go_ipc.Ring.Records.{Record, blank, claimed, filled, message, padding, span, IsRing, Holds-span}
use go_ipc.Ring.Race.{
  Phase, idle, wants, loaded, short, caching, roomy, crossed, taken, owns, written, Reader, reading,
  Stamped, World,
}
use go_ipc.Ring.Race.Sits.{Bounds, stamp, stamped}
use go_ipc.Ring.Race.Invariant.{ahead, Holding, Inv}
use mathlib.Core.List.{Perm}
use go_ipc.Words.{u64_add, i32_not_positive}
use go_ipc.Memory.{load32, slice}
use go_ipc.Memory.Laws.{tape, tape-load32, tape-slice, mod-within}
use go_ipc.Ring.{align, load_type}
use go_ipc.Ring.Bounds.{align-round8}
use go_ipc.Ring.Records.{Holds}
use go_ipc.Ring.Recovery.Reclaim.{is_open, sign, len_at}
use go_ipc.Ring.Consume.{clear_record}
use go_ipc.Ring.Filling.{IsRing-pass}
use go_ipc.Ring.Claims.{head-le-tail}
use go_ipc.Ring.Race.{index_at, length_at, is_corrupt, overruns, cleared_at}
use go_ipc.Ring.Race.Invariant.{Ordered}
use go_ipc.Ring.Race.Sits.{Sits-pass, Bounds-pass, Bounds-le}
use go_ipc.Ring.Race.Moves.{Relies-grow, perm_insert}
use mathlib.Core.List.Perm

-- What the loads of the reader see of the first record of a ring, when it is a message or padding.
module _ {r : Ring} {x : Record} {xs : List Record} (v : IsRing r (x ∷ xs)) where
  abbrev w : Bytes
  w = tape r.capacity r.bytes

  holds : Holds w r.head x
  holds = v.chain.0

  pub typ_at : load_type r.bytes (r.head % r.capacity) ≡ load32 w (r.head + 4)
  typ_at =
      let inside = v.chain.1 in
      let big = (Holds-span (tape r.capacity r.bytes) r.head x v.chain.0).0 in
      let e = mod-within r.capacity r.head 4 (omega (arith, big, inside)) in
      rw (← e) (tape-load32 r.capacity r.bytes (r.head + 4) (omega (arith, e, big, inside)))

sized :
    (w : Bytes) (c : ℕ) (x : Record)
    → Holds w c x
    → is_open x ≡ false
    → (align (load32 w c) ≡ span x) × (8 ≤ load32 w c)
sized w c (blank size) h e = cc
sized w c (claimed len typ) h e = cc
sized w c (filled typ payload) h e = cc
sized w c (message typ payload) h e = rw h.0 (align-round8 (8 + length payload) h.3, omega arith)
sized w c (padding len) h e = rw h.0 (align-round8 len h.3, h.2)

-- What a reader of the record would pass on.
module _ {r : Ring} {typ : ℕ} {payload : List ℕ} {xs : List Record}
    (v : IsRing r (message typ payload ∷ xs)) where
  pub body_at :
      slice r.bytes (r.head % r.capacity + 8) (load32 r.bytes (r.head % r.capacity) - 8) ≡ payload
  body_at =
      let h = v.chain.0 in
      let n : load32 r.bytes (r.head % r.capacity) - 8 ≡ length payload =
        omega (arith, len_at (message typ payload) xs v, h.0) in
      rw n
        (tape-slice r.capacity r.bytes r.head 8 (length payload) (omega (arith, v.chain.1)) ∙ h.2)

Holding-open : (cap : ℕ) (p : Phase) (c : ℕ) (x : Record) → Holding cap p c x → is_open x ≡ true
Holding-open cap idle c x o = elim o [ ]
Holding-open cap (wants m) c x o = elim o [ ]
Holding-open cap (loaded m tail) c x o = elim o [ ]
Holding-open cap (short m tail) c x o = elim o [ ]
Holding-open cap (caching m tail head) c x o = elim o [ ]
Holding-open cap (roomy m tail) c x o = elim o [ ]
Holding-open cap (crossed m tail) c x (inl o) = ap is_open o.1
Holding-open cap (crossed m tail) c x (inr o) = ap is_open o.1
Holding-open cap (taken m at index) c x o = ap is_open o.1
Holding-open cap (owns m at index) c x o = ap is_open o.1
Holding-open cap (written m at index) c x o = ap is_open o.1

Ordered-le : (h k : ℕ) (out : List Stamped) → h ≤ k → Ordered h out → Ordered k out
Ordered-le h k [] le o = o
Ordered-le h k (s ∷ out) le o = (omega (arith, o.0), o.1)

Ordered-stamp :
    (h : ℕ) (x : Record) (out : List Stamped)
    → 0 < span x
    → Ordered h out
    → Ordered (h + span x) (stamp h x ++ out)
Ordered-stamp h (blank size) out b o = Ordered-le h _ out (omega arith) o
Ordered-stamp h (claimed len typ) out b o = Ordered-le h _ out (omega arith) o
Ordered-stamp h (filled typ payload) out b o = Ordered-le h _ out (omega arith) o
Ordered-stamp h (message typ payload) out b o = (omega arith, o)
Ordered-stamp h (padding len) out b o = Ordered-le h _ out (omega arith) o

abbrev pub world : Ring → (ℕ → Phase) → Reader → List Stamped → List Stamped → World
world r phases rd sent delivered = record {
  ring = r;
  phases = phases;
  reader = rd;
  sent = sent;
  delivered = delivered;
}

-- A loop that passes records, over the ring as the reader sees it.
module _ {r : Ring} {phases : ℕ → Phase} {limit available k count : ℕ}
    {sent delivered : List Stamped} {x : Record} {xs : List Record} {owner : ℕ → ℕ}
    (inv : Inv (world r phases (reading limit available k count) sent delivered) (x ∷ xs) owner)
    (more : k < available) where
  v : IsRing (ahead r (r.head + k)) (x ∷ xs)
  v = inv.ring

  pub cursor : index_at r k ≡ (r.head + k) % r.capacity
  cursor =
      let end = head-le-tail inv.ring in
      ap (λ (c : ℕ). c % r.capacity)
        (let e : u64_add r.head k ≡ r.head + k = omega (arith, end, inv.ring.fits) in e)

  behind : Bounds (r.head + k + span x) xs (r.head + available)
  behind = Bounds-pass (r.head + k) (r.head + available) x xs (omega arith) inv.follows

  seen : i32_not_positive (length_at r k) ≡ is_open x
  unfolding v
  seen = rw cursor (sign x xs v)

  pub shuts : i32_not_positive (length_at r k) ≡ false → is_open x ≡ false
  shuts e = sym seen ∙ e

  fits : is_open x ≡ false → (align (length_at r k) ≡ span x) × (8 ≤ length_at r k)
  unfolding v
  fits e = rw (cursor, len_at x xs v) (sized _ _ x v.chain.0 e)

  -- The checks for a corrupt ring pass.
  pub intact : is_open x ≡ false → is_corrupt r available k ≡ false
  unfolding v
  intact e =
      let (a, b) = fits e in
      let c = Bounds-le _ _ xs behind in
      let d = v.chain.1 in
      let b' : 8 ≤ load32 r.bytes ((r.head + k) % r.capacity) = rw cursor at b in
      let s = v.small in rw (a, cursor) (ground arith)

  pub within : is_open x ≡ false → overruns r k ≡ false
  unfolding v
  within e =
      let (a, b) = fits e in let d = v.chain.1 in let s = v.small in rw (a, cursor) (ground arith)

  -- The record is passed, and cleared.
  pub passes :
      (count' : ℕ)
      → is_open x ≡ false
      → Inv
          (world
            (cleared_at r k)
            phases
            (reading limit available (k + align (length_at r k)) count')
            sent
            (stamp (r.head + k) x ++ delivered))
          xs
          owner
  unfolding v
  passes count' shut =
      let h = r.head + k in
      let (a, big) = fits shut in
      let (s8, _) = Holds-span _ _ x v.chain.0 in
      let e : r.head + (k + span x) ≡ h + span x = omega arith in
      rw (a, cursor)
        record {
          ring = rw e (IsRing-pass v);
          apart = record {
            relies = λ j.
                Relies-grow r (record r { bytes = clear_record r.bytes (h % r.capacity) (span x) })
                  refl (omega arith) (omega arith) (phases j) (inv.apart.relies j);
            sits = λ j c z o. rw e (
                Sits-pass h c x xs z shut (Holding-open r.capacity (phases j) c z o)
                  (inv.apart.sits j c z o));
            owned = inv.apart.owned;
          };
          cached = inv.cached;
          follows = rw e behind;
          kept = rw e (perm_pass delivered (stamp h x) (stamped (h + span x) xs) sent inv.kept);
          limited = inv.limited;
          ordered = rw e (Ordered-stamp h x delivered (omega arith) inv.ordered);
        }
    where
      perm_pass : (d n b s : List Stamped) → Perm (d ++ (n ++ b)) s → Perm ((n ++ d) ++ b) s
      perm_pass d n b s q =
          rw (append_assoc n d b) (Perm.trans (Perm.symm (perm_insert d [] n b)) q)
