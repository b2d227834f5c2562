-- ===== src/Ring/Race/Kept.antt =====
-- Every step of a producer, and every step of the reader, keeps the invariant.
use go_ipc.Prelude.{
  ℕ, ◌+◌, ◌%◌, ◌^◌, ◌≤◌, ◌<◌, ◌≡◌, false, length, ltb, leb, ◌==◌, ◌||◌, List, [], sym, subst, arith,
  if◌then◌else◌,
}
use go_ipc.Ring.{Ring, type_padding, max_message_size}
use go_ipc.Ring.Bounds.{has_room_iff, max_message_size-le}
use go_ipc.Ring.Reader.{Msg}
use go_ipc.Ring.Records.{Record}
use go_ipc.Ring.Race.{
  Phase, idle, wants, loaded, short, caching, roomy, crossed, taken, Stamped, World, need_of,
  crosses, Move, asks, loads, sees_room, misses, overtaken, reloads, gives_up, caches, swaps, loses,
  pads, heads, fills, commits, aborts, drops,
}
use go_ipc.Ring.Race.Invariant.{IsSound, Relies, Holding, Inv}
use go_ipc.Words.{u64_add}
use go_ipc.Ring.Race.Producing.{relied, after, stays}
use go_ipc.Ring.Race.Writing.{heads-Inv, fills-Inv, commits-Inv, aborts-Inv, drops-Inv, pads-Inv}
use go_ipc.Ring.Race.Claiming.{caches-Inv}
use go_ipc.Ring.Race.Swapping.{swaps-now}

module _ {w : World} {xs : List Record} {owner : ℕ → ℕ} (inv : Inv w xs owner) (i : ℕ) where
  quiet :
      (q : Phase)
      → Relies w.ring q
      → ((c : ℕ) (x : Record) → Holding w.ring.capacity q c x → ⊥)
      → (ys : List Record) × (o : ℕ → ℕ) × Inv (after w i w.ring q []) ys o
  quiet q r nothing = (xs, owner, stays inv i q r nothing)

  -- What `tryClaim` lets pass on a ring of this size.
  sound :
      (m : Msg)
      → m.0 < 2 ^ 32
      → (m.0 == type_padding) ≡ false
      → (leb (2 ^ 63) (length m.1) || ltb (max_message_size w.ring) (length m.1)) ≡ false
      → IsSound m
  sound m t k l =
      let (a, b) = max_message_size-le w.ring inv.ring.large in
      let le : length m.1 ≤ max_message_size w.ring = ground (arith, l) in
      (omega (arith, a, le, inv.limited, inv.ring.whole), ground (arith, t, k))

  -- A load of the tail, and what `hasRoom` says of it.
  short_of : w.ring.tail < 2 ^ 64
  short_of = inv.ring.fits

  swaps-Inv :
      (m : Msg) (tail : ℕ)
      → w.phases i ≡ roomy m tail
      → w.ring.tail ≡ tail
      → tail + need_of w.ring.capacity tail m < 2 ^ 64
      → (ys : List Record) × (o : ℕ → ℕ) × Inv
          (after w i
            (record w.ring { tail = u64_add tail (need_of w.ring.capacity tail m) })
            (if crosses w.ring.capacity tail m
              then crossed m tail
              else taken m tail (tail % w.ring.capacity))
            [])
          ys
          o
  swaps-Inv m tail e here nowrap =
      let (sound, le, fit) = relied inv i e in
      let goal = λ (t : ℕ).
        (ys : List Record) × (o : ℕ → ℕ) × Inv
          (after w i (record w.ring { tail = u64_add t (need_of w.ring.capacity t m) })
            (if crosses w.ring.capacity t m then crossed m t else taken m t (t % w.ring.capacity))
            [])
          ys o in
      let fit' =
        subst (λ (t : ℕ). t + need_of w.ring.capacity t m ≤ w.ring.head + w.ring.capacity)
          (sym here) fit in
      let nowrap' = subst (λ (t : ℕ). t + need_of w.ring.capacity t m < 2 ^ 64) (sym here) nowrap in
      let done : goal w.ring.tail = swaps-now inv i m sound fit' nowrap' in subst goal here done

  pub Move-Inv :
      {p : Phase} {r : Ring} {q : Phase} {out : List Stamped}
      → w.phases i ≡ p
      → Move w.ring p r q out
      → (ys : List Record) × (o : ℕ → ℕ) × Inv (after w i r q out) ys o
  Move-Inv e (asks {m} t k l) = quiet (wants m) (sound m t k l) (λ c x o. o)
  Move-Inv e (loads {m}) = quiet (loaded m w.ring.tail) (relied inv i e, omega arith) (λ c x o. o)
  Move-Inv e (sees_room {m} {tail} k) =
      let (s, t) = relied inv i e in
      let room =
        (has_room_iff tail w.ring.head_cache w.ring.capacity (need_of w.ring.capacity tail m)
            (omega (arith, short_of))).0
          k in
      quiet (roomy m tail) (s, t, omega (arith, room, inv.cached)) (λ c x o. o)
  Move-Inv e (misses {m} {tail} k) = quiet (short m tail) (relied inv i e) (λ c x o. o)
  Move-Inv e (overtaken {m} {tail} k) = quiet (wants m) (relied inv i e).0 (λ c x o. o)
  Move-Inv e (reloads {m} {tail} k) =
      let (s, t) = relied inv i e in
      let room =
        (has_room_iff tail w.ring.head w.ring.capacity (need_of w.ring.capacity tail m)
            (omega (arith, short_of))).0
          k in
      quiet (caching m tail w.ring.head) (s, t, omega arith, room.1) (λ c x o. o)
  Move-Inv e (gives_up k l) = quiet idle tt (λ c x o. o)
  Move-Inv e (caches {m} {tail} {head}) = caches-Inv inv i m tail head e
  Move-Inv e (swaps {m} {tail} k l) = swaps-Inv m tail e (ground arith) l
  Move-Inv e (loses {m} {tail} k) = quiet (wants m) (relied inv i e).0 (λ c x o. o)
  Move-Inv e (pads {m} {tail}) = pads-Inv inv i m tail e
  Move-Inv e (heads {m} {at} {index}) = heads-Inv inv i m at index e
  Move-Inv e (fills {m} {at} {index}) = fills-Inv inv i m at index e
  Move-Inv e (commits {m} {at} {index}) = commits-Inv inv i m at index e
  Move-Inv e (aborts {m} {at} {index}) = aborts-Inv inv i m at index e
  Move-Inv e (drops {m} {at} {index}) = drops-Inv inv i m at index e
