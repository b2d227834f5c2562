-- ===== src/Ring/Publish.antt =====
-- `TryClaim` and `TryWrite` as a whole: the checks, the claim, the copy and the commit.
use go_ipc.Prelude.{
  ℕ, ◌+◌, ◌/◌, ◌^◌, ◌≤◌, ◌<◌, ◌≡◌, Bool-cases, inl, inr, false, Option, none, some, List, [], ◌∷◌,
  ◌++◌, refl, ◌∙◌, arith, length, ltb, leb, ◌==◌, ◌||◌, ltb→lt,
}
use go_ipc.Words.{i32_of}
use go_ipc.Errors.{ok, err, full}
use go_ipc.Ring.{Ring, Claim, type_padding, release, max_message_size}
use go_ipc.Ring.Producer.{claim_loop, try_claim, try_write, fill, commit}
use go_ipc.Ring.Bounds.{round8, align-round8, max_message_size-le}
use go_ipc.Ring.Records.{Record, message, IsRing}
use go_ipc.Ring.Steps.{index_after, commit_lem, fill_lem, payload-fill}
use go_ipc.Ring.Claims.{to_end, need, pads, IsClaimed, to_end-mod}
use go_ipc.Ring.Claims.Passes.{Fits, claim_pass-Claims, claim_pass-full}

-- What `tryClaim` accepts: a type that is not the padding type, and a length that `MaxMessageSize`
-- allows and for which `align` does not overflow.
pub record IsValidClaim (r : Ring) (typ len : ℕ) : Type 0 where
  pub typed : typ < type_padding
  pub sized : len ≤ max_message_size r
  pub aligns : len + 15 < 2 ^ 31

module _ {r : Ring} {xs : List Record} (v : IsRing r xs) (slot : Option ℕ) (typ len : ℕ)
    (w : IsValidClaim r typ len) where
  one_pass : try_claim slot typ len r ≡ claim_loop slot typ (8 + len) 1 (round8 (8 + len)) r
  unfolding try_claim
  one_pass =
      let (a, b) = max_message_size-le r v.large in
      let e : i32_of (8 + len) ≡ 8 + len = omega (arith, w.aligns) in
      let t : (typ == type_padding) ≡ false = ground (arith, w.typed) in
      let l : (leb (2 ^ 63) len || ltb (max_message_size r) len) ≡ false =
        ground (arith, w.aligns, w.sized) in
      rw (t, l, e, align-round8 (8 + len) (omega (arith, w.aligns)))

  -- With room, the claim is returned and the ring holds it behind the old records.
  pub try_claim-room :
      Fits r (8 + len)
      → (ring : Ring) × (c : Claim) × (try_claim slot typ len r ≡ some (ring, ok c))
        × IsClaimed r xs slot typ (8 + len) ring c
  unfolding claim_loop
  try_claim-room f =
      let c =
        claim_pass-Claims typ (8 + len) (omega arith) (omega (arith, w.aligns)) w.typed slot v f in
      (c.ring, c.claim, one_pass ∙ rw (c.returned, claim_loop), c.claimed_there)

  -- Without room, `TryClaim` gives `ErrFull`, and its slot claims nothing.
  pub try_claim-full :
      r.head + r.capacity < r.tail + need r (8 + len)
      → try_claim slot typ len r ≡ some (release slot r, err full)
  unfolding claim_loop
  try_claim-full f =
      one_pass
      ∙ rw (
        claim_pass-full typ (8 + len) (omega arith) (omega (arith, w.aligns)) w.typed slot v f,
        claim_loop,
      )

-- A claim of any allowed size, with its padding, fits an empty ring.
pub empty-Fits :
    {r : Ring} {typ len : ℕ}
    → IsRing r []
    → IsValidClaim r typ len
    → r.tail + r.capacity < 2 ^ 64
    → Fits r (8 + len)
empty-Fits {r} {typ} {len} v w nowrap = record {
  room = omega (arith, bound);
  no_wrap = omega (arith, bound);
}
  where
    half : 8 + len ≤ r.capacity / 2
    half = omega (arith, max_message_size-le r v.large, w.sized)

    bound : need r (8 + len) ≤ r.capacity
    bound = elim (Bool-cases (ltb (to_end r) (round8 (8 + len)))) [
      | inl cross ↦ rw cross (omega (arith, half, v.whole, to_end-mod v, ltb→lt _ _ cross))
      | inr fits ↦ rw fits (omega (arith, half, v.whole))
    ]

commit-cursors :
    (slot : Option ℕ) (i t : ℕ) (r : Ring)
    → let r' = commit (record { index = i; total = t; slot = slot }) r in
      (r'.head ≡ r.head) × (r'.capacity ≡ r.capacity) × (r'.tail ≡ r.tail)
unfolding commit
commit-cursors none i t r = (refl, refl, refl)
commit-cursors (some s) i t r = (refl, refl, refl)

-- `TryWrite`, of a type that is not the reserved one and a length of at most `MaxMessageSize` and below
-- 2 ^ 31 - 15, on a well-formed ring where the need is free and the tail stays below 2 ^ 64: it returns no
-- error, and the message lies whole behind the old records and the padding of the wrap point.
pub try_write-room :
    {r : Ring} {xs : List Record} (slot : Option ℕ) (typ : ℕ) (payload : List ℕ)
    → IsRing r xs
    → IsValidClaim r typ (length payload)
    → Fits r (8 + length payload)
    → (ring : Ring) × (try_write slot typ payload r ≡ some (ring, none))
      × IsRing ring ((xs ++ pads r (8 + length payload)) ++ message typ payload ∷ [])
      × (ring.head ≡ r.head)
      × (ring.capacity ≡ r.capacity)
      × (ring.tail ≡ r.tail + need r (8 + length payload))
unfolding try_write fill
try_write-room {r} {xs} slot typ payload v w f =
    let n = 8 + length payload in
    let before = xs ++ pads r n in
    let (r1, c, e, found) = try_claim-room v slot typ (length payload) w f in
    let (v1, at, hd, cp, tl) = found in
    let c' : Claim = record { index = index_after r1 before; total = n; slot = slot } in
    let r2 = fill c' payload r1 in
    let v2 = fill_lem before [] n typ v1 slot payload refl in
    let v3 = commit_lem before [] n typ v2 slot in
    let (hd', cp', tl') = commit-cursors slot (index_after r1 before) n r2 in
    (
      commit c' r2,
      rw (e, try_write, at),
      rw (payload-fill before [] n typ v1 slot payload refl) at v3,
      hd' ∙ hd,
      cp' ∙ cp,
      tl' ∙ tl,
    )
