-- ===== src/Ring/Filling.antt =====
-- A claim whose payload is written, and its commit and abort; and one record that the reader passes.
use go_ipc.Prelude.{
  ℕ, ◌+◌, ◌-◌, ◌%◌, ◌≡◌, Option, List, ◌∷◌, ◌++◌, refl, ◌∙◌, ap, subst, arith, length,
}
use go_ipc.Memory.{slice}
use go_ipc.Memory.Laws.{tape}
use go_ipc.Ring.{Ring}
use go_ipc.Ring.Producer.{commit, abort, fill}
use go_ipc.Ring.Records.{Record, claimed, filled, message, padding, span, IsRing}
use go_ipc.Ring.Replace.{at_end, place, IsRing-replace}
use go_ipc.Ring.Steps.{index_after, payload_at, commit_lem, abort_lem, fill_lem, payload-fill}
use go_ipc.Ring.Consume.{clear_record}
use go_ipc.Ring.Reading.{consume}
use go_ipc.Ring.Reading.Whole.{started, finished}

module _ {r : Ring} (xs ys : List Record) (typ : ℕ) (p : List ℕ) where
  -- The bytes of a claim, once they are those of the payload.
  settle :
      IsRing r (xs ++ claimed (8 + length p) typ ∷ ys)
      → payload_at r xs (8 + length p) ≡ p
      → IsRing r (xs ++ filled typ p ∷ ys)
  settle v e =
      let at = place xs (claimed (8 + length p) typ) ys v in
      let (l, t, h8, hl, np) = at.holds in
      let w = tape r.capacity r.bytes in
      IsRing-replace xs ys (claimed (8 + length p) typ) (filled typ p) r.bytes v refl
        (λ d h k o. refl)
        (
          l,
          t,
          ap (slice w (at_end r.head xs + 8))
                (let n : length p ≡ 8 + length p - 8 = omega arith in n)
              ∙ e,
          hl,
          np,
        )

  unsettle :
      IsRing r (xs ++ filled typ p ∷ ys)
      → IsRing r (xs ++ claimed (8 + length p) typ ∷ ys) × (payload_at r xs (8 + length p) ≡ p)
  unsettle v =
      let at = place xs (filled typ p) ys v in
      let (l, t, s, hl, np) = at.holds in
      let w = tape r.capacity r.bytes in
      (
        IsRing-replace xs ys (filled typ p) (claimed (8 + length p) typ) r.bytes v refl
            (λ d h k o. refl) (l, t, omega arith, hl, np),
        ap (slice w (at_end r.head xs + 8)) (let n : 8 + length p - 8 ≡ length p = omega arith in n)
            ∙ s,
      )

  -- `Commit` publishes the payload.
  pub commit-filled :
      (slot : Option ℕ)
      → IsRing r (xs ++ filled typ p ∷ ys)
      → IsRing
          (commit (record { index = index_after r xs; total = 8 + length p; slot = slot }) r)
          (xs ++ message typ p ∷ ys)
  commit-filled slot v =
      let (c, e) = unsettle v in
      subst
        (λ q.
          IsRing (commit (record { index = index_after r xs; total = 8 + length p; slot = slot }) r)
            (xs ++ message typ q ∷ ys))
        e (commit_lem xs ys (8 + length p) typ c slot)

  pub abort-filled :
      (slot : Option ℕ)
      → IsRing r (xs ++ filled typ p ∷ ys)
      → IsRing
          (abort (record { index = index_after r xs; total = 8 + length p; slot = slot }) r)
          (xs ++ padding (8 + length p) ∷ ys)
  abort-filled slot v = abort_lem xs ys (8 + length p) typ (unsettle v).0 slot

-- The bytes that the owner copies in are the payload.
pub filled_lem :
    {r : Ring} (xs ys : List Record) (typ : ℕ) (p : List ℕ) (slot : Option ℕ)
    → IsRing r (xs ++ claimed (8 + length p) typ ∷ ys)
    → IsRing
        (fill (record { index = index_after r xs; total = 8 + length p; slot = slot }) p r)
        (xs ++ filled typ p ∷ ys)
unfolding fill
filled_lem {r} xs ys typ p slot v =
    settle xs ys typ p (fill_lem xs ys (8 + length p) typ v slot p refl)
      (payload-fill xs ys (8 + length p) typ v slot p refl)

-- The reader passes the first record: it clears it.
pub IsRing-pass :
    {r : Ring} {x : Record} {xs : List Record}
    → IsRing r (x ∷ xs)
    → IsRing
        (record r {
          head = r.head + span x;
          bytes = clear_record r.bytes (r.head % r.capacity) (span x);
        })
        xs
IsRing-pass {r} {x} {xs} v =
    let s = consume 0 r.capacity r.head r.tail v.large v.room v.fits r.bytes 0 x xs (started v) in
    let e : r.head + 0 ≡ r.head = omega arith in
    let e2 : 0 + span x ≡ span x = omega arith in rw (e, e2) at (finished v s)
