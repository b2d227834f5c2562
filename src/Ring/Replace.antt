-- ===== src/Ring/Replace.antt =====
-- Writes within one record, and within the free part: the records of a ring change only there.
use go_ipc.Prelude.{
  ℕ, ◌+◌, ◌%◌, ◌≤◌, ◌<◌, ◌≡◌, ◌⊎◌, inl, inr, List, [], ◌∷◌, ◌++◌, refl, ◌∙◌, arith,
}
use go_ipc.Memory.{Bytes}
use go_ipc.Memory.Laws.{tape}
use go_ipc.Ring.{Ring}
use go_ipc.Ring.Records.{
  Record, span, Holds, Chain, Chain-le, Chain-mod, Chain-Agree, Chain-append, Chain-split, IsRing,
}

-- Two tapes agree on the lap from `lo` on, but for `[c, c + n)`.
abbrev pub AgreeBut : ℕ → Bytes → Bytes → ℕ → ℕ → ℕ → Type 0
AgreeBut cap w w' lo c n = (d : ℕ) → lo ≤ d → d < lo + cap → (d < c) ⊎ (c + n ≤ d) → w' d ≡ w d

-- The cursor behind the records `xs`.
unfoldable pub at_end : ℕ → List Record → ℕ
at_end c [] = c
at_end c (x ∷ xs) = at_end (c + span x) xs

pub Chain-at_end :
    (cap : ℕ) (w : Bytes) (c e : ℕ) (xs : List Record) → Chain cap w c xs e → at_end c xs ≡ e
unfolding at_end
Chain-at_end cap w c e [] h = h
Chain-at_end cap w c e (x ∷ xs) h = Chain-at_end cap w (c + span x) e xs h.2

pub at_end-append : (c : ℕ) (xs ys : List Record) → at_end c (xs ++ ys) ≡ at_end (at_end c xs) ys
unfolding at_end
at_end-append c [] ys = refl
at_end-append c (x ∷ xs) ys = at_end-append (c + span x) xs ys

pub at_end-one : (c : ℕ) (x : Record) → at_end c (x ∷ []) ≡ c + span x
unfolding at_end
at_end-one c x = refl

-- Where the record `x` behind `xs` lies: at the end of `xs`, inside the lap, and not across the end.
pub record Place (r : Ring) (xs : List Record) (x : Record) (ys : List Record) : Type 0 where
  pub above : r.head ≤ at_end r.head xs
  pub below : at_end r.head xs + span x ≤ r.tail
  pub inside : at_end r.head xs % r.capacity + span x ≤ r.capacity
  pub aligned : at_end r.head xs % 8 ≡ 0
  pub before : Chain r.capacity (tape r.capacity r.bytes) r.head xs (at_end r.head xs)
  pub holds : Holds (tape r.capacity r.bytes) (at_end r.head xs) x
  pub after : Chain r.capacity (tape r.capacity r.bytes) (at_end r.head xs + span x) ys r.tail

pub place :
    {r : Ring} (xs : List Record) (x : Record) (ys : List Record)
    → IsRing r (xs ++ x ∷ ys)
    → Place r xs x ys
place {r} xs x ys v =
    let w = tape r.capacity r.bytes in
    let (d, p, q) = Chain-split r.capacity w r.head r.tail xs (x ∷ ys) v.chain in
    let e = Chain-at_end r.capacity w r.head d xs p in
    let end = Chain-le r.capacity w (d + span x) r.tail ys q.2 in
    record {
      above = omega (arith, Chain-le r.capacity w r.head d xs p);
      below = omega arith;
      inside = rw e q.1;
      aligned = rw e (Chain-mod r.capacity w r.head d xs p v.head_aligned);
      before = rw e p;
      holds = rw e q.0;
      after = rw e q.2;
    }

module _ {r : Ring} (xs ys : List Record) (x y : Record) (m : Bytes) where
  -- A write within the record `x` that leaves `y` there, of the same span, leaves all other records.
  pub IsRing-replace :
      IsRing r (xs ++ x ∷ ys)
      → span y ≡ span x
      → let c = at_end r.head xs in
        AgreeBut r.capacity (tape r.capacity r.bytes) (tape r.capacity m) r.head c (span x)
        → Holds (tape r.capacity m) c y
        → IsRing (record r { bytes = m }) (xs ++ y ∷ ys)
  IsRing-replace v same but holds = record {
    large = v.large;
    whole = v.whole;
    small = v.small;
    head_aligned = v.head_aligned;
    chain =
        Chain-append cap w' r.head c r.tail xs (y ∷ ys)
          (Chain-Agree cap w w' r.head c xs
            (λ d h k. but d h (omega (arith, at.below, v.room)) (inl k)) at.before)
          (holds, rw same at.inside, rw same rest);
    room = v.room;
    cached = v.cached;
    fits = v.fits;
    clean = λ d h k.
        but d (omega (arith, at.above, at.below)) k (inr (omega (arith, at.below))) ∙ v.clean d h k;
  }
    where
      cap : ℕ
      cap = r.capacity

      w : Bytes
      w = tape cap r.bytes

      w' : Bytes
      w' = tape cap m

      c : ℕ
      c = at_end r.head xs

      at : Place r xs x ys
      at = place xs x ys v

      rest : Chain cap w' (c + span x) ys r.tail
      rest =
          Chain-Agree cap w w' (c + span x) r.tail ys
            (λ d h k. but d (omega (arith, at.above)) (omega arith) (inr h)) at.after
