-- ===== src/Ring/Consume.antt =====
-- The clearing of a consumed record, and the state of the loop of `Read`.
use go_ipc.Prelude.{ℕ, ◌+◌, ◌-◌, ◌%◌, ◌≤◌, ◌<◌, ◌≡◌, ◌⊎◌, inl, inr, ◌∙◌, subst, arith}
use go_ipc.Memory.{Bytes, store32, clear_bytes, overlay, byte_of}
use go_ipc.Memory.Laws.{tape, overlay-at, byte_of-zero, overlay-out, tape-overlay, mod-within}
use go_ipc.Ring.Replace.{AgreeBut}
use native.Mathlib.Decide.{dec_lt}

-- `clear(data[i+4:i+n])`, then a length of 0.
unfoldable pub clear_record : Bytes → ℕ → ℕ → Bytes
clear_record m i n = store32 (clear_bytes m (i + 4) (n - 4)) i 0

pub record Cleared (cap : ℕ) (m : Bytes) (lo c n : ℕ) (m' : Bytes) : Type 0 where
  pub but : AgreeBut cap (tape cap m) (tape cap m') lo c n
  pub zeroed : (d : ℕ) → c ≤ d → d < c + n → m' (d % cap) ≡ 0

pub clear_record_lem :
    (cap : ℕ) (m : Bytes) (lo c n : ℕ)
    → 0 < cap
    → lo ≤ c
    → 8 ≤ n
    → c % cap + n ≤ cap
    → c + n ≤ lo + cap
    → Cleared cap m lo c n (clear_record m (c % cap) n)
unfolding clear_record store32 clear_bytes
clear_record_lem cap m lo c n pos above h8 inside below = record {
  but = λ d h k o.
      second d h k
      ∙ overlay-out (tape cap m1) c 4 (byte_of 0) d (first-out d o)
      ∙ first d h k
      ∙ overlay-out (tape cap m) (c + 4) (n - 4) (λ _. 0) d (second-out d o);
  zeroed = λ d h k. elim (dec_lt d (c + 4)) [
    | yes p ↦
        second d (omega arith) (omega arith)
        ∙ overlay-at (tape cap m1) c 4 (byte_of 0) d h p
        ∙ byte_of-zero (d - c)
    | no p ↦
        second d (omega arith) (omega arith)
        ∙ overlay-out (tape cap m1) c 4 (byte_of 0) d (inr (omega arith))
        ∙ first d (omega arith) (omega arith)
        ∙ overlay-at (tape cap m) (c + 4) (n - 4) (λ _. 0) d (omega arith) (omega arith)
  ];
}
  where
    m1 : Bytes
    m1 = overlay m (c % cap + 4) (n - 4) (λ _. 0)

    at : (c + 4) % cap ≡ c % cap + 4
    at = mod-within cap c 4 (omega arith)

    first :
        (d : ℕ)
        → lo ≤ d
        → d < lo + cap
        → m1 (d % cap) ≡ overlay (tape cap m) (c + 4) (n - 4) (λ _. 0) d
    first d h k =
        subst
          (λ (i : ℕ).
            overlay m i (n - 4) (λ _. 0) (d % cap)
            ≡ overlay (tape cap m) (c + 4) (n - 4) (λ _. 0) d)
          at
          (tape-overlay cap m lo (c + 4) (n - 4) (λ _. 0) pos (omega (arith, at)) (omega arith)
            (omega arith) d h k)

    second :
        (d : ℕ)
        → lo ≤ d
        → d < lo + cap
        → overlay m1 (c % cap) 4 (byte_of 0) (d % cap) ≡ overlay (tape cap m1) c 4 (byte_of 0) d
    second = tape-overlay cap m1 lo c 4 (byte_of 0) pos (omega arith) above (omega arith)

    first-out : (d : ℕ) → (d < c) ⊎ (c + n ≤ d) → (d < c) ⊎ (c + 4 ≤ d)
    first-out d (inl o) = inl o
    first-out d (inr o) = inr (omega arith)

    second-out : (d : ℕ) → (d < c) ⊎ (c + n ≤ d) → (d < c + 4) ⊎ (c + 4 + (n - 4) ≤ d)
    second-out d (inl o) = inl (omega arith)
    second-out d (inr o) = inr (omega arith)
