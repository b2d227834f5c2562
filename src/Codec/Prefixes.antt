-- ===== src/Codec/Prefixes.antt =====
-- No input that `Decode` accepts is the beginning of a longer one that it accepts.
use go_ipc.Prelude.{
  ℕ, zero, suc, ◌+◌, ◌≤◌, ◌≡◌, inl, inr, Bool, true, false, Bool-cases, not, ◌&&◌, none, some, List,
  [], ◌∷◌, ◌++◌, refl, ◌∙◌, ap, arith, ltb, length, take, drop, length-append,
}
use go_ipc.Memory.{load32}
use go_ipc.Codec.{Fields, no_more, fixed, variable, Message}
use go_ipc.Codec.Encode.{Std}
use go_ipc.Codec.Decode.{trailing, bytes_of, check_fixed, check_vars, decode}
use go_ipc.Codec.Placed.{Placed, check_fixed-Same}
use go_ipc.Codec.RoundTrip.{bytes_of-append}

module _ {ℓ} {A : Type ℓ} where
  take-append : (n : ℕ) (b s : List A) → n ≤ length b → take n (b ++ s) ≡ take n b
  take-append zero b s h = refl
  take-append (suc n) [] s h = absurd (omega arith)
  take-append (suc n) (x ∷ b) s h = ap (λ (l : List A). x ∷ l) (take-append n b s (omega arith))

  drop-append : (n : ℕ) (b s : List A) → n ≤ length b → drop n (b ++ s) ≡ drop n b ++ s
  drop-append zero b s h = refl
  drop-append (suc n) [] s h = absurd (omega arith)
  drop-append (suc n) (x ∷ b) s h = drop-append n b s (omega arith)

load32-append : (b s : List ℕ) → 4 ≤ length b → load32 (bytes_of (b ++ s)) 0 ≡ load32 (bytes_of b) 0
unfolding load32
load32-append b s h = rw (
  bytes_of-append b s 0 (omega arith),
  bytes_of-append b s (0 + 1) (omega arith),
  bytes_of-append b s (0 + 2) (omega arith),
  bytes_of-append b s (0 + 3) (omega arith),
)

module _ (std : Std) (x : ℕ) (s : List ℕ) where
  -- A section that is whole is read the same with more behind it.
  one_section :
      (is_string : Bool) (name : List ℕ) (rest : Fields) (b : List ℕ)
      → ((b' : List ℕ)
          → check_vars std rest b' ≡ none
          → check_vars std rest (b' ++ x ∷ s) ≡ some trailing)
      → check_vars std (variable name is_string rest) b ≡ none
      → check_vars std (variable name is_string rest) (b ++ x ∷ s) ≡ some trailing
  unfolding check_vars
  one_section is_string name rest b ih e = elim (Bool-cases (ltb (length b) 4)) [
    | inl few ↦ let bad = rw few at e in cc
    | inr enough ↦
        let l4 : 4 ≤ length b = ground arith in
        let n = load32 (bytes_of b) 0 in
        elim (Bool-cases (ltb (length (drop 4 b)) n)) [
          | inl few ↦ let bad = rw (enough, few) at e in cc
          | inr all ↦
              let ln : n ≤ length (drop 4 b) = ground arith in
              elim (Bool-cases (is_string && not (std.is_valid (take n (drop 4 b))))) [
                | inl garbled ↦ let bad = rw (enough, all, garbled) at e in cc
                | inr valid ↦
                    let e' = rw (enough, all, valid) at e in
                    let longer : ltb (length (b ++ x ∷ s)) 4 ≡ false =
                      ground (arith, length-append b (x ∷ s)) in
                    let longer' : ltb (length (drop 4 b ++ x ∷ s)) n ≡ false =
                      ground (arith, length-append (drop 4 b) (x ∷ s)) in
                    rw
                      (
                        longer,
                        drop-append 4 b (x ∷ s) l4,
                        load32-append b (x ∷ s) l4,
                        longer',
                        take-append n (drop 4 b) (x ∷ s) ln,
                        valid,
                        drop-append n (drop 4 b) (x ∷ s) ln,
                      )
                      (ih (drop n (drop 4 b)) e')
              ]
        ]
  ]

  check_vars-append :
      (fs : Fields) (b : List ℕ)
      → check_vars std fs b ≡ none
      → check_vars std fs (b ++ x ∷ s) ≡ some trailing
  unfolding check_vars
  check_vars-append no_more [] e = refl
  check_vars-append no_more (y ∷ b) e = refl
  check_vars-append (fixed name type_of offset rest) b e = check_vars-append rest b e
  check_vars-append (variable name is_string rest) b e =
      one_section is_string name rest b (check_vars-append rest) e

  -- `Decode` reports trailing bytes on every input that begins with one that it accepts and is longer.
  -- The fields of the message are placed as `Check` places them.
  pub decode-append :
      (m : Message) (b : List ℕ)
      → Placed 0 m.fields m.fixed_size
      → decode std m b ≡ none
      → decode std m (b ++ x ∷ s) ≡ some trailing
  unfolding decode
  decode-append m b p e = elim (Bool-cases (ltb (length b) m.fixed_size)) [
    | inl few ↦ let bad = rw few at e in cc
    | inr enough ↦
        let le : m.fixed_size ≤ length b = ground arith in
        elim (Bool-cases (check_fixed m.fields (bytes_of b) 0)) [
          | inr bools ↦ let bad = rw (enough, bools) at e in cc
          | inl good ↦
              let e' = rw (enough, good) at e in
              let longer : ltb (length (b ++ x ∷ s)) m.fixed_size ≡ false =
                ground (arith, length-append b (x ∷ s)) in
              let same : check_fixed m.fields (bytes_of (b ++ x ∷ s)) 0 ≡ true =
                check_fixed-Same m.fields (bytes_of b) (bytes_of (b ++ x ∷ s)) 0 0 m.fixed_size p
                  (λ d q q'. bytes_of-append b (x ∷ s) d (omega arith))
                ∙ good in
              rw (longer, same, drop-append m.fixed_size b (x ∷ s) le)
                (check_vars-append m.fields (drop m.fixed_size b) e')
        ]
  ]
