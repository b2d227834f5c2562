-- ===== src/Ring/Race/Swapping.antt =====
-- The compare-and-swap on the tail, which takes the range of a record.
use go_ipc.Prelude.{
  ℕ, ◌+◌, ◌%◌, ◌^◌, ◌≤◌, ◌<◌, ◌≡◌, inl, inr, true, false, Bool, Bool-cases, List, [], ◌∷◌, ◌++◌,
  append_assoc, refl, sym, ◌∙◌, ap, subst, arith, if◌then◌else◌, ltb, ltb→lt,
}
use go_ipc.Ring.Bounds.{round8}
use go_ipc.Ring.Reader.{Msg}
use go_ipc.Ring.Records.{Record, blank, IsRing}
use go_ipc.Ring.Replace.{at_end}
use go_ipc.Ring.Race.{
  Phase, crossed, taken, World, record_len, rest_of_lap, need_of, crosses, aligned,
}
use go_ipc.Ring.Race.Sits.{Sits, Sits-there}
use go_ipc.Ring.Race.Invariant.{front, ahead, IsSound, Holding, Inv}
use go_ipc.Words.{u64_add}
use go_ipc.Ring.Bounds.{align-round8}
use go_ipc.Ring.Steps.{IsRing-extend, tail-at_end}
use go_ipc.Ring.Replace.{at_end-append, at_end-one}
use go_ipc.Ring.Claims.{to_end-mod, lap_end, across}
use go_ipc.Ring.Race.Producing.{after}
use go_ipc.Ring.Race.Claiming.{extends}

module _ {w : World} {xs : List Record} {owner : ℕ → ℕ} (inv : Inv w xs owner) (i : ℕ) (m : Msg)
    (sound : IsSound m)
    (fit : w.ring.tail + need_of w.ring.capacity w.ring.tail m ≤ w.ring.head + w.ring.capacity)
    (nowrap : w.ring.tail + need_of w.ring.capacity w.ring.tail m < 2 ^ 64) where
  abbrev n : ℕ
  n = round8 (record_len m)

  abbrev rest : ℕ
  rest = rest_of_lap w.ring.capacity w.ring.tail

  v : IsRing (ahead w.ring (front w)) xs
  v = inv.ring

  abbrev need : ℕ
  need = need_of w.ring.capacity w.ring.tail m

  aligned_n : aligned m ≡ n
  aligned_n = align-round8 (record_len m) sound.0

  swapped_at : u64_add w.ring.tail need ≡ w.ring.tail + need
  swapped_at = omega (arith, nowrap)

  need_cross : crosses w.ring.capacity w.ring.tail m ≡ true → (rest < n) × (need ≡ n + rest)
  need_cross e =
      let lt : rest < n = rw aligned_n at (ltb→lt _ _ e) in
      let sum : u64_add n rest ≡ n + rest = omega (arith, v.small, sound.0) in
      (lt, rw (e, aligned_n) sum)

  need_straight : crosses w.ring.capacity w.ring.tail m ≡ false → (n ≤ rest) × (need ≡ n)
  need_straight e =
      let e' : ltb rest n ≡ false = rw aligned_n at e in (ground arith, rw (e, aligned_n))

  ends : at_end (front w) xs ≡ w.ring.tail
  unfolding v
  ends = tail-at_end v

  pad_ends : at_end (front w) (xs ++ blank rest ∷ []) ≡ w.ring.tail + rest
  pad_ends =
      at_end-append (front w) xs (blank rest ∷ [])
      ∙ at_end-one (at_end (front w) xs) (blank rest)
      ∙ ap (λ (c : ℕ). c + rest) ends

  swaps-cross :
      crosses w.ring.capacity w.ring.tail m ≡ true
      → (ys : List Record) × (o : ℕ → ℕ) × Inv
          (after w i (record w.ring { tail = u64_add w.ring.tail need }) (crossed m w.ring.tail) [])
          ys
          o
  unfolding v
  swaps-cross e =
      let (lt, k) = need_cross e in
      let t : u64_add w.ring.tail need ≡ w.ring.tail + rest + n = swapped_at ∙ omega (arith, k) in
      let zs = blank rest ∷ blank n ∷ [] in
      let big = to_end-mod v in
      (
        xs ++ zs,
        _,
        extends inv i zs (u64_add w.ring.tail need) (crossed m w.ring.tail) (omega (arith, t)) refl
            (rw t (
              across v n (omega arith) (omega arith) (omega (arith, sound.0)) lt
                (omega (arith, fit, k)) (omega (arith, nowrap, k))))
            (sound, lap_end v, omega (arith, big)) own,
      )
    where
      own :
          (c : ℕ) (x : Record)
          → Holding w.ring.capacity (crossed m w.ring.tail) c x
          → Sits (front w) (xs ++ blank rest ∷ blank n ∷ []) c x × (w.ring.tail ≤ c)
      own c x (inl (a, b)) = (
        Sits-there (front w) xs (blank n ∷ []) c (blank rest) x (a ∙ sym ends) b,
        omega (arith, a),
      )
      own c x (inr (a, b)) = (
        rw (append_assoc xs (blank rest ∷ []) (blank n ∷ [])) at
            (Sits-there (front w) (xs ++ blank rest ∷ []) [] c (blank n) x (a ∙ sym pad_ends) b),
        omega (arith, a),
      )

  swaps-straight :
      crosses w.ring.capacity w.ring.tail m ≡ false
      → (ys : List Record) × (o : ℕ → ℕ) × Inv
          (after w i
            (record w.ring { tail = u64_add w.ring.tail need })
            (taken m w.ring.tail (w.ring.tail % w.ring.capacity))
            [])
          ys
          o
  unfolding v
  swaps-straight e =
      let (ge, k) = need_straight e in
      let t : u64_add w.ring.tail need ≡ w.ring.tail + n = swapped_at ∙ omega (arith, k) in
      let zs = blank n ∷ [] in
      let big = to_end-mod v in
      (
        xs ++ zs,
        _,
        extends inv i zs (u64_add w.ring.tail need)
            (taken m w.ring.tail (w.ring.tail % w.ring.capacity)) (omega (arith, t)) refl
            (rw t (
              IsRing-extend v n (omega arith) (omega arith) (omega (arith, sound.0))
                (omega (arith, ge, big)) (omega (arith, fit, k)) (omega (arith, nowrap, k))))
            (sound, refl)
            (λ c x o.
              (Sits-there (front w) xs [] c (blank n) x (o.0 ∙ sym ends) o.1, omega (arith, o.0))),
      )

  abbrev target : Bool → Phase
  target b =
      if b then crossed m w.ring.tail else taken m w.ring.tail (w.ring.tail % w.ring.capacity)

  pub swaps-now :
      (ys : List Record) × (o : ℕ → ℕ) × Inv
        (after w i
          (record w.ring { tail = u64_add w.ring.tail need })
          (target (crosses w.ring.capacity w.ring.tail m))
          [])
        ys
        o
  swaps-now =
      let goal = λ (b : Bool).
        (ys : List Record) × (o : ℕ → ℕ) × Inv
          (after w i (record w.ring { tail = u64_add w.ring.tail need }) (target b) []) ys o in
      elim (Bool-cases (crosses w.ring.capacity w.ring.tail m)) [
        | inl c ↦ subst goal (sym c) (swaps-cross c)
        | inr c ↦ subst goal (sym c) (swaps-straight c)
      ]
