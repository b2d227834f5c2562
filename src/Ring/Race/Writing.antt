-- ===== src/Ring/Race/Writing.antt =====
-- The writes of a producer to its record: header, payload, commit, abort and padding.
use go_ipc.Prelude.{
  ℕ, ◌+◌, ◌%◌, ◌≡◌, inl, inr, none, List, [], ◌∷◌, ◌++◌, refl, sym, ◌∙◌, ap, subst, arith,
}
use go_ipc.Ring.{Ring}
use go_ipc.Ring.Producer.{write_header, write_padding, fill, commit, abort}
use go_ipc.Ring.Bounds.{round8}
use go_ipc.Ring.Reader.{Msg}
use go_ipc.Ring.Records.{Record, blank, claimed, filled, message, padding, IsRing}
use go_ipc.Ring.Replace.{place}
use go_ipc.Ring.Steps.{write_header_lem, write_padding_lem, abort_lem}
use go_ipc.Ring.Filling.{filled_lem, commit-filled, abort-filled}
use go_ipc.Ring.Race.{idle, crossed, taken, owns, written, World, record_len, rest_of_lap, claim_of}
use go_ipc.Ring.Race.Sits.{Sits}
use go_ipc.Ring.Race.Invariant.{front, ahead, Holding, Inv}
use go_ipc.Ring.Race.Producing.{Next, relied, found, rewrites, overwrites}

module _ {w : World} {xs : List Record} {owner : ℕ → ℕ} (inv : Inv w xs owner) (i : ℕ) (m : Msg)
    (at index : ℕ) where
  front_ring : Ring
  front_ring = ahead w.ring (front w)

  pub heads-Inv :
      (e : w.phases i ≡ taken m at index)
      → Next inv i e
          (record w.ring { bytes = write_header index m.0 (record_len m) w.ring.bytes })
          (owns m at index)
          []
  unfolding front_ring
  heads-Inv e =
      let ((small, typed), there) = relied inv i e in
      rewrites inv i e at index (blank (round8 (record_len m))) (claimed (record_len m) m.0)
        (owns m at index) (write_header index m.0 (record_len m) w.ring.bytes) (refl, refl) there
        refl refl
        (λ ys zs v k.
          subst
            (λ (n : ℕ).
              IsRing (record front_ring { bytes = write_header n m.0 (record_len m) w.ring.bytes })
                (ys ++ claimed (record_len m) m.0 ∷ zs))
            k
            (write_header_lem ys zs (round8 (record_len m)) (record_len m) m.0 v refl (omega arith)
              small (omega arith) (omega arith)))
        ((small, typed), there) (λ d z h. h)

  pub fills-Inv :
      (e : w.phases i ≡ owns m at index)
      → Next inv i e (fill (claim_of m index) m.1 w.ring) (written m at index) []
  unfolding fill front_ring
  fills-Inv e =
      rewrites inv i e at index (claimed (record_len m) m.0) (filled m.0 m.1) (written m at index)
        (fill (claim_of m index) m.1 w.ring).bytes (refl, refl) (relied inv i e).1 refl refl
        (λ ys zs v k.
          subst (λ (n : ℕ). IsRing (fill (claim_of m n) m.1 front_ring) (ys ++ filled m.0 m.1 ∷ zs))
            k (filled_lem ys zs m.0 m.1 none v))
        (relied inv i e) (λ d z h. h)

  pub commits-Inv :
      (e : w.phases i ≡ written m at index)
      → Next inv i e (commit (claim_of m index) w.ring) idle ((at, m) ∷ [])
  unfolding commit front_ring
  commits-Inv e =
      rewrites inv i e at index (filled m.0 m.1) (message m.0 m.1) idle
        (commit (claim_of m index) w.ring).bytes (refl, refl) (relied inv i e).1 refl refl
        (λ ys zs v k.
          subst (λ (n : ℕ). IsRing (commit (claim_of m n) front_ring) (ys ++ message m.0 m.1 ∷ zs))
            k (commit-filled ys zs m.0 m.1 none v))
        tt (λ d z h. elim h [ ])

  pub aborts-Inv :
      (e : w.phases i ≡ written m at index) → Next inv i e (abort (claim_of m index) w.ring) idle []
  unfolding abort front_ring
  aborts-Inv e =
      rewrites inv i e at index (filled m.0 m.1) (padding (record_len m)) idle
        (abort (claim_of m index) w.ring).bytes (refl, refl) (relied inv i e).1 refl refl
        (λ ys zs v k.
          subst
            (λ (n : ℕ).
              IsRing (abort (claim_of m n) front_ring) (ys ++ padding (record_len m) ∷ zs))
            k (abort-filled ys zs m.0 m.1 none v))
        tt (λ d z h. elim h [ ])

  pub drops-Inv :
      (e : w.phases i ≡ owns m at index) → Next inv i e (abort (claim_of m index) w.ring) idle []
  unfolding abort front_ring
  drops-Inv e =
      rewrites inv i e at index (claimed (record_len m) m.0) (padding (record_len m)) idle
        (abort (claim_of m index) w.ring).bytes (refl, refl) (relied inv i e).1 refl refl
        (λ ys zs v k.
          subst
            (λ (n : ℕ).
              IsRing (abort (claim_of m n) front_ring) (ys ++ padding (record_len m) ∷ zs))
            k (abort_lem ys zs (record_len m) m.0 v none))
        tt (λ d z h. elim h [ ])

-- The padding record of a claim that crosses the wrap point; the range behind it stays the claim's.
pub pads-Inv :
    {w : World} {xs : List Record} {owner : ℕ → ℕ} (inv : Inv w xs owner) (i : ℕ) (m : Msg)
    (tail : ℕ) (e : w.phases i ≡ crossed m tail)
    → let n = rest_of_lap w.ring.capacity tail in
      Next inv i e
        (record w.ring { bytes = write_padding (tail % w.ring.capacity) n w.ring.bytes })
        (taken m (tail + n) 0)
        []
pads-Inv {w} {xs} {owner} inv i m tail e =
    let n = rest_of_lap w.ring.capacity tail in
    let h = front w in
    let q = taken m (tail + n) 0 in
    let bytes = write_padding (tail % w.ring.capacity) n w.ring.bytes in
    let (sound, lap, big) = relied inv i e in
    let (ys, zs, inv', k, mine) = found inv i e tail (blank n) (inl (refl, refl)) in
    let behind =
      subst (λ p. Holding w.ring.capacity p (tail + n) (blank (round8 (record_len m)))) (sym e)
        (inr (refl, refl)) in
    let v : IsRing (record (ahead w.ring h) { bytes = bytes }) (ys ++ padding n ∷ zs) =
      subst
        (λ (d : ℕ).
          IsRing
            (record (ahead w.ring h) { bytes = write_padding (d % w.ring.capacity) n w.ring.bytes })
            (ys ++ padding n ∷ zs))
        k (write_padding_lem ys zs n inv'.ring) in
    (
      ys ++ padding n ∷ zs,
      owner,
      overwrites i q bytes ys zs (blank n) (padding n)
          (omega (arith, (place ys (blank n) zs inv'.ring).holds)) inv' (ap owner k ∙ mine) refl v
          (sound, sym lap)
          (λ d z o. inr (
            omega (arith, o.0, k, big),
            subst (λ (c : ℕ). Sits h (ys ++ blank n ∷ zs) c z) (sym o.0)
                (subst (λ (x : Record). Sits h (ys ++ blank n ∷ zs) (tail + n) x) (sym o.1)
                  (inv'.apart.sits i (tail + n) (blank (round8 (record_len m))) behind)),
            ap owner o.0 ∙ inv'.apart.owned i (tail + n) (blank (round8 (record_len m))) behind,
          )),
    )
