-- ===== src/Ring/Race/Ranges.antt =====
-- The bytes of the data region that a producer of ring.go has to itself between its claim and its
-- commit, and why those of two records of the ring do not meet.
use go_ipc.Prelude.{
  ℕ, ◌+◌, ◌-◌, ◌%◌, ◌≤◌, ◌<◌, ◌≡◌, ◌≢◌, ◌⊎◌, inl, inr, List, [], ◌∷◌, refl, sym, ◌∙◌, ap, subst,
  arith,
}
use go_ipc.Memory.Laws.{mod-within}
use go_ipc.Ring.{Ring}
use go_ipc.Ring.Bounds.{align-round8}
use go_ipc.Ring.Records.{Record, blank, claimed, filled, span, IsRing}
use go_ipc.Ring.Replace.{place}
use go_ipc.Ring.Race.{
  Phase, idle, wants, loaded, short, caching, roomy, crossed, taken, owns, written, aligned,
  rest_of_lap, record_len,
}
use go_ipc.Ring.Race.Sits.{Sits, Sits-le, Sits-split}
use go_ipc.Ring.Race.Invariant.{Relies, Holding}
use native.Mathlib.Nat.{mod-add-mod, mod-eq-sub-mod, mod-eq_of_lt, mod-lt}
use native.Mathlib.Decide.{dec_lt}

-- The producer, on a ring of `cap` bytes, has the `n` bytes from `lo` of the data region.
abbrev pub Writes : ℕ → Phase → ℕ → ℕ → Type 0
Writes cap idle lo n = ⊥
Writes cap (wants m) lo n = ⊥
Writes cap (loaded m tail) lo n = ⊥
Writes cap (short m tail) lo n = ⊥
Writes cap (caching m tail head) lo n = ⊥
Writes cap (roomy m tail) lo n = ⊥
Writes cap (crossed m tail) lo n =
    ((lo ≡ tail % cap) × (n ≡ rest_of_lap cap tail)) ⊎ ((lo ≡ 0) × (n ≡ aligned m))
Writes cap (taken m at index) lo n = (lo ≡ index) × (n ≡ aligned m)
Writes cap (owns m at index) lo n = (lo ≡ index) × (n ≡ aligned m)
Writes cap (written m at index) lo n = (lo ≡ index) × (n ≡ aligned m)

-- It is the range of a record that the producer has to itself.
pub record Own (cap : ℕ) (p : Phase) (lo n : ℕ) : Type 0 where
  pub cursor : ℕ
  pub record_there : Record
  pub holds : Holding cap p cursor record_there
  pub starts : cursor % cap ≡ lo
  pub covers : span record_there ≡ n

pub Writes-Own :
    (r : Ring) (p : Phase) (lo n : ℕ)
    → Relies r p
    → Writes r.capacity p lo n
    → Own r.capacity p lo n
Writes-Own r idle lo n s o = elim o [ ]
Writes-Own r (wants m) lo n s o = elim o [ ]
Writes-Own r (loaded m tail) lo n s o = elim o [ ]
Writes-Own r (short m tail) lo n s o = elim o [ ]
Writes-Own r (caching m tail head) lo n s o = elim o [ ]
Writes-Own r (roomy m tail) lo n s o = elim o [ ]
Writes-Own r (crossed m tail) lo n s (inl o) = record {
  cursor = tail;
  record_there = blank (rest_of_lap r.capacity tail);
  holds = inl (refl, refl);
  starts = sym o.0;
  covers = sym o.1;
}
Writes-Own r (crossed m tail) lo n s (inr o) = record {
  cursor = tail + rest_of_lap r.capacity tail;
  record_there = blank _;
  holds = inr (refl, refl);
  starts = s.1 ∙ sym o.0;
  covers = sym (align-round8 (record_len m) s.0.0) ∙ sym o.1;
}
Writes-Own r (taken m at index) lo n s o = record {
  cursor = at;
  record_there = blank _;
  holds = (refl, refl);
  starts = sym s.1 ∙ sym o.0;
  covers = sym (align-round8 (record_len m) s.0.0) ∙ sym o.1;
}
Writes-Own r (owns m at index) lo n s o = record {
  cursor = at;
  record_there = claimed (record_len m) m.0;
  holds = (refl, refl);
  starts = sym s.1 ∙ sym o.0;
  covers = sym (align-round8 (record_len m) s.0.0) ∙ sym o.1;
}
Writes-Own r (written m at index) lo n s o = record {
  cursor = at;
  record_there = filled m.0 m.1;
  holds = (refl, refl);
  starts = sym s.1 ∙ sym o.0;
  covers = sym (align-round8 (record_len m) s.0.0) ∙ sym o.1;
}

Sits-apart :
    (h c d : ℕ) (xs : List Record) (x y : Record)
    → Sits h xs c x
    → Sits h xs d y
    → c ≢ d
    → (c + span x ≤ d) ⊎ (d + span y ≤ c)
Sits-apart h c d [] x y s t ne = elim s [ ]
Sits-apart h c d (z ∷ xs) x y (inl s) (inl t) ne = absurd (ne (s.0 ∙ sym t.0))
Sits-apart h c d (z ∷ xs) x y (inl s) (inr t) ne =
    inl (omega (arith, s.0, ap span s.1, Sits-le (h + span z) d xs y t))
Sits-apart h c d (z ∷ xs) x y (inr s) (inl t) ne =
    inr (omega (arith, t.0, ap span t.1, Sits-le (h + span z) c xs x s))
Sits-apart h c d (z ∷ xs) x y (inr s) (inr t) ne = Sits-apart (h + span z) c d xs x y s t ne

-- A record of a ring lies between its cursors, and within the data region.
Sits-inside :
    {r : Ring} {xs : List Record} (c : ℕ) (x : Record)
    → IsRing r xs
    → Sits r.head xs c x
    → (r.head ≤ c) × (c + span x ≤ r.head + r.capacity) × (c % r.capacity + span x ≤ r.capacity)
Sits-inside {r} {xs} c x v s =
    let (ys, zs, e, k) = Sits-split r.head c xs x s in
    let at = place ys x zs (subst (IsRing r) e v) in
    let inside = subst (λ d. d % r.capacity + span x ≤ r.capacity) k at.inside in
    (omega (arith, at.above, k), omega (arith, at.below, k, v.room), inside)

-- Two ranges of cursors, one behind the other and less than a lap apart, are two ranges of bytes.
wraps-apart :
    (cap c d n k : ℕ)
    → 0 < cap
    → c + n ≤ d
    → d + k ≤ c + cap
    → (c % cap + n ≤ d % cap) ⊎ (d % cap + k ≤ c % cap)
wraps-apart cap c d n k pos behind lap =
    let below = mod-lt c pos in
    let e : c + (d - c) ≡ d = omega arith in
    elim (dec_lt (c % cap + (d - c)) cap) [
      | yes p ↦
          let f : d % cap ≡ c % cap + (d - c) =
            ap (λ a. a % cap) (sym e) ∙ mod-within cap c (d - c) p in
          inl (omega (arith, f))
      | no p ↦
          let f : d % cap ≡ c % cap + (d - c) - cap =
            ap (λ a. a % cap) (sym e)
            ∙ sym (mod-add-mod c cap (d - c))
            ∙ mod-eq-sub-mod {n = c % cap + (d - c)} {m = cap} (omega (arith, p))
            ∙ mod-eq_of_lt (omega (arith, below)) in
          inr (omega (arith, f, p))
    ]

-- The bytes of two records of a ring.
pub Sits-wrapped :
    {r : Ring} {xs : List Record} (c d : ℕ) (x y : Record)
    → IsRing r xs
    → Sits r.head xs c x
    → Sits r.head xs d y
    → c ≢ d
    → (c % r.capacity + span x ≤ r.capacity)
      × (d % r.capacity + span y ≤ r.capacity)
      × ((c % r.capacity + span x ≤ d % r.capacity) ⊎ (d % r.capacity + span y ≤ c % r.capacity))
Sits-wrapped {r} {xs} c d x y v s t ne =
    let (lo, hi, inside) = Sits-inside c x v s in
    let (lo', hi', inside') = Sits-inside d y v t in
    (
      inside,
      inside',
      elim (Sits-apart r.head c d xs x y s t ne) [
        | inl p ↦
            wraps-apart r.capacity c d (span x) (span y) (omega (arith, v.large)) p
              (omega (arith, lo, hi'))
        | inr p ↦
            elim (wraps-apart r.capacity d c (span y) (span x) (omega (arith, v.large)) p
              (omega (arith, lo', hi))) [ inl q ↦ inr q | inr q ↦ inl q ]
      ],
    )
