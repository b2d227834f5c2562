-- ===== src/Ring/Recovery/Verdicts.antt =====
-- What `unstall` decides: it takes a claim apart only when every slot that covers it is a dead
-- producer's, and they agree on where it ends.
use go_ipc.Prelude.{
  ℕ, ◌^◌, ◌≤◌, ◌≡◌, ◌≢◌, ◌⊎◌, inl, inr, Bool-cases, Bool, true, false, not, ◌||◌, Option, none,
  some, List, [], ◌∷◌, ◌++◌, All, refl, sym, ◌∙◌, subst, arith, ltb, leb, ◌==◌, get_or,
  if◌then◌else◌,
}
use go_ipc.Words.{u64_add}
use go_ipc.Ring.{Ring, Slot, free_slot, no_intent}
use go_ipc.Ring.Recovery.{
  Stall, Verdict, leave, watch, disagree, reclaimable, judge, stalled, reclaim, unstall,
}

module _ (dead : ℕ → Bool) (self at : ℕ) (slots : List Slot) where
  abbrev pub slot_at : ℕ → Slot
  slot_at i = get_or slots i free_slot

  -- The claim of the slot no longer covers the cursor, or nobody owns it.
  abbrev pub IsPast : ℕ → Type 0
  IsPast i =
      (((slot_at i).owner == 0)
        || ((slot_at i).at == no_intent
            || (ltb at (slot_at i).at || leb (u64_add (slot_at i).at (slot_at i).size) at)))
      ≡ true

  -- The owner of the slot is a dead process behind a life socket, and its claim ends at `end`.
  pub record IsDeadClaim (end i : ℕ) : Type 0 where
    pub exited : dead (slot_at i).owner ≡ true
    pub watched : 2 ^ 63 ≤ (slot_at i).owner
    pub other : (slot_at i).owner ≢ self
    pub ends : u64_add (slot_at i).at (slot_at i).size ≡ end

  -- What a verdict on the slots `is` means, after those of `found`, which end at `end`.
  abbrev pub Judged : List ℕ → ℕ → List ℕ → Verdict → Type 0
  Judged is end found leave = Unit
  Judged is end found (watch owner) = (dead owner ≡ false) × (owner ≢ self) × (2 ^ 63 ≤ owner)
  Judged is end found disagree = Unit
  Judged is end found (reclaimable e f) =
      All (λ i. IsPast i ⊎ IsDeadClaim e i) is
      × All (IsDeadClaim e) f
      × (f ≢ [])
      × ((found ≡ []) ⊎ (e ≡ end))

  module _ (i : ℕ) (is : List ℕ) where
    past_Judged :
        (end : ℕ) (found : List ℕ) (v : Verdict)
        → IsPast i
        → Judged is end found v
        → Judged (i ∷ is) end found v
    past_Judged end found leave p h = h
    past_Judged end found (watch owner) p h = h
    past_Judged end found disagree p h = h
    past_Judged end found (reclaimable e f) p h = ((inl p, h.0), h.1, h.2, h.3)

    dead_Judged :
        (end end' : ℕ) (found more : List ℕ) (v : Verdict)
        → IsDeadClaim end' i
        → more ≢ []
        → (found ≡ []) ⊎ (end' ≡ end)
        → Judged is end' more v
        → Judged (i ∷ is) end found v
    dead_Judged end end' found more leave d ne same h = h
    dead_Judged end end' found more (watch owner) d ne same h = h
    dead_Judged end end' found more disagree d ne same h = h
    dead_Judged end end' found more (reclaimable e f) d ne same (a, b, some_found, inl nil) =
        absurd (ne nil)
    dead_Judged end end' found more (reclaimable e f) d ne same (a, b, some_found, inr at_end) = (
      (inr (subst (λ x. IsDeadClaim x i) (sym at_end) d), a),
      b,
      some_found,
      elim same [ inl n ↦ inl n | inr q ↦ inr (at_end ∙ q) ],
    )

  snoc-nonempty : (xs : List ℕ) (x : ℕ) → xs ++ (x ∷ []) ≢ []
  snoc-nonempty [] x h = cc
  snoc-nonempty (y ∷ ys) x h = cc

  All-snoc : (P : ℕ → Type 0) (xs : List ℕ) (x : ℕ) → All P xs → P x → All P (xs ++ (x ∷ []))
  All-snoc P [] x h p = (p, tt)
  All-snoc P (y ∷ ys) x h p = (h.0, All-snoc P ys x h.1 p)

  abbrev stop_of : ℕ → ℕ
  stop_of i = u64_add (slot_at i).at (slot_at i).size

  -- A slot of a dead producer is found: the clauses of `judge` behind its tests.
  found_Judged :
      (i : ℕ) (is : List ℕ) (end : ℕ) (found : List ℕ) (later : Verdict)
      → IsDeadClaim (stop_of i) i
      → All (IsDeadClaim end) found
      → (All (IsDeadClaim (stop_of i)) (found ++ (i ∷ []))
          → Judged is (stop_of i) (found ++ (i ∷ [])) later)
      → Judged
          (i ∷ is)
          end
          found
          (elim found [ [] ↦ later | _ ∷ _ ↦ if stop_of i == end then later else disagree ])
  found_Judged i is end [] later d past h =
      dead_Judged i is end (stop_of i) [] (i ∷ []) later d (snoc-nonempty [] i) (inl refl)
        (h (d, tt))
  found_Judged i is end (f ∷ fs) later d past h = elim (Bool-cases (stop_of i == end)) [
    | inl same ↦ rw same (
        dead_Judged i is end (stop_of i) (f ∷ fs) (f ∷ (fs ++ (i ∷ []))) later d
          (snoc-nonempty (f ∷ fs) i) (inr (ground arith))
          (h (
            All-snoc (IsDeadClaim (stop_of i)) (f ∷ fs) i
              (subst (λ e. All (IsDeadClaim e) (f ∷ fs)) (ground arith) past) d)))
    | inr differ ↦ rw differ tt
  ]

  judge_lem :
      (is : List ℕ) (end : ℕ) (found : List ℕ)
      → All (IsDeadClaim end) found
      → Judged is end found (judge dead self at slots is end found)
  unfolding judge
  judge_lem [] end [] h = tt
  judge_lem [] end (i ∷ found) h = (tt, h, (λ p. cc), inr refl)
  judge_lem (i ∷ is) end found h = elim (Bool-cases past) [
    | inl p ↦ rw p (
        past_Judged i is end found (judge dead self at slots is end found) p
          (judge_lem is end found h))
    | inr p ↦ elim (Bool-cases mine) [
      | inl m ↦ rw (p, m) tt
      | inr m ↦ elim (Bool-cases (dead owner)) [
        | inl d ↦
            rw (p, m, d)
              (found_Judged i is end found
                (judge dead self at slots is (stop_of i) (found ++ (i ∷ [])))
                (record { exited = d; watched = ground arith; other = ground arith; ends = refl }) h
                (judge_lem is (stop_of i) (found ++ (i ∷ []))))
        | inr d ↦ rw (p, m, d) (d, ground arith, ground arith)
      ]
    ]
  ]
    where
      owner : ℕ
      owner = (slot_at i).owner

      past : Bool
      past =
          (slot_at i).owner == 0
          || ((slot_at i).at == no_intent || (ltb at (slot_at i).at || leb (stop_of i) at))

      mine : Bool
      mine = owner == self || not (leb (2 ^ 63) owner)

-- What `unstall` may return for the ring `r`.
abbrev pub Unstalled : (ℕ → Bool) → ℕ → Ring → Ring × Verdict × Bool → Type 0
Unstalled dead self r (r', reclaimable end found, done) =
    (st : Stall) × (stalled r ≡ some st)
    × All (λ i. IsPast dead self st.at r.slots i ⊎ IsDeadClaim dead self st.at r.slots end i)
        st.slots
    × All (IsDeadClaim dead self st.at r.slots end) found
    × (found ≢ [])
    × ((r', done) ≡ reclaim st end found r)
Unstalled dead self r (r', watch owner, done) =
    (r' ≡ r) × (dead owner ≡ false) × (owner ≢ self) × (2 ^ 63 ≤ owner)
Unstalled dead self r (r', _, done) = r' ≡ r

module _ (dead : ℕ → Bool) (self : ℕ) (r : Ring) where
  settle :
      (st : Stall) (v : Verdict)
      → stalled r ≡ some st
      → Judged dead self st.at r.slots st.slots 0 [] v
      → Unstalled dead self r (elim v [
        | leave ↦ (r, leave, false)
        | watch owner ↦ (r, watch owner, false)
        | disagree ↦ (r, disagree, false)
        | reclaimable end found ↦
            let (r', done) = reclaim st end found r in (r', reclaimable end found, done)
      ])
  settle st leave e h = refl
  settle st (watch owner) e h = (refl, h.0, h.1, h.2)
  settle st disagree e h = refl
  settle st (reclaimable end found) e h = (st, e, h.0, h.1, h.2, refl)

  settle_stall :
      (o : Option Stall)
      → stalled r ≡ o
      → Unstalled dead self r (elim o [
        | none ↦ (r, leave, false)
        | some st ↦ elim (judge dead self st.at r.slots st.slots 0 []) [
          | leave ↦ (r, leave, false)
          | watch owner ↦ (r, watch owner, false)
          | disagree ↦ (r, disagree, false)
          | reclaimable end found ↦
              let (r', done) = reclaim st end found r in (r', reclaimable end found, done)
        ]
      ])
  settle_stall none e = refl
  settle_stall (some st) e =
      settle st (judge dead self st.at r.slots st.slots 0 []) e
        (judge_lem dead self st.at r.slots st.slots 0 [] tt)

  -- `unstall` takes a claim apart only when every slot whose intent covers `head` is past it by now or
  -- belongs to another process that is dead and had a life socket, all such claims ending where the
  -- reclaimed range ends; the slots it clears are such slots, and there is one at least, so that a claim
  -- without a slot is not taken apart. In every other case, a live producer among them, the ring is as it was. A process it asks to be watched is alive, and not this one.
  pub unstall_lem : Unstalled dead self r (unstall dead self r)
  unfolding unstall
  unstall_lem = settle_stall (stalled r) refl
