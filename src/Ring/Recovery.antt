-- ===== src/Ring/Recovery.antt =====
-- recover.go, and `unstall` of queue_peer.go: the reader turns the claim of a dead producer into
-- padding, and producers share the table of claim slots. Whether a process is dead is a parameter:
-- the answer of `isDead`, which dials a socket.
pub mod Reclaim
pub mod Slots
pub mod Verdicts
use go_ipc.Prelude.{
  ℕ, zero, suc, ◌+◌, ◌-◌, ◌*◌, ◌/◌, ◌%◌, ◌^◌, Bool, true, false, not, ◌&&◌, ◌||◌, Option, none,
  some, List, [], ◌∷◌, ◌++◌, ltb, leb, ◌==◌, if◌then◌else◌, get_or,
}
use go_ipc.Words.{u64_add, u64_sub, i32_not_positive, i32_of}
use go_ipc.Memory.{load32, store32}
use go_ipc.Errors.{Result, ok, err, too_many_claims}
use go_ipc.Ring.{
  Ring, Slot, type_padding, no_intent, free_slot, index_of, store_type, set_at, update_slot,
}

pub record Stall : Type 0 where
  pub at : ℕ
  pub length : ℕ
  pub slots : List ℕ

-- `at != noIntent && at <= head && head < at+size`
abbrev pub covers : ℕ → Slot → Bool
covers head s = not (s.at == no_intent) && (leb s.at head && ltb head (u64_add s.at s.size))

-- The indexes, from `idx` on, of the slots whose intent covers `head`.
unfoldable pub covering : ℕ → ℕ → List Slot → List ℕ
covering head idx [] = []
covering head idx (s ∷ ss) =
    if covers head s then idx ∷ covering head (idx + 1) ss else covering head (idx + 1) ss

unfoldable pub stalled : Ring → Option Stall
stalled r =
    let len = load32 r.bytes (index_of r r.head) in
    if r.head == r.tail
    then none
    else if not (i32_not_positive len)
    then none
    else some (record { at = r.head; length = len; slots = covering r.head 0 r.slots })

unfoldable pub clear_intents : List ℕ → List Slot → List Slot
clear_intents [] ss = ss
clear_intents (i ∷ is) ss = clear_intents is (update_slot i (set_at no_intent) ss)

-- The first `if` is the one on `toEnd`, the second is the compare-and-swap of the length.
unfoldable pub reclaim : Stall → ℕ → List ℕ → Ring → Ring × Bool
reclaim st end dead r =
    let index = index_of r st.at in
    let to_end = r.capacity - index in
    let size = if ltb to_end (u64_sub end st.at) then to_end else u64_sub end st.at in
    let bytes = store_type (store32 r.bytes index (i32_of size)) index type_padding in
    if load32 r.bytes index == st.length
    then (if u64_add st.at size == end
        then (record r { bytes = bytes; slots = clear_intents dead r.slots }, true)
        else (record r { bytes = bytes }, true))
    else (r, false)

-- The first loop of `acquireSlot`: the first slot without an owner.
unfoldable pub take_free : ℕ → ℕ → List Slot → Option (ℕ × List Slot)
take_free self idx [] = none
take_free self idx (s ∷ ss) =
    let rest = take_free self (idx + 1) ss in
    if s.owner == 0
    then some (idx, record s { owner = self; at = no_intent } ∷ ss)
    else elim rest [ none ↦ none | some (i, ss') ↦ some (i, s ∷ ss') ]

-- The conditions of the second loop: the owner is another process, its claim does not stop the
-- reader, and it is dead.
abbrev pub can_steal : (ℕ → Bool) → ℕ → ℕ → Slot → Bool
can_steal dead self head s =
    not (s.owner == 0 || s.owner == self)
    && (not (not (s.at == no_intent) && ltb head (u64_add s.at s.size)) && dead s.owner)

unfoldable pub steal_dead : (ℕ → Bool) → ℕ → ℕ → ℕ → List Slot → Option (ℕ × List Slot)
steal_dead dead self head idx [] = none
steal_dead dead self head idx (s ∷ ss) =
    let rest = steal_dead dead self head (idx + 1) ss in
    if can_steal dead self head s
    then some (idx, record s { owner = self; at = no_intent } ∷ ss)
    else elim rest [ none ↦ none | some (i, ss') ↦ some (i, s ∷ ss') ]

unfoldable pub acquire_slot : ℕ → (ℕ → Bool) → Ring → Ring × Result ℕ
acquire_slot self dead r = elim (take_free self 0 r.slots) [
  | some (i, ss) ↦ (record r { slots = ss }, ok i)
  | none ↦ elim (steal_dead dead self r.head 0 r.slots) [
    | some (i, ss) ↦ (record r { slots = ss }, ok i)
    | none ↦ (r, err too_many_claims)
  ]
]

unfoldable pub drop_slot : ℕ → ℕ → Ring → Ring
drop_slot self slot r = record r {
  slots =
      update_slot slot
        (λ s. record s { at = no_intent; owner = if s.owner == self then 0 else s.owner }) r.slots;
}

-- The top bit of a procID says that a life socket stands behind it.
abbrev pub watchable : ℕ → Bool
watchable id = leb (2 ^ 63) id

-- What `unstall` finds: nothing to do (`false, nil`), a live producer to watch, dead producers that
-- disagree (`ErrCorrupt`), or the end of the claim and the slots of its dead producers.
pub data Verdict : Type 0 where
  leave : Verdict
  watch : (owner : ℕ) → Verdict
  disagree : Verdict
  reclaimable : (end : ℕ) (dead : List ℕ) → Verdict

module _ (dead : ℕ → Bool) (self at : ℕ) (slots : List Slot) where
  -- The loop over the slots of the stall; `found` and `end` are `dead` and `end` of the source.
  unfoldable pub judge : List ℕ → (end : ℕ) (found : List ℕ) → Verdict
  judge [] end [] = leave
  judge [] end (i ∷ is) = reclaimable end (i ∷ is)
  judge (idx ∷ rest) end found =
      let s = get_or slots idx free_slot in
      let stop = u64_add s.at s.size in
      let later = judge rest stop (found ++ (idx ∷ [])) in
      let skipped = judge rest end found in
      if s.owner == 0 || (s.at == no_intent || (ltb at s.at || leb stop at))
      then skipped
      else if s.owner == self || not (watchable s.owner)
      then leave
      else if not (dead s.owner)
      then watch s.owner
      else elim found [ [] ↦ later | _ ∷ _ ↦ if stop == end then later else disagree ]

-- `unstall` up to what it returns for each verdict: the ring after it, and the verdict.
unfoldable pub unstall : (ℕ → Bool) → ℕ → Ring → Ring × Verdict × Bool
unstall dead self r = elim (stalled r) [
  | none ↦ (r, leave, false)
  | some st ↦ elim (judge dead self st.at r.slots st.slots 0 []) [
    | leave ↦ (r, leave, false)
    | watch owner ↦ (r, watch owner, false)
    | disagree ↦ (r, disagree, false)
    | reclaimable end found ↦
        let (r', done) = reclaim st end found r in (r', reclaimable end found, done)
  ]
]
