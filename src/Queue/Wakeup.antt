-- ===== src/Queue/Wakeup.antt =====
-- No wake-up is lost between `park` and `wakeReceiver` of queue.go: one receiver that parks and any number of
-- senders, each atomic access a step of its own. The ring is what the receiver sees of it: its records in order, where
-- an open claim blocks everything behind it, as in the loop of `Read` of ring.go. A record stands for a claim with the
-- padding that it writes at the wrap point. `waiters` is `recvWaiters`, `tokens` those of the event `notEmpty`.
-- `looking` senders have committed or aborted and not yet read `recvWaiters`; `signaling` ones have read that a
-- receiver waits and not yet signaled it. The recovery of dead producers takes no part here.
use go_ipc.Prelude.{
  ℕ, zero, suc, ◌+◌, ◌*◌, ◌<◌, ◌≤◌, ◌≡◌, Bool, true, false, List, [], ◌∷◌, ◌++◌, refl, sym, ◌∙◌, ap,
  subst, arith,
}

-- Where the receiver stands in the loop of `park`.
pub data Phase : Type 0 where
  attempting missed announced waiting woken : Phase

-- A record of the ring: a claim that is not committed, a message, a claim that was aborted.
pub data Mark : Type 0 where
  open_claim message aborted : Mark

pub record Wakeup : Type 0 where
  pub records : List Mark
  pub waiters : ℕ
  pub tokens : ℕ
  pub looking : ℕ
  pub signaling : ℕ
  pub phase : Phase

abbrev pub state : List Mark → (waiters tokens looking signaling : ℕ) → Phase → Wakeup
state rs w t l g p = record {
  records = rs;
  waiters = w;
  tokens = t;
  looking = l;
  signaling = g;
  phase = p;
}

-- An attempt of `recvOne`: the records it leaves, and whether it got a message. It skips what was aborted and stops
-- at an open claim.
unfoldable pub attempt : List Mark → List Mark × Bool
attempt [] = ([], false)
attempt (open_claim ∷ rs) = (open_claim ∷ rs, false)
attempt (message ∷ rs) = (rs, true)
attempt (aborted ∷ rs) = attempt rs

-- `Commit` and `Abort` of any of the open claims.
pub data Settles : List Mark → List Mark → Type 0 where
  commits : {rs : List Mark} → Settles (open_claim ∷ rs) (message ∷ rs)
  aborts : {rs : List Mark} → Settles (open_claim ∷ rs) (aborted ∷ rs)
  behind : {x : Mark} {rs rs' : List Mark} → Settles rs rs' → Settles (x ∷ rs) (x ∷ rs')

-- The steps of the senders that have committed or aborted: `wakeReceiver`.
pub data WakeStep : Wakeup → Wakeup → Type 0 where
  sees_nobody :
      {rs : List Mark} {t l g : ℕ} {p : Phase}
      → WakeStep (state rs 0 t (suc l) g p) (state rs 0 t l g p)
  sees_waiter :
      {rs : List Mark} {w t l g : ℕ} {p : Phase}
      → WakeStep (state rs (suc w) t (suc l) g p) (state rs (suc w) t l (suc g) p)
  signals :
      {rs : List Mark} {w t l g : ℕ} {p : Phase}
      → WakeStep (state rs w t l (suc g) p) (state rs w (suc t) l g p)

-- The steps of the receiver: `park` with an attempt that takes a message. One that has returned comes again.
pub data ParkStep : Wakeup → Wakeup → Type 0 where
  takes :
      {rs rest : List Mark} {w t l g : ℕ}
      → attempt rs ≡ (rest, true)
      → ParkStep (state rs w t l g attempting) (state rest w t l g attempting)
  misses :
      {rs rest : List Mark} {w t l g : ℕ}
      → attempt rs ≡ (rest, false)
      → ParkStep (state rs w t l g attempting) (state rest w t l g missed)
  announces :
      {rs : List Mark} {w t l g : ℕ}
      → ParkStep (state rs w t l g missed) (state rs (w + 1) t l g announced)
  takes_late :
      {rs rest : List Mark} {w t l g : ℕ}
      → attempt rs ≡ (rest, true)
      → ParkStep (state rs (suc w) t l g announced) (state rest w t l g attempting)
  waits :
      {rs rest : List Mark} {w t l g : ℕ}
      → attempt rs ≡ (rest, false)
      → ParkStep (state rs w t l g announced) (state rest w t l g waiting)
  wakes :
      {rs : List Mark} {w t l g : ℕ}
      → ParkStep (state rs w (suc t) l g waiting) (state rs w t l g woken)
  leaves :
      {rs : List Mark} {w t l g : ℕ}
      → ParkStep (state rs (suc w) t l g woken) (state rs w t l g attempting)

-- What can happen, in any order, from an empty ring.
pub data Reached : Wakeup → Type 0 where
  started : Reached (state [] 0 0 0 0 attempting)
  claimed :
      {s : Wakeup} → Reached s → Reached (record s { records = s.records ++ (open_claim ∷ []) })
  settled :
      {s : Wakeup} {rs : List Mark}
      → Reached s
      → Settles s.records rs
      → Reached (record s { records = rs; looking = s.looking + 1 })
  sender : {s s' : Wakeup} → Reached s → WakeStep s s' → Reached s'
  receiver : {s s' : Wakeup} → Reached s → ParkStep s s' → Reached s'

-- An attempt that misses leaves records on which the next one misses.
attempt-attempt : (rs : List Mark) → (attempt rs).1 ≡ false → (attempt (attempt rs).0).1 ≡ false
unfolding attempt
attempt-attempt [] e = refl
attempt-attempt (open_claim ∷ rs) e = refl
attempt-attempt (message ∷ rs) e = cc
attempt-attempt (aborted ∷ rs) e = attempt-attempt rs e

-- A new claim gives the receiver nothing.
attempt-claim : (rs : List Mark) → (attempt (rs ++ (open_claim ∷ []))).1 ≡ (attempt rs).1
unfolding attempt
attempt-claim [] = refl
attempt-claim (open_claim ∷ rs) = refl
attempt-claim (message ∷ rs) = refl
attempt-claim (aborted ∷ rs) = attempt-claim rs

-- A receiver between its announcement and its return is counted, and no other.
abbrev Counted : Phase → ℕ → Type 0
Counted attempting w = w ≡ 0
Counted missed w = w ≡ 0
Counted p w = w ≡ 1

-- A receiver that waits while an attempt would succeed has a token, or a sender that will give it one.
abbrev Owed : Phase → Wakeup → Type 0
Owed waiting s = (attempt s.records).1 ≡ true → 0 < s.tokens + s.looking + s.signaling
Owed p s = Unit

abbrev IsWakeup : Wakeup → Type 0
IsWakeup s = Counted s.phase s.waiters × Owed s.phase s

claimed-IsWakeup :
    (s : Wakeup) → IsWakeup s → IsWakeup (record s { records = s.records ++ (open_claim ∷ []) })
claimed-IsWakeup s h = (h.0, go s.phase h.1)
  where
    go : (p : Phase) → Owed p s → Owed p (record s { records = s.records ++ (open_claim ∷ []) })
    go attempting o = tt
    go missed o = tt
    go announced o = tt
    go waiting o = λ m. o (sym (attempt-claim s.records) ∙ m)
    go woken o = tt

settled-IsWakeup :
    (s : Wakeup) (rs : List Mark)
    → IsWakeup s
    → IsWakeup (record s { records = rs; looking = s.looking + 1 })
settled-IsWakeup s rs h = (h.0, go s.phase)
  where
    go : (p : Phase) → Owed p (record s { records = rs; looking = s.looking + 1 })
    go attempting = tt
    go missed = tt
    go announced = tt
    go waiting = λ m. omega arith
    go woken = tt

sender-IsWakeup : {s s' : Wakeup} → WakeStep s s' → IsWakeup s → IsWakeup s'
sender-IsWakeup (sees_nobody {p = attempting}) h = h
sender-IsWakeup (sees_nobody {p = missed}) h = h
sender-IsWakeup (sees_nobody {p = announced}) h = h
sender-IsWakeup (sees_nobody {p = waiting}) h = absurd (omega (arith, h.0))
sender-IsWakeup (sees_nobody {p = woken}) h = h
sender-IsWakeup (sees_waiter {p = attempting}) h = h
sender-IsWakeup (sees_waiter {p = missed}) h = h
sender-IsWakeup (sees_waiter {p = announced}) h = h
sender-IsWakeup (sees_waiter {p = waiting}) h = (h.0, λ m. omega arith)
sender-IsWakeup (sees_waiter {p = woken}) h = h
sender-IsWakeup (signals {p = attempting}) h = h
sender-IsWakeup (signals {p = missed}) h = h
sender-IsWakeup (signals {p = announced}) h = h
sender-IsWakeup (signals {p = waiting}) h = (h.0, λ m. omega arith)
sender-IsWakeup (signals {p = woken}) h = h

receiver-IsWakeup : {s s' : Wakeup} → ParkStep s s' → IsWakeup s → IsWakeup s'
receiver-IsWakeup (takes e) h = h
receiver-IsWakeup (misses e) h = h
receiver-IsWakeup announces h = (omega (arith, h.0), tt)
receiver-IsWakeup (takes_late e) h = (omega (arith, h.0), tt)
receiver-IsWakeup (waits {rs} e) h = (
  h.0,
  λ m.
      let still = attempt-attempt rs (ap (λ (x : List Mark × Bool). x.1) e) in
      let same = ap (λ (x : List Mark × Bool). (attempt x.0).1) e in cc,
)
receiver-IsWakeup wakes h = (h.0, tt)
receiver-IsWakeup leaves h = (omega (arith, h.0), tt)

Reached-IsWakeup : {s : Wakeup} → Reached s → IsWakeup s
Reached-IsWakeup started = (refl, tt)
Reached-IsWakeup (claimed {s = s} r) = claimed-IsWakeup s (Reached-IsWakeup r)
Reached-IsWakeup (settled {s = s} {rs = rs} r c) = settled-IsWakeup s rs (Reached-IsWakeup r)
Reached-IsWakeup (sender r step) = sender-IsWakeup step (Reached-IsWakeup r)
Reached-IsWakeup (receiver r step) = receiver-IsWakeup step (Reached-IsWakeup r)

-- So many steps of the senders alone.
pub data WakeSteps : ℕ → Wakeup → Wakeup → Type 0 where
  none_more : {s : Wakeup} → WakeSteps 0 s s
  step : {n : ℕ} {s s' s'' : Wakeup} → WakeStep s s' → WakeSteps n s' s'' → WakeSteps (suc n) s s''

-- The senders finish, and the receiver is woken.
pub record IsWoken (s : Wakeup) : Type 0 where
  pub count : ℕ
  pub before : Wakeup
  pub after : Wakeup
  pub senders : WakeSteps count s before
  pub wake : ParkStep before after
  pub is_woken : after.phase ≡ woken

IsWoken-owed :
    (rs : List Mark) (w t l g : ℕ) → w ≡ 1 → 0 < t + l + g → IsWoken (state rs w t l g waiting)
IsWoken-owed rs w (suc t) l g one owed = record {
  count = 0;
  before = state rs w (suc t) l g waiting;
  after = state rs w t l g woken;
  senders = none_more;
  wake = wakes;
  is_woken = refl;
}
IsWoken-owed rs w zero l (suc g) one owed = record {
  count = 1;
  before = state rs w 1 l g waiting;
  after = state rs w 0 l g woken;
  senders = step signals none_more;
  wake = wakes;
  is_woken = refl;
}
IsWoken-owed rs zero zero (suc l) zero one owed = absurd (omega (arith, one))
IsWoken-owed rs (suc w) zero (suc l) zero one owed = record {
  count = 2;
  before = state rs (suc w) 1 l 0 waiting;
  after = state rs (suc w) 0 l 0 woken;
  senders = step sees_waiter (step signals none_more);
  wake = wakes;
  is_woken = refl;
}
IsWoken-owed rs w zero zero zero one owed = absurd (omega (arith, owed))

-- What the senders leave as it is, and how many steps they have.
record Kept (n : ℕ) (s s' : Wakeup) : Type 0 where
  pub same_records : s'.records ≡ s.records
  pub same_waiters : s'.waiters ≡ s.waiters
  pub same_phase : s'.phase ≡ s.phase
  pub bounded : n + 2 * s'.looking + s'.signaling ≤ 2 * s.looking + s.signaling
  pub reached : Reached s → Reached s'

WakeStep-Kept : {s s' : Wakeup} → WakeStep s s' → Kept 1 s s'
WakeStep-Kept sees_nobody = record {
  same_records = refl;
  same_waiters = refl;
  same_phase = refl;
  bounded = omega arith;
  reached = λ r. sender r sees_nobody;
}
WakeStep-Kept sees_waiter = record {
  same_records = refl;
  same_waiters = refl;
  same_phase = refl;
  bounded = omega arith;
  reached = λ r. sender r sees_waiter;
}
WakeStep-Kept signals = record {
  same_records = refl;
  same_waiters = refl;
  same_phase = refl;
  bounded = omega arith;
  reached = λ r. sender r signals;
}

WakeSteps-Kept : {n : ℕ} {s s' : Wakeup} → WakeSteps n s s' → Kept n s s'
WakeSteps-Kept none_more = record {
  same_records = refl;
  same_waiters = refl;
  same_phase = refl;
  bounded = omega arith;
  reached = λ r. r;
}
WakeSteps-Kept (step a b) =
    let k = WakeStep-Kept a in
    let k' = WakeSteps-Kept b in
    record {
      same_records = k'.same_records ∙ k.same_records;
      same_waiters = k'.same_waiters ∙ k.same_waiters;
      same_phase = k'.same_phase ∙ k.same_phase;
      bounded = omega (arith, k.bounded, k'.bounded);
      reached = λ r. k'.reached (k.reached r);
    }

-- The receiver waits in the kernel, in a state that can be reached in which an attempt would give it a message: a
-- message is committed and no open claim is before it. Whatever steps the senders that have committed or aborted then
-- make of `wakeReceiver`, they are at most two for each that has not read `recvWaiters` and one for each that has;
-- after any number of them the event has a token or such a sender is left, and further steps of these senders end in
-- one that wakes the receiver.
pub wake_up-IsWoken :
    {rs : List Mark} {w t l g n : ℕ} {s : Wakeup}
    → Reached (state rs w t l g waiting)
    → (attempt rs).1 ≡ true
    → WakeSteps n (state rs w t l g waiting) s
    → (n ≤ 2 * l + g) × (0 < s.tokens + s.looking + s.signaling) × IsWoken s
wake_up-IsWoken {s = s} r e steps =
    let k = WakeSteps-Kept steps in
    let h = Reached-IsWakeup (k.reached r) in
    let waits_on = λ (p : Phase). Counted p s.waiters × Owed p s in
    let (one, owed) = subst waits_on k.same_phase h in
    let token = owed (ap (λ (l : List Mark). (attempt l).1) k.same_records ∙ e) in
    let woken_up = IsWoken-owed s.records s.waiters s.tokens s.looking s.signaling one token in
    (
      omega (arith, k.bounded),
      token,
      subst (λ (p : Phase). IsWoken (state s.records s.waiters s.tokens s.looking s.signaling p))
          (sym k.same_phase) woken_up,
    )
