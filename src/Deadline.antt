-- ===== src/Deadline.antt =====
-- deadline.go: one direction's deadline on a Conn. The timers that run are a list of the generations they
-- were started for: `Stop` takes one out, unless it already runs, and then its `fire` comes later.
-- `canceled` lists the contexts ended with `os.ErrDeadlineExceeded`.
pub mod Steps
mod Tests
use go_ipc.Prelude.{
  ℕ, zero, suc, ◌+◌, ◌-◌, ◌^◌, ◌≡◌, Bool, true, false, Option, none, some, List, [], ◌∷◌, ◌++◌,
  ◌==◌, if◌then◌else◌,
}
use go_ipc.Words.{u64_add}

pub record Deadline : Type 0 where
  pub timer : Option ℕ
  pub gen : ℕ
  pub expired : Bool
  pub next : ℕ
  pub waiting : List ℕ
  pub canceled : List ℕ

abbrev pub new_deadline : Deadline
new_deadline = record {
  timer = none;
  gen = 0;
  expired = false;
  next = 0;
  waiting = [];
  canceled = [];
}

unfoldable pub expire_locked : Deadline → Deadline
expire_locked d = record d { expired = true; canceled = d.waiting ++ d.canceled }

-- The time that `set` gets: none, one that has passed, or one to come.
pub data Due : Type 0 where
  never : Due
  past : Due
  later : Due

unfoldable pub set : Due → Deadline → Deadline
unfolding expire_locked
set at d =
    let d' = record d { gen = u64_add d.gen 1; timer = none; expired = false } in
    elim at [ never ↦ d' | past ↦ expire_locked d' | later ↦ record d' { timer = some d'.gen } ]

-- `fire` of the timer that was started for generation `gen`.
unfoldable pub fire : ℕ → Deadline → Deadline
unfolding expire_locked
fire gen d = if gen == d.gen then expire_locked d else d

-- `begin`: none for `os.ErrDeadlineExceeded`, or the key of the new context.
unfoldable pub begin : Deadline → Deadline × Option ℕ
begin d =
    let key = u64_add d.next 1 in
    if d.expired then (d, none) else (record d { next = key; waiting = key ∷ d.waiting }, some key)

unfoldable pub delete : ℕ → List ℕ → List ℕ
delete key [] = []
delete key (k ∷ ks) = let rest = delete key ks in if k == key then rest else k ∷ rest

-- The `done` that `begin` returns.
unfoldable pub finish : ℕ → Deadline → Deadline
unfolding delete
finish key d = record d { waiting = delete key d.waiting }
