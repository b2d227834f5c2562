-- ===== src/Deadline/Steps.antt =====
-- What runs of the operations of a deadline keep, in any order.
use go_ipc.Prelude.{
  ℕ, ◌+◌, ◌^◌, ◌≤◌, ◌<◌, ◌≡◌, ◌⊎◌, inl, inr, Bool, true, false, Bool-cases, Option, List, [], ◌∷◌,
  ◌++◌, refl, arith, ◌==◌, if◌then◌else◌,
}
use go_ipc.Words.{u64_add}
use go_ipc.Deadline.{
  Deadline, Due, never, past, later, expire_locked, set, fire, begin, delete, finish,
}

-- `x` is in the list.
abbrev pub IsIn : ℕ → List ℕ → Type 0
IsIn x [] = ⊥
IsIn x (y ∷ ys) = (x ≡ y) ⊎ IsIn x ys

IsIn-append : (x : ℕ) (ys zs : List ℕ) → IsIn x ys → IsIn x (ys ++ zs)
IsIn-append x [] zs h = absurd h
IsIn-append x (y ∷ ys) zs (inl e) = inl e
IsIn-append x (y ∷ ys) zs (inr h) = inr (IsIn-append x ys zs h)

if_sub :
    (x y : ℕ) (b : Bool) (rest ys : List ℕ)
    → (IsIn x rest → IsIn x ys)
    → IsIn x (if b then rest else y ∷ rest)
    → IsIn x (y ∷ ys)
if_sub x y true rest ys h i = inr (h i)
if_sub x y false rest ys h (inl e) = inl e
if_sub x y false rest ys h (inr i) = inr (h i)

delete_sub : (x key : ℕ) (ys : List ℕ) → IsIn x (delete key ys) → IsIn x ys
unfolding delete
delete_sub x key [] h = h
delete_sub x key (y ∷ ys) h = if_sub x y (y == key) (delete key ys) ys (delete_sub x key ys) h

-- One call on a deadline.
pub data Step : Deadline → Deadline → Type 0 where
  by_set : (at : Due) (d : Deadline) → Step d (set at d)
  by_fire : (gen : ℕ) (d : Deadline) → Step d (fire gen d)
  by_begin : (d : Deadline) → Step d (begin d).0
  by_finish : (key : ℕ) (d : Deadline) → Step d (finish key d)

pub data Run : Deadline → Deadline → Type 0 where
  at_rest : (d : Deadline) → Run d d
  and_then : (a b c : Deadline) → Run a b → Step b c → Run a c

-- While the deadline is expired, every operation that waits has been ended.
abbrev pub IsDeadline : Deadline → Type 0
IsDeadline d = d.expired ≡ true → (x : ℕ) → IsIn x d.waiting → IsIn x d.canceled

begin_lem :
    (timer : Option ℕ) (gen : ℕ) (expired : Bool) (next : ℕ) (waiting canceled : List ℕ)
    → let d : Deadline = record {
      timer = timer;
      gen = gen;
      expired = expired;
      next = next;
      waiting = waiting;
      canceled = canceled;
    } in
      IsDeadline d → IsDeadline (begin d).0
unfolding begin
begin_lem timer gen true next waiting canceled h = h
begin_lem timer gen false next waiting canceled h = λ e x i. cc

step_lem : {a b : Deadline} → Step a b → IsDeadline a → IsDeadline b
unfolding set fire begin finish expire_locked
step_lem (by_set never d) h = λ e x i. cc
step_lem (by_set past d) h = λ e x i. IsIn-append x d.waiting d.canceled i
step_lem (by_set later d) h = λ e x i. cc
step_lem (by_fire gen d) h = elim (Bool-cases (gen == d.gen)) [
  | inl now ↦ rw now (λ e x i. IsIn-append x d.waiting d.canceled i)
  | inr stale ↦ rw stale h
]
step_lem (by_begin d) h = begin_lem d.timer d.gen d.expired d.next d.waiting d.canceled h
step_lem (by_finish key d) h = λ e x i. h e x (delete_sub x key d.waiting i)

-- In every run from a deadline that keeps it, each operation that waits while the deadline is expired
-- has been ended with the deadline's error: none is left to wait for ever.
pub run_lem : {a b : Deadline} → Run a b → IsDeadline a → IsDeadline b
run_lem (at_rest d) h = h
run_lem (and_then a b c r s) h = step_lem s (run_lem r h)

-- A timer that an earlier `set` started, and that fires after it was replaced, changes nothing.
pub stale-fire :
    (at : Due) (d : Deadline) (gen : ℕ)
    → gen ≤ d.gen
    → d.gen + 1 < 2 ^ 64
    → fire gen (set at d) ≡ set at d
unfolding fire set
stale-fire at d gen old nowrap =
    let e : (gen == u64_add d.gen 1) ≡ false = ground arith in
    elim at as (λ t. fire gen (set t d) ≡ set t d) [
      | never ↦ rw e refl
      | past ↦ rw e refl
      | later ↦ rw e refl
    ]
