-- ===== src/Gate.antt =====
-- `enter`, `leave` and the wait of `Close` in queue.go: the gate that keeps the mapping while operations
-- use it. Each action is one atomic step of one operation or of `Close`, so that a list of actions is an
-- interleaving. Operations are numbers.
pub mod Race
mod Tests
use go_ipc.Prelude.{
  ℕ, ◌+◌, ◌-◌, Bool, true, false, Option, none, some, List, [], ◌∷◌, ltb, ◌==◌, if◌then◌else◌,
}

-- Where an operation stands: `added` is between the two lines of `enter`, `emptied` is in `leave`, after it
-- brought `active` to 0 and before it looks at `closing`.
pub data Phase : Type 0 where
  outside added inside leaving emptied : Phase

-- Where `Close` stands: `flagged` is before it looks at `active`, `released` is at the unmap.
pub data Closer : Type 0 where
  not_called flagged awaiting released : Closer

pub record Gate : Type 0 where
  pub closing : Bool
  pub active : ℕ
  pub drained : Bool
  pub closer : Closer
  pub phase : ℕ → Phase

abbrev pub put : ℕ → Phase → (ℕ → Phase) → ℕ → Phase
put i p f j = if j == i then p else f j

pub data Action : Type 0 where
  enter_add enter_load finish leave_add leave_load : (i : ℕ) → Action
  close_swap close_load close_receive : Action

unfoldable pub step : Action → Gate → Option Gate
step (enter_add i) g = elim (g.phase i) [
  | outside ↦ some (record g { active = g.active + 1; phase = put i added g.phase })
  | _ ↦ none
]
step (enter_load i) g = elim (g.phase i) [
  | added ↦ some (record g { phase = put i (if g.closing then leaving else inside) g.phase })
  | _ ↦ none
]
step (finish i) g = elim (g.phase i) [
  | inside ↦ some (record g { phase = put i leaving g.phase })
  | _ ↦ none
]
step (leave_add i) g = elim (g.phase i) [
  | leaving ↦ some (record g {
    active = g.active - 1;
    phase = put i (if g.active - 1 == 0 then emptied else outside) g.phase;
  })
  | _ ↦ none
]
step (leave_load i) g = elim (g.phase i) [
  | emptied ↦
      some (record g {
        drained = if g.closing then true else g.drained;
        phase = put i outside g.phase;
      })
  | _ ↦ none
]
step close_swap g = if g.closing then none else some (record g { closing = true; closer = flagged })
step close_load g = elim (g.closer) [
  | flagged ↦ some (record g { closer = if ltb 0 g.active then awaiting else released })
  | _ ↦ none
]
step close_receive g = elim (g.closer) [
  | awaiting ↦ if g.drained then some (record g { drained = false; closer = released }) else none
  | _ ↦ none
]

unfoldable pub run : List Action → Gate → Option Gate
run [] g = some g
run (a ∷ rest) g = elim (step a g) [ none ↦ none | some g' ↦ run rest g' ]
