-- ===== src/Schema/Cycles.antt =====
-- `checker.cycles` of ipcgen/internal/schema/check.go: which messages contain themselves, and an order of the others.
-- A message is active while it is on the stack and done once it is in `sorted`, which has the newest first.
use go_ipc.Prelude.{
  ℕ, zero, suc, Bool, false, ◌||◌, Option, none, some, ◌+◌, List, [], ◌∷◌, ◌==◌, if◌then◌else◌,
  length,
}
use go_ipc.Schema.{FieldType, array, ref, Message}

pub record Walk : Type 0 where
  pub stack : List ℕ
  pub sorted : List Message
  pub errors : List ℕ

-- `refOf`.
abbrev pub ref_of : FieldType → Option ℕ
ref_of (ref msg) = some msg
ref_of (array len (ref msg)) = some msg
ref_of t = none

abbrev pub refs : List FieldType → List ℕ
refs [] = []
refs (f ∷ fs) = elim (ref_of f) [ none ↦ refs fs | some x ↦ x ∷ refs fs ]

abbrev pub on : ℕ → List ℕ → Bool
on x [] = false
on x (y ∷ ys) = (y == x) || on x ys

abbrev pub message_ids : List Message → List ℕ
message_ids [] = []
message_ids (m ∷ ms) = m.id ∷ message_ids ms

-- The message behind a pointer.
abbrev pub message_at : List Message → ℕ → Message
message_at [] id = record { id = id; fields = [] }
message_at (m ∷ ms) id = let rest = message_at ms id in if m.id == id then m else rest

abbrev pub pop : List ℕ → List ℕ
pop [] = []
pop (x ∷ xs) = xs

-- The calls of `visit` on a list.
unfoldable pub visit_all : (ℕ → Walk → Option Walk) → List ℕ → Walk → Option Walk
visit_all visit [] w = some w
visit_all visit (x ∷ xs) w = elim (visit x w) [ none ↦ none | some w' ↦ visit_all visit xs w' ]

unfoldable pub visit : ℕ → List Message → ℕ → Walk → Option Walk
unfolding visit_all
visit zero ms id w = none
visit (suc fuel) ms id w =
    let m = message_at ms id in
    let inner = visit_all (visit fuel ms) (refs m.fields) (record w { stack = id ∷ w.stack }) in
    if on id w.stack
    then some (record w { errors = id ∷ w.errors })
    else if on id (message_ids w.sorted)
    then some w
    else elim inner [
      | none ↦ none
      | some w' ↦ some (record w' { stack = pop w'.stack; sorted = m ∷ w'.sorted })
    ]

-- `cycles`, with fuel for a stack of all messages.
unfoldable pub cycles : List Message → Option Walk
unfolding visit visit_all
cycles ms =
    visit_all (visit (length ms + 1) ms) (message_ids ms)
      (record { stack = []; sorted = []; errors = [] })

-- `Sorted`, the oldest first.
abbrev pub oldest_first : List Message → List Message → List Message
oldest_first [] acc = acc
oldest_first (m ∷ ms) acc = oldest_first ms (m ∷ acc)
