-- ===== src/Schema/Enclosed.antt =====
-- Which message contains which, at any depth, and what the stack of `visit` of
-- ipcgen/internal/schema/check.go says of it.
use go_ipc.Prelude.{ℕ, ◌==◌, inl, inr, List, [], ◌∷◌, All, if_cases, refl, sym, subst, arith}
use go_ipc.Schema.{Message}
use go_ipc.Schema.Tables.{IsIn, IsMember}
use go_ipc.Schema.Cycles.{refs, message_ids, message_at}

abbrev pub IsPart : List Message → ℕ → ℕ → Type 0
IsPart ms x y = IsIn y (refs (message_at ms x).fields)

-- Message `x` has message `y` in it: a field or an array of it, or of a message in it.
pub data Encloses (ms : List Message) : ℕ → ℕ → Type 0 where
  directly : {x y : ℕ} → IsPart ms x y → Encloses ms x y
  further : {x y z : ℕ} → Encloses ms x y → IsPart ms y z → Encloses ms x z

-- The stack, newest first: each message is part of the one below.
abbrev pub Linked : List Message → List ℕ → Type 0
Linked ms [] = Unit
Linked ms (x ∷ []) = Unit
Linked ms (y ∷ x ∷ stack) = IsPart ms x y × Linked ms (x ∷ stack)

pub Linked-Encloses :
    (ms : List Message) (x y : ℕ) (stack : List ℕ)
    → Linked ms (y ∷ stack)
    → IsIn x stack
    → Encloses ms x y
Linked-Encloses ms x y [] h i = absurd i
Linked-Encloses ms x y (z ∷ stack) h (inl e) = subst (λ a. Encloses ms a y) (sym e) (directly h.0)
Linked-Encloses ms x y (z ∷ stack) h (inr i) = further (Linked-Encloses ms x z stack h.1 i) h.0

pub All-IsIn_at {ℓ} : (P : ℕ → Type ℓ) (xs : List ℕ) (x : ℕ) → All P xs → IsIn x xs → P x
All-IsIn_at P [] x h i = absurd i
All-IsIn_at P (y ∷ xs) x h (inl e) = subst P (sym e) h.0
All-IsIn_at P (y ∷ xs) x h (inr i) = All-IsIn_at P xs x h.1 i

pub message_at-IsMember :
    (ms : List Message) (id : ℕ) → IsIn id (message_ids ms) → IsMember (message_at ms id) ms
message_at-IsMember [] id i = absurd i
message_at-IsMember (m ∷ ms) id i =
    if_cases (λ x. IsMember x (m ∷ ms)) (m.id == id) (λ e. inl refl)
      (λ e. inr (elim i [
        | inl same ↦ absurd (ground (arith, same, e))
        | inr later ↦ message_at-IsMember ms id later
      ]))
