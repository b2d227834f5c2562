-- ===== src/Schema/Orders.antt =====
-- What `cycles` goes through: the messages that are not on the stack, and the references of a message.
use go_ipc.Prelude.{
  ℕ, suc, ◌≤◌, ◌<◌, ◌≡◌, inl, inr, Bool-cases, true, false, ◌||◌, List, [], ◌∷◌, All, ◌==◌,
  if◌then◌else◌, if_both, if_cases, refl, subst, arith,
}
use go_ipc.Schema.{FieldType, scalar, string, bytes, array, ref, Message, fixed_fields}
use go_ipc.Schema.Tables.{IsIn, Contains}
use go_ipc.Schema.Cycles.{refs, on, message_ids, message_at}

-- What `types` sees to: every reference is to a message of the schema, and an array is of scalars or of messages.
abbrev pub IsResolved : List ℕ → FieldType → Type 0
IsResolved ids (ref msg) = IsIn msg ids
IsResolved ids (array len (ref msg)) = IsIn msg ids
IsResolved ids (array len (scalar k)) = Unit
IsResolved ids (array len elem) = ⊥
IsResolved ids t = Unit

abbrev pub IsResolvedMessage : List ℕ → Message → Type 0
IsResolvedMessage ids m = All (IsResolved ids) m.fields

-- How many messages are not on the stack.
abbrev pub absent : List ℕ → List Message → ℕ
absent stack [] = 0
absent stack (m ∷ ms) = if on m.id stack then absent stack ms else suc (absent stack ms)

pub on-IsIn : (x : ℕ) (ys : List ℕ) → on x ys ≡ true → IsIn x ys
on-IsIn x [] h = absurd cc
on-IsIn x (y ∷ ys) h = elim (Bool-cases (y == x)) [
  | inl e ↦ inl (ground (arith, e))
  | inr e ↦ inr (on-IsIn x ys (subst (λ b. (b || on x ys) ≡ true) e h))
]

absent-push-le :
    (id : ℕ) (stack : List ℕ) (ms : List Message) → absent (id ∷ stack) ms ≤ absent stack ms
absent-push-le id stack [] = omega arith
absent-push-le id stack (m ∷ ms) =
    let ih = absent-push-le id stack ms in
    elim (id == m.id)
      as (λ a.
        (if a || on m.id stack then absent (id ∷ stack) ms else suc (absent (id ∷ stack) ms))
        ≤ absent stack (m ∷ ms)) [
          | true ↦
              elim (on m.id stack)
                as (λ b.
                  absent (id ∷ stack) ms ≤ (if b then absent stack ms else suc (absent stack ms))) [
                    | true ↦ ih
                    | false ↦ omega (arith, ih)
                  ]
          | false ↦
              elim (on m.id stack)
                as (λ b.
                  (if b then absent (id ∷ stack) ms else suc (absent (id ∷ stack) ms))
                  ≤ (if b then absent stack ms else suc (absent stack ms))) [
                    | true ↦ ih
                    | false ↦ omega (arith, ih)
                  ]
        ]

pub absent-push :
    (id : ℕ) (stack : List ℕ) (ms : List Message)
    → IsIn id (message_ids ms)
    → on id stack ≡ false
    → absent (id ∷ stack) ms < absent stack ms
absent-push id stack [] i off = absurd i
absent-push id stack (m ∷ ms) i off =
    let le = absent-push-le id stack ms in
    elim (Bool-cases (id == m.id)) [
      | inl e ↦
          let same : id ≡ m.id = ground (arith, e) in
          let off' : on m.id stack ≡ false = subst (λ x. on x stack ≡ false) same off in
          rw (e, off') (omega (arith, le))
      | inr ne ↦ elim i [
        | inl e ↦ absurd (ground (arith, e, ne))
        | inr j ↦
            let ih = absent-push id stack ms j off in
            rw ne
              (elim (on m.id stack)
                as (λ b.
                  (if b then absent (id ∷ stack) ms else suc (absent (id ∷ stack) ms))
                  < (if b then absent stack ms else suc (absent stack ms))) [
                    | true ↦ ih
                    | false ↦ omega (arith, ih)
                  ])
      ]
    ]

pub refs-IsIn :
    (ids : List ℕ) (fs : List FieldType) → All (IsResolved ids) fs → All (λ x. IsIn x ids) (refs fs)
refs-IsIn ids [] h = tt
refs-IsIn ids (scalar k ∷ fs) h = refs-IsIn ids fs h.1
refs-IsIn ids (string ∷ fs) h = refs-IsIn ids fs h.1
refs-IsIn ids (bytes ∷ fs) h = refs-IsIn ids fs h.1
refs-IsIn ids (ref x ∷ fs) h = (h.0, refs-IsIn ids fs h.1)
refs-IsIn ids (array len (ref x) ∷ fs) h = (h.0, refs-IsIn ids fs h.1)
refs-IsIn ids (array len (scalar k) ∷ fs) h = refs-IsIn ids fs h.1
refs-IsIn ids (array len string ∷ fs) h = absurd h.0
refs-IsIn ids (array len bytes ∷ fs) h = absurd h.0
refs-IsIn ids (array len (array n e) ∷ fs) h = absurd h.0

-- What a message contains is what its references name.
pub refs-Contains :
    (ids seen : List ℕ) (fs : List FieldType)
    → All (IsResolved ids) fs
    → All (λ x. IsIn x seen) (refs fs)
    → All (Contains seen) (fixed_fields fs)
unfolding fixed_fields
refs-Contains ids seen [] h k = tt
refs-Contains ids seen (scalar s ∷ fs) h k = (tt, refs-Contains ids seen fs h.1 k)
refs-Contains ids seen (string ∷ fs) h k = refs-Contains ids seen fs h.1 k
refs-Contains ids seen (bytes ∷ fs) h k = refs-Contains ids seen fs h.1 k
refs-Contains ids seen (ref x ∷ fs) h k = (k.0, refs-Contains ids seen fs h.1 k.1)
refs-Contains ids seen (array len (ref x) ∷ fs) h k = (k.0, refs-Contains ids seen fs h.1 k.1)
refs-Contains ids seen (array len (scalar s) ∷ fs) h k = (tt, refs-Contains ids seen fs h.1 k)
refs-Contains ids seen (array len string ∷ fs) h k = absurd h.0
refs-Contains ids seen (array len bytes ∷ fs) h k = absurd h.0
refs-Contains ids seen (array len (array n e) ∷ fs) h k = absurd h.0

pub message_at-IsResolved :
    (ids : List ℕ) (ms : List Message) (id : ℕ)
    → All (IsResolvedMessage ids) ms
    → IsResolvedMessage ids (message_at ms id)
message_at-IsResolved ids [] id h = tt
message_at-IsResolved ids (m ∷ ms) id h =
    if_both (IsResolvedMessage ids) (m.id == id) h.0 (message_at-IsResolved ids ms id h.1)

pub message_at-id : (ms : List Message) (id : ℕ) → (message_at ms id).id ≡ id
message_at-id [] id = refl
message_at-id (m ∷ ms) id =
    if_cases (λ (x : Message). x.id ≡ id) (m.id == id) (λ e. ground (arith, e))
      (λ _. message_at-id ms id)
