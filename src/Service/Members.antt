-- ===== src/Service/Members.antt =====
-- Lists of ordinals: those that go down, and membership.
use go_ipc.Prelude.{
  ℕ, ◌≤◌, ◌<◌, ◌≡◌, ◌⊎◌, inl, inr, Bool, Bool-cases, true, false, ◌||◌, List, [], ◌∷◌, ◌++◌, ◌==◌,
  if_both, refl, arith,
}
use go_ipc.Service.Sessions.{remove}

-- The ordinals go down along the list, from below `n`.
abbrev pub Below : ℕ → List ℕ → Type 0
Below n [] = Unit
Below n (i ∷ is) = (i < n) × Below i is

abbrev pub member : ℕ → List ℕ → Bool
member i [] = false
member i (x ∷ xs) = (x == i) || member i xs

Below-mono : (n k : ℕ) → n ≤ k → (is : List ℕ) → Below n is → Below k is
Below-mono n k le [] h = tt
Below-mono n k le (i ∷ is) h = (omega (arith, h.0), h.1)

pub Below-remove : (i n : ℕ) (is : List ℕ) → Below n is → Below n (remove i is)
Below-remove i n [] h = tt
Below-remove i n (x ∷ is) h =
    if_both (Below n) (x == i)
      (Below-mono x n (omega (arith, h.0)) (remove i is) (Below-remove i x is h.1))
      (h.0, Below-remove i x is h.1)

rest_of : (a b : Bool) → a ≡ false → (a || b) ≡ true → b ≡ true
rest_of true b e h = absurd cc
rest_of false b e h = h

pub member-cons : (j x : ℕ) (xs : List ℕ) → member j xs ≡ true → member j (x ∷ xs) ≡ true
member-cons j x xs h = elim (x == j) as (λ b. (b || member j xs) ≡ true) [ true ↦ refl | false ↦ h ]

pub member-here : (x j : ℕ) (xs : List ℕ) → j ≡ x → member j (x ∷ xs) ≡ true
member-here x j xs e = let b : (x == j) ≡ true = ground (arith, e) in rw b refl

pub member-remove :
    (i j : ℕ) (is : List ℕ) → member j is ≡ true → (j ≡ i) ⊎ (member j (remove i is) ≡ true)
member-remove i j [] h = absurd cc
member-remove i j (x ∷ is) h = elim (Bool-cases (x == j)) [
  | inl here ↦ elim (Bool-cases (x == i)) [
    | inl gone ↦ inl (ground arith)
    | inr kept ↦ inr (rw (kept, here) refl)
  ]
  | inr there ↦ elim (member-remove i j is (rest_of (x == j) (member j is) there h)) [
    | inl e ↦ inl e
    | inr k ↦ inr (if_both (λ ys. member j ys ≡ true) (x == i) k (member-cons j x (remove i is) k))
  ]
]

pub member-append :
    (i : ℕ) (xs ys : List ℕ)
    → (member i xs ≡ true) ⊎ (member i ys ≡ true)
    → member i (xs ++ ys) ≡ true
member-append i [] ys (inl h) = absurd cc
member-append i [] ys (inr h) = h
member-append i (x ∷ xs) ys (inl h) = elim (Bool-cases (x == i)) [
  | inl e ↦ rw e refl
  | inr e ↦
      member-cons i x (xs ++ ys) (member-append i xs ys (inl (rest_of (x == i) (member i xs) e h)))
]
member-append i (x ∷ xs) ys (inr h) = member-cons i x (xs ++ ys) (member-append i xs ys (inr h))
