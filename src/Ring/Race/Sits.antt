-- ===== src/Ring/Race/Sits.antt =====
-- Where the records of a ring lie, by cursor, and the messages among them.
use go_ipc.Prelude.{
  ℕ, ◌+◌, ◌≤◌, ◌<◌, ◌≡◌, ◌≢◌, ◌⊎◌, inl, inr, true, false, List, [], ◌∷◌, ◌++◌, append_assoc, refl,
  sym, ◌∙◌, ap, subst, arith,
}
use go_ipc.Ring.Records.{Record, blank, claimed, filled, message, padding, span}
use go_ipc.Ring.Recovery.Reclaim.{is_open}
use go_ipc.Ring.Replace.{at_end}
use go_ipc.Ring.Race.{Stamped}

-- The record `x` lies at cursor `c`, in records that start at `h`.
abbrev pub Sits : ℕ → List Record → ℕ → Record → Type 0
Sits h [] c x = ⊥
Sits h (y ∷ ys) c x = ((c ≡ h) × (y ≡ x)) ⊎ Sits (h + span y) ys c x

-- A record starts or ends at cursor `c`.
abbrev pub Bounds : ℕ → List Record → ℕ → Type 0
Bounds h [] c = c ≡ h
Bounds h (y ∷ ys) c = (c ≡ h) ⊎ Bounds (h + span y) ys c

-- The messages that are committed, with their cursors.
abbrev pub stamp : ℕ → Record → List Stamped
stamp h (message typ payload) = (h, (typ, payload)) ∷ []
stamp h (blank size) = []
stamp h (claimed len typ) = []
stamp h (filled typ payload) = []
stamp h (padding len) = []

abbrev pub stamped : ℕ → List Record → List Stamped
stamped h [] = []
stamped h (x ∷ xs) = stamp h x ++ stamped (h + span x) xs

pub Sits-le : (h c : ℕ) (xs : List Record) (x : Record) → Sits h xs c x → h ≤ c
Sits-le h c [] x s = elim s [ ]
Sits-le h c (y ∷ ys) x (inl s) = omega (arith, s.0)
Sits-le h c (y ∷ ys) x (inr s) = omega (arith, Sits-le (h + span y) c ys x s)

-- The records before and behind it.
pub Sits-split :
    (h c : ℕ) (xs : List Record) (x : Record)
    → Sits h xs c x
    → (ys zs : List Record) × (xs ≡ ys ++ x ∷ zs) × (at_end h ys ≡ c)
unfolding at_end
Sits-split h c [] x s = elim s [ ]
Sits-split h c (y ∷ ys) x (inl s) = ([], ys, ap (λ (z : Record). z ∷ ys) s.1, sym s.0)
Sits-split h c (y ∷ ys) x (inr s) =
    let (a, b, e, k) = Sits-split (h + span y) c ys x s in
    (y ∷ a, b, ap (λ (l : List Record). y ∷ l) e, k)

pub Sits-append :
    (h c : ℕ) (xs ys : List Record) (x : Record) → Sits h xs c x → Sits h (xs ++ ys) c x
Sits-append h c [] ys x s = elim s [ ]
Sits-append h c (y ∷ xs) ys x (inl s) = inl s
Sits-append h c (y ∷ xs) ys x (inr s) = inr (Sits-append (h + span y) c xs ys x s)

pub Sits-at_end : (h : ℕ) (xs ys : List Record) (x : Record) → Sits h (xs ++ x ∷ ys) (at_end h xs) x
unfolding at_end
Sits-at_end h [] ys x = inl (refl, refl)
Sits-at_end h (y ∷ xs) ys x = inr (Sits-at_end (h + span y) xs ys x)

pub Sits-there :
    (h : ℕ) (xs ys : List Record) (c : ℕ) (x y : Record)
    → c ≡ at_end h xs
    → y ≡ x
    → Sits h (xs ++ x ∷ ys) c y
Sits-there h xs ys c x y e k =
    subst (λ (z : Record). Sits h (xs ++ x ∷ ys) c z) (sym k)
      (subst (λ (d : ℕ). Sits h (xs ++ x ∷ ys) d x) (sym e) (Sits-at_end h xs ys x))

-- Another record takes the place of one of the same span.
module _ (x y : Record) (e : span y ≡ span x) where
  pub Sits-replace :
      (h d : ℕ) (xs ys : List Record) (z : Record)
      → d ≢ at_end h xs
      → Sits h (xs ++ x ∷ ys) d z
      → Sits h (xs ++ y ∷ ys) d z
  unfolding at_end
  Sits-replace h d [] ys z ne (inl s) = absurd (ne s.0)
  Sits-replace h d [] ys z ne (inr s) = inr (rw e s)
  Sits-replace h d (a ∷ xs) ys z ne (inl s) = inl s
  Sits-replace h d (a ∷ xs) ys z ne (inr s) = inr (Sits-replace (h + span a) d xs ys z ne s)

  pub Bounds-replace :
      (h c : ℕ) (xs ys : List Record) → Bounds h (xs ++ x ∷ ys) c → Bounds h (xs ++ y ∷ ys) c
  Bounds-replace h c [] ys (inl s) = inl s
  Bounds-replace h c [] ys (inr s) = inr (rw e s)
  Bounds-replace h c (a ∷ xs) ys (inl s) = inl s
  Bounds-replace h c (a ∷ xs) ys (inr s) = inr (Bounds-replace (h + span a) c xs ys s)

pub Bounds-append : (h c : ℕ) (xs ys : List Record) → Bounds h xs c → Bounds h (xs ++ ys) c
Bounds-append h c [] [] s = s
Bounds-append h c [] (y ∷ ys) s = inl s
Bounds-append h c (x ∷ xs) ys (inl s) = inl s
Bounds-append h c (x ∷ xs) ys (inr s) = inr (Bounds-append (h + span x) c xs ys s)

pub Bounds-start : (h : ℕ) (xs : List Record) → Bounds h xs h
Bounds-start h [] = refl
Bounds-start h (x ∷ xs) = inl refl

pub Bounds-end : (h : ℕ) (xs : List Record) → Bounds h xs (at_end h xs)
unfolding at_end
Bounds-end h [] = refl
Bounds-end h (x ∷ xs) = inr (Bounds-end (h + span x) xs)

pub Bounds-le : (h c : ℕ) (xs : List Record) → Bounds h xs c → h ≤ c
Bounds-le h c [] s = omega (arith, s)
Bounds-le h c (x ∷ xs) (inl s) = omega (arith, s)
Bounds-le h c (x ∷ xs) (inr s) = omega (arith, Bounds-le (h + span x) c xs s)

-- Behind the first record.
pub Bounds-pass :
    (h c : ℕ) (x : Record) (xs : List Record)
    → h < c
    → Bounds h (x ∷ xs) c
    → Bounds (h + span x) xs c
Bounds-pass h c x xs lt (inl s) = absurd (omega (arith, s, lt))
Bounds-pass h c x xs lt (inr s) = s

pub Sits-pass :
    (h c : ℕ) (x : Record) (xs : List Record) (y : Record)
    → is_open x ≡ false
    → is_open y ≡ true
    → Sits h (x ∷ xs) c y
    → Sits (h + span x) xs c y
Sits-pass h c x xs y shut up (inl s) = let e : is_open x ≡ is_open y = ap is_open s.1 in cc
Sits-pass h c x xs y shut up (inr s) = s

pub stamped-append :
    (h : ℕ) (xs ys : List Record) → stamped h (xs ++ ys) ≡ stamped h xs ++ stamped (at_end h xs) ys
unfolding at_end
stamped-append h [] ys = refl
stamped-append h (x ∷ xs) ys =
    ap (λ (l : List Stamped). stamp h x ++ l) (stamped-append (h + span x) xs ys)
    ∙ sym (append_assoc (stamp h x) _ _)
