-- ===== src/Schema/Named.antt =====
-- What it means that `fieldNames` has nothing to report, and what its tests mean.
use go_ipc.Prelude.{
  ℕ, ◌≡◌, ◌≢◌, ◌↔◌, inl, inr, Bool, true, false, Bool-cases, not, ◌||◌, List, [], ◌∷◌, refl, sym,
  ◌==◌, ==_iff, if◌then◌else◌, All,
}
use go_ipc.Schema.Parser.{Field, eq_text}
use go_ipc.Schema.Names.{
  Text, Lexicon, mem, mem_id, is_snake_name, camel, is_refused_field, field_names,
}

-- No two are the same; and none is among others.
abbrev pub Outside : {A : Type 0} → A → List A → Type 0
Outside x ys = All (λ y. x ≢ y) ys

abbrev pub Distinct : {A : Type 0} → List A → Type 0
Distinct [] = Unit
Distinct (x ∷ xs) = Outside x xs × Distinct xs

abbrev pub Fresh : {A : Type 0} → List A → List A → Type 0
Fresh seen xs = All (λ x. Outside x seen) xs × Distinct xs

pub if-nil :
    {A : Type 0} (b : Bool) (x : A) (xs : List A)
    → ((if b then x ∷ xs else xs) ≡ []) ↔ ((b ≡ false) × (xs ≡ []))
if-nil true x xs = (λ e. cc, λ e. cc)
if-nil false x xs = (λ e. (refl, e), λ e. e.1)

pub or-false : (a b : Bool) → ((a || b) ≡ false) ↔ ((a ≡ false) × (b ≡ false))
or-false true b = (λ e. cc, λ e. cc)
or-false false b = (λ e. (refl, e), λ e. e.1)

pub not-false : (b : Bool) → (not b ≡ false) ↔ (b ≡ true)
not-false true = (λ e. refl, λ e. refl)
not-false false = (λ e. cc, λ e. cc)

-- A test that is false, by what it tests.
pub untrue : {P : Type 0} (b : Bool) → (b ≡ true) ↔ P → (b ≡ false) ↔ (P → ⊥)
untrue true h = (λ e p. cc, λ n. absurd (n (h.0 refl)))
untrue false h = (λ e p. let t = h.1 p in cc, λ n. refl)

pub eq_text_iff : (x y : Text) → (eq_text x y ≡ true) ↔ (x ≡ y)
eq_text_iff [] [] = (λ e. refl, λ e. refl)
eq_text_iff [] (y ∷ ys) = (λ e. cc, λ e. cc)
eq_text_iff (x ∷ xs) [] = (λ e. cc, λ e. cc)
eq_text_iff (x ∷ xs) (y ∷ ys) = (
  λ e. elim (Bool-cases (x == y)) [
    | inl h ↦ let p = (==_iff x y).0 h in let q = (eq_text_iff xs ys).0 (rw h at e) in cc
    | inr h ↦ let bad = rw h at e in cc
  ],
  λ e.
      let p : x ≡ y = cc in
      let q : xs ≡ ys = cc in rw ((==_iff x y).1 p, (eq_text_iff xs ys).1 q) refl,
)

pub mem_iff : (x : Text) (ys : List Text) → (mem x ys ≡ false) ↔ Outside x ys
mem_iff x [] = (λ e. tt, λ o. refl)
mem_iff x (y ∷ ys) = (
  λ e.
      let (a, b) = (or-false (eq_text x y) (mem x ys)).0 e in
      ((untrue (eq_text x y) (eq_text_iff x y)).0 a, (mem_iff x ys).0 b),
  λ o.
      (or-false (eq_text x y) (mem x ys)).1
        ((untrue (eq_text x y) (eq_text_iff x y)).1 o.0, (mem_iff x ys).1 o.1),
)

pub mem_id_iff : (x : ℕ) (ys : List ℕ) → (mem_id x ys ≡ false) ↔ Outside x ys
mem_id_iff x [] = (λ e. tt, λ o. refl)
mem_id_iff x (y ∷ ys) = (
  λ e.
      let (a, b) = (or-false (x == y) (mem_id x ys)).0 e in
      ((untrue (x == y) (==_iff x y)).0 a, (mem_id_iff x ys).0 b),
  λ o.
      (or-false (x == y) (mem_id x ys)).1
        ((untrue (x == y) (==_iff x y)).1 o.0, (mem_id_iff x ys).1 o.1),
)

module _ {A : Type 0} where
  zip_new :
      (x : A) (seen xs : List A)
      → All (λ z. Outside z seen) xs
      → Outside x xs
      → All (λ z. Outside z (x ∷ seen)) xs
  zip_new x seen [] n d = tt
  zip_new x seen (z ∷ xs) n d = ((λ e. d.0 (sym e), n.0), zip_new x seen xs n.1 d.1)

  unzip_new :
      (x : A) (seen xs : List A)
      → All (λ z. Outside z (x ∷ seen)) xs
      → All (λ z. Outside z seen) xs × Outside x xs
  unzip_new x seen [] n = (tt, tt)
  unzip_new x seen (z ∷ xs) n =
      let (a, b) = unzip_new x seen xs n.1 in ((n.0.1, a), (λ e. n.0.0 (sym e), b))

  pub Fresh-step :
      (x : A) (seen xs : List A) → Fresh seen (x ∷ xs) ↔ (Outside x seen × Fresh (x ∷ seen) xs)
  Fresh-step x seen xs = (
    λ f. (f.0.0, (zip_new x seen xs f.0.1 f.1.0, f.1.1)),
    λ f. let (a, b) = unzip_new x seen xs f.1.0 in ((f.0, a), (b, f.1.1)),
  )

  pub Fresh-nil : (xs : List A) → Distinct xs → Fresh [] xs
  Fresh-nil xs d = (none_seen xs, d)
    where
      none_seen : (ys : List A) → All (λ x. Outside x []) ys
      none_seen [] = tt
      none_seen (y ∷ ys) = (tt, none_seen ys)

abbrev pub field_texts : List Field → List Text
field_texts [] = []
field_texts (f ∷ fs) = f.name ∷ field_texts fs

abbrev pub go_texts : List Field → List Text
go_texts [] = []
go_texts (f ∷ fs) = camel f.name ∷ go_texts fs

module _ (lex : Lexicon) where
  abbrev pub IsFieldName : Field → Type 0
  IsFieldName f = (is_snake_name f.name ≡ true) × (is_refused_field lex f.name ≡ false)

  module _ (f : Field) (seen gos : List Text) where
    abbrev bad : Bool
    bad =
        not (is_snake_name f.name)
        || is_refused_field lex f.name
        || mem f.name seen
        || mem (camel f.name) gos

    bad_iff : (bad ≡ false) ↔ (IsFieldName f × Outside f.name seen × Outside (camel f.name) gos)
    bad_iff = (
      λ e.
          let (abc, d) = (or-false _ _).0 e in
          let (ab, c) = (or-false _ _).0 abc in
          let (a, b) = (or-false _ _).0 ab in
          (((not-false _).0 a, b), (mem_iff f.name seen).0 c, (mem_iff (camel f.name) gos).0 d),
      λ h. (or-false _ _).1 (
        (or-false _ _).1
            ((or-false _ _).1 ((not-false _).1 h.0.0, h.0.1), (mem_iff f.name seen).1 h.1),
        (mem_iff (camel f.name) gos).1 h.2,
      ),
    )

  pub field_names_iff :
      (seen gos : List Text) (fs : List Field)
      → (field_names lex seen gos fs ≡ [])
        ↔ (All IsFieldName fs × Fresh seen (field_texts fs) × Fresh gos (go_texts fs))
  unfolding field_names
  field_names_iff seen gos [] = (λ e. (tt, (tt, tt), (tt, tt)), λ h. refl)
  field_names_iff seen gos (f ∷ fs) =
      let ih = field_names_iff (f.name ∷ seen) (camel f.name ∷ gos) fs in
      (
        λ e.
            let (b, r) = (if-nil _ _ _).0 e in
            let (ok, x, y) = (bad_iff f seen gos).0 b in
            let (oks, xs, ys) = ih.0 r in
            ((ok, oks), (Fresh-step _ _ _).1 (x, xs), (Fresh-step _ _ _).1 (y, ys)),
        λ h.
            let (x, xs) = (Fresh-step f.name seen (field_texts fs)).0 h.1 in
            let (y, ys) = (Fresh-step (camel f.name) gos (go_texts fs)).0 h.2 in
            (if-nil _ _ _).1 ((bad_iff f seen gos).1 (h.0.0, x, y), ih.1 (h.0.1, xs, ys)),
      )
