-- ===== src/Schema/Checked.antt =====
-- What `Check` accepts is laid out.
use go_ipc.Prelude.{
  ℕ, ◌≡◌, ◌≢◌, ◌⊎◌, inl, inr, Option, none, some, List, [], ◌∷◌, ◌++◌, All, refl, sym, ap, subst,
}
use go_ipc.Schema
use go_ipc.Schema.{FieldType, Table, Layout, layout, layout_message}
use go_ipc.Schema.Tables.{IsIn, IsTable, Tabled, ids}
use go_ipc.Schema.Enclosed.{Encloses}
use go_ipc.Schema.Lexer.{Pos}
use go_ipc.Schema.Parser.{Message}
use go_ipc.Schema.Cycles.{message_ids, cycles, oldest_first}
use go_ipc.Schema.Orders.{IsResolvedMessage}
use go_ipc.Schema.Sorting.{Ordered, cycles_lem}
use go_ipc.Schema.Check.{
  types, Report, wrong, contain_themselves, too_large_section, accepted, laid_out, walked, check,
}
use go_ipc.Schema.Resolved.{places, nil-append, types-places, types-IsResolved}

-- The table of a layout has every message.
layout-ids :
    (ms : List Schema.Message) (t t' : Table) (x : ℕ)
    → layout ms t ≡ some t'
    → IsIn x (message_ids ms) ⊎ IsIn x (ids t)
    → IsIn x (ids t')
unfolding layout
layout-ids [] t t' x e (inl i) = absurd i
layout-ids [] t t' x e (inr i) =
    subst (λ (s : Table). IsIn x (ids s))
      (ap (λ (o : Option Table). elim o [ some s ↦ s | none ↦ [] ]) e) i
layout-ids (m ∷ ms) t t' x e i = go (layout_message t m) e (λ l. layout-ids ms ((m.id, l) ∷ t) t' x)
  where
    go :
        (o : Option Layout)
        → elim o as (λ _. Option Table) [ none ↦ none | some l ↦ layout ms ((m.id, l) ∷ t) ]
          ≡ some t'
        → ((l : Layout)
            → layout ms ((m.id, l) ∷ t) ≡ some t'
            → IsIn x (message_ids ms) ⊎ IsIn x (ids ((m.id, l) ∷ t))
            → IsIn x (ids t'))
        → IsIn x (ids t')
    go none e k = absurd cc
    go (some l) e k = k l e (elim i [
      | inl j ↦ elim j [ inl same ↦ inr (inl same) | inr later ↦ inl later ]
      | inr j ↦ inr (inr j)
    ])

oldest_first-IsIn :
    (x : ℕ) (ms acc : List Schema.Message)
    → IsIn x (message_ids ms) ⊎ IsIn x (message_ids acc)
    → IsIn x (message_ids (oldest_first ms acc))
oldest_first-IsIn x [] acc (inl i) = absurd i
oldest_first-IsIn x [] acc (inr i) = i
oldest_first-IsIn x (m ∷ ms) acc (inl (inl e)) = oldest_first-IsIn x ms (m ∷ acc) (inr (inl e))
oldest_first-IsIn x (m ∷ ms) acc (inl (inr i)) = oldest_first-IsIn x ms (m ∷ acc) (inl i)
oldest_first-IsIn x (m ∷ ms) acc (inr i) = oldest_first-IsIn x ms (m ∷ acc) (inr (inr i))

-- The errors before `cycles`.
abbrev pub errors_of : List Pos → List Message → List Pos
errors_of names_errors ms = names_errors ++ (types ms 0 ms).1

-- What `Check` promises of its answer, over the messages as `types` resolves them.
abbrev pub Approved : List Pos → List Message → Option Report → Type 0
Approved errs ms none = ⊥
Approved errs ms (some (wrong found)) = (found ≡ errors_of errs ms) × (found ≢ [])
Approved errs ms (some (contain_themselves found)) =
    (errors_of errs ms ≡ []) × All (λ x. Encloses (types ms 0 ms).0 x x) found × (found ≢ [])
Approved errs ms (some too_large_section) = (errors_of errs ms ≡ []) × Tabled (types ms 0 ms).0 none
Approved errs ms (some (accepted t)) =
    (errors_of errs ms ≡ []) × IsTable (types ms 0 ms).0 t × All (λ i. IsIn i (ids t)) (places 0 ms)

All-IsIn :
    (ms : List Schema.Message) (t : Table) (sorted : List Schema.Message) (xs : List ℕ)
    → layout (oldest_first sorted []) [] ≡ some t
    → All (λ x. IsIn x (message_ids sorted)) xs
    → All (λ i. IsIn i (ids t)) xs
All-IsIn ms t sorted [] e h = tt
All-IsIn ms t sorted (x ∷ xs) e h = (
  layout-ids (oldest_first sorted []) [] t x e (inl (oldest_first-IsIn x sorted [] (inl h.0))),
  All-IsIn ms t sorted xs e h.1,
)

walked-Approved :
    (errs : List Pos) (ms : List Message)
    → errors_of errs ms ≡ []
    → Ordered (types ms 0 ms).0 (cycles (types ms 0 ms).0)
    → Approved errs ms (walked (cycles (types ms 0 ms).0))
walked-Approved errs ms none_before o =
    subst (λ c. Approved errs ms (walked c)) (sym o.returned) (go o.walk.errors refl)
  where
    tabled :
        (sorted : List Schema.Message) (l : Option Table)
        → layout (oldest_first sorted []) [] ≡ l
        → Tabled (types ms 0 ms).0 l
        → All (λ x. IsIn x (message_ids sorted)) (message_ids (types ms 0 ms).0)
        → Approved errs ms (some (laid_out l))
    tabled sorted none e h k = (none_before, h)
    tabled sorted (some t) e h k = (
      none_before,
      h,
      subst (λ xs. All (λ i. IsIn i (ids t)) xs) (types-places ms 0 ms)
          (All-IsIn (types ms 0 ms).0 t sorted (message_ids (types ms 0 ms).0) e k),
    )

    go :
        (found : List ℕ)
        → o.walk.errors ≡ found
        → Approved errs ms (elim found as (λ _. Option Report) [
          | x ∷ xs ↦ some (contain_themselves (x ∷ xs))
          | [] ↦ some (laid_out (layout (oldest_first o.walk.sorted []) []))
        ])
    go (x ∷ xs) e =
        (none_before, subst (λ l. All (λ y. Encloses (types ms 0 ms).0 y y) l) e o.sound, λ p. cc)
    go [] e =
        tabled o.walk.sorted (layout (oldest_first o.walk.sorted []) []) refl (o.lays_out e)
          (o.complete e)

-- `Check` ends on every schema that the parser can give, whatever the pass over the names reports. It reports errors at
-- positions exactly when that pass or `types` does, and reports theirs. Otherwise a message that it says contains itself
-- is in itself, at some depth; when it finds the section of a message too large, that is one of the schema, whose fixed
-- fields, over layouts of the messages that it contains, end behind the largest size wherever they are placed; and when
-- it accepts, there is a layout for every message of the schema, and each layout is that of the fixed fields of the
-- message of its place, over layouts of the messages that it contains.
pub check_lem :
    (names_errors : List Pos) (ms : List Message) → Approved names_errors ms (check names_errors ms)
unfolding check
check_lem names_errors ms = go (names_errors ++ (types ms 0 ms).1) refl
  where
    go :
        (errs : List Pos)
        → names_errors ++ (types ms 0 ms).1 ≡ errs
        → Approved names_errors ms (elim errs as (λ _. Option Report) [
          | e ∷ es ↦ some (wrong (e ∷ es))
          | [] ↦ walked (cycles (types ms 0 ms).0)
        ])
    go (x ∷ xs) e = (sym e, λ p. cc)
    go [] e =
        let (a, b) = nil-append names_errors (types ms 0 ms).1 e in
        walked-Approved names_errors ms e (
          cycles_lem (types ms 0 ms).0 (
            subst (λ xs. All (IsResolvedMessage xs) (types ms 0 ms).0) (sym (types-places ms 0 ms))
              (types-IsResolved ms 0 ms b)))
