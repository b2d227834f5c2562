-- ===== src/Schema/Sorting.antt =====
-- `cycles` ends, and where it reports nothing its order has each message behind those that it contains.
use go_ipc.Prelude.{
  ℕ, zero, suc, ◌+◌, ◌<◌, ◌≡◌, inl, inr, Option, none, some, List, [], ◌∷◌, All, if_cases, length,
  refl, sym, ap, subst, ◌∙◌, arith,
}
use go_ipc.Schema.{Message, fixed_fields, layout}
use go_ipc.Schema.Tables.{IsIn, IsMember, Contains, IsSorted, Tabled, layout_lem}
use go_ipc.Schema.Cycles.{
  Walk, refs, on, message_ids, message_at, pop, visit_all, visit, cycles, oldest_first,
}
use go_ipc.Schema.Enclosed.{Encloses, Linked, Linked-Encloses, All-IsIn_at, message_at-IsMember}
use go_ipc.Schema.Orders.{
  IsResolvedMessage, absent, on-IsIn, absent-push, refs-IsIn, refs-Contains, message_at-IsResolved,
  message_at-id,
}

-- Newest first, each message is in front of those that it contains.
abbrev IsLined : List Message → Type 0
IsLined [] = Unit
IsLined (m ∷ ms) = All (Contains (message_ids ms)) (fixed_fields m.fields) × IsLined ms

-- A visit came back: the stack is as it was, and if nothing is reported, what was done stays done.
record Visited (ms : List Message) (w w' : Walk) : Type 0 where
  same : w'.stack ≡ w.stack
  clean : w'.errors ≡ [] → w.errors ≡ []
  lined : w'.errors ≡ [] → IsLined w.sorted → IsLined w'.sorted
  members : All (λ m. IsMember m ms) w.sorted → All (λ m. IsMember m ms) w'.sorted
  sound : All (λ x. Encloses ms x x) w.errors → All (λ x. Encloses ms x x) w'.errors
  kept : w'.errors ≡ [] → (x : ℕ) → IsIn x (message_ids w.sorted) → IsIn x (message_ids w'.sorted)

-- It came back with the messages `xs` done.
abbrev Back : List Message → List ℕ → Walk → Option Walk → Type 0
Back ms xs w none = ⊥
Back ms xs w (some w') =
    Visited ms w w' × (w'.errors ≡ [] → All (λ x. IsIn x (message_ids w'.sorted)) xs)

unmoved : (ms : List Message) (w : Walk) → Visited ms w w
unmoved ms w = record {
  same = refl;
  clean = λ e. e;
  lined = λ e l. l;
  members = λ a. a;
  sound = λ a. a;
  kept = λ e x i. i;
}

after-Back :
    (ms : List Message) (x : ℕ) (xs : List ℕ) (w w1 : Walk) (o : Option Walk)
    → Back ms (x ∷ []) w (some w1)
    → Back ms xs w1 o
    → Back ms (x ∷ xs) w o
after-Back ms x xs w w1 none b c = c
after-Back ms x xs w w1 (some w2) (v, done) (v', done') = (
  record {
    same = v'.same ∙ v.same;
    clean = λ e. v.clean (v'.clean e);
    lined = λ e l. v'.lined e (v.lined (v'.clean e) l);
    members = λ a. v'.members (v.members a);
    sound = λ a. v'.sound (v.sound a);
    kept = λ e y i. v'.kept e y (v.kept (v'.clean e) y i);
  },
  λ e. (v'.kept e x (done (v'.clean e)).0, done' e),
)

visit_all-Back :
    (ms : List Message) (f : ℕ → Walk → Option Walk) (ids stack : List ℕ)
    → ((x : ℕ) (w : Walk) → IsIn x ids → w.stack ≡ stack → Back ms (x ∷ []) w (f x w))
    → (xs : List ℕ) (w : Walk) → All (λ x. IsIn x ids) xs
    → w.stack ≡ stack
    → Back ms xs w (visit_all f xs w)
unfolding visit_all
visit_all-Back ms f ids stack h [] w i s = (unmoved ms w, λ e. tt)
visit_all-Back ms f ids stack h (x ∷ xs) w i s =
    go (f x w) (h x w i.0 s) (λ w1 t. visit_all-Back ms f ids stack h xs w1 i.1 (t ∙ s))
  where
    go :
        (o : Option Walk)
        → Back ms (x ∷ []) w o
        → ((w1 : Walk) → w1.stack ≡ w.stack → Back ms xs w1 (visit_all f xs w1))
        → Back ms (x ∷ xs) w (elim o [ none ↦ none | some w' ↦ visit_all f xs w' ])
    go none b k = b
    go (some w1) b k = after-Back ms x xs w w1 (visit_all f xs w1) b (k w1 b.0.same)

All-IsIn_self : (ids xs : List ℕ) → ((x : ℕ) → IsIn x xs → IsIn x ids) → All (λ x. IsIn x ids) xs
All-IsIn_self ids [] h = tt
All-IsIn_self ids (x ∷ xs) h = (h x (inl refl), All-IsIn_self ids xs (λ y i. h y (inr i)))

not_empty : (x : ℕ) (xs : List ℕ) → (x ∷ xs) ≡ [] → ⊥
not_empty x xs e = cc

module _ (ms : List Message) (res : All (IsResolvedMessage (message_ids ms)) ms) where
  -- The end of a visit that is no error and not done before.
  finish :
      (id : ℕ) (w : Walk) (o : Option Walk)
      → IsIn id (message_ids ms)
      → Back ms (refs (message_at ms id).fields) (record w { stack = id ∷ w.stack }) o
      → Back ms (id ∷ []) w (elim o [
        | none ↦ none
        | some w' ↦ some (record w' { stack = pop w'.stack; sorted = message_at ms id ∷ w'.sorted })
      ])
  finish id w none i b = b
  finish id w (some w') i (v, done) = (
    record {
      same = ap pop v.same;
      clean = v.clean;
      lined = λ e l. (
        refs-Contains (message_ids ms) (message_ids w'.sorted) (message_at ms id).fields
            (message_at-IsResolved (message_ids ms) ms id res) (done e),
        v.lined e l,
      );
      members = λ a. (message_at-IsMember ms id i, v.members a);
      sound = v.sound;
      kept = λ e x i. inr (v.kept e x i);
    },
    λ e. (inl (sym (message_at-id ms id)), tt),
  )

  parts : (id : ℕ) → All (λ x. IsIn x (message_ids ms)) (refs (message_at ms id).fields)
  parts id =
      refs-IsIn (message_ids ms) (message_at ms id).fields
        (message_at-IsResolved (message_ids ms) ms id res)

  visit-Back :
      (fuel id : ℕ) (w : Walk)
      → IsIn id (message_ids ms)
      → absent w.stack ms < fuel
      → Linked ms (id ∷ w.stack)
      → Back ms (id ∷ []) w (visit fuel ms id w)
  unfolding visit
  visit-Back zero id w i h linked = absurd (omega (arith, h))
  visit-Back (suc fuel) id w i h linked =
      let P = Back ms (id ∷ []) w in
      let m = message_at ms id in
      if_cases P (on id w.stack)
        (λ seen. (
          record {
            same = refl;
            clean = λ e. absurd (not_empty id w.errors e);
            lined = λ e l. absurd (not_empty id w.errors e);
            members = λ a. a;
            sound = λ a. (Linked-Encloses ms id id w.stack linked (on-IsIn id w.stack seen), a);
            kept = λ e x j. absurd (not_empty id w.errors e);
          },
          λ e. absurd (not_empty id w.errors e),
        ))
        (λ off.
          if_cases P (on id (message_ids w.sorted))
            (λ e. (unmoved ms w, λ _. (on-IsIn id (message_ids w.sorted) e, tt)))
            (λ _.
              finish id w
                (visit_all (visit fuel ms) (refs m.fields) (record w { stack = id ∷ w.stack })) i
                (visit_all-Back ms (visit fuel ms) (refs m.fields) (id ∷ w.stack)
                  (λ x w1 j s.
                    visit-Back fuel x w1 (All-IsIn_at _ (refs m.fields) x (parts id) j)
                      (subst (λ st. absent st ms < fuel) (sym s)
                        (omega (arith, h, absent-push id w.stack ms i off)))
                      (subst (λ st. Linked ms (x ∷ st)) (sym s) (j, linked)))
                  (refs m.fields) (record w { stack = id ∷ w.stack })
                  (All-IsIn_self (refs m.fields) (refs m.fields) (λ x j. j)) refl)))

absent-none : (ms : List Message) → absent [] ms ≡ length ms
absent-none [] = refl
absent-none (m ∷ ms) = ap suc (absent-none ms)

IsSorted-oldest_first :
    (ms acc : List Message)
    → IsLined ms
    → IsSorted (message_ids ms) acc
    → IsSorted [] (oldest_first ms acc)
IsSorted-oldest_first [] acc h s = s
IsSorted-oldest_first (m ∷ ms) acc h s = IsSorted-oldest_first ms (m ∷ acc) h.1 (h.0, s)

All-oldest_first :
    (P : Message → Type 0) (ms acc : List Message)
    → All P ms
    → All P acc
    → All P (oldest_first ms acc)
All-oldest_first P [] acc h k = k
All-oldest_first P (m ∷ ms) acc h k = All-oldest_first P ms (m ∷ acc) h.1 (h.0, k)

-- What `cycles` gives: an end, and, if nothing is reported, an order of all messages.
pub record Ordered (ms : List Message) (o : Option Walk) : Type 0 where
  pub walk : Walk
  pub returned : o ≡ some walk
  pub sound : All (λ x. Encloses ms x x) walk.errors
  pub sorts : walk.errors ≡ [] → IsSorted [] (oldest_first walk.sorted [])
  pub complete : walk.errors ≡ [] → All (λ x. IsIn x (message_ids walk.sorted)) (message_ids ms)
  pub lays_out : walk.errors ≡ [] → Tabled ms (layout (oldest_first walk.sorted []) [])

ordered :
    (ms : List Message) (o : Option Walk)
    → Back ms (message_ids ms) (record { stack = []; sorted = []; errors = [] }) o
    → Ordered ms o
ordered ms none b = absurd b
ordered ms (some w) (v, done) =
    let s : w.errors ≡ [] → IsSorted [] (oldest_first w.sorted []) =
      λ e. IsSorted-oldest_first w.sorted [] (v.lined e tt) tt in
    record {
      walk = w;
      returned = refl;
      sound = v.sound tt;
      sorts = s;
      complete = done;
      lays_out = λ e.
          layout_lem ms (oldest_first w.sorted []) []
            (All-oldest_first (λ m. IsMember m ms) w.sorted [] (v.members tt) tt) tt (s e);
    }

-- On messages whose references are resolved, `cycles` ends, with fuel for a stack of all messages. If it reports no
-- message that contains itself, its order has every message of the schema, each behind the messages that it
-- contains, and `layout` on that order lays each out over those before it, failing only for one that is too large
-- wherever its fields are placed.
pub cycles_lem :
    (ms : List Message) → All (IsResolvedMessage (message_ids ms)) ms → Ordered ms (cycles ms)
unfolding cycles
cycles_lem ms res = ordered ms (cycles ms) (
    visit_all-Back ms (visit (length ms + 1) ms) (message_ids ms) []
      (λ x w i s.
        visit-Back ms res (length ms + 1) x w i
          (subst (λ st. absent st ms < length ms + 1) (sym s) (omega (arith, absent-none ms)))
          (subst (λ st. Linked ms (x ∷ st)) (sym s) tt))
      (message_ids ms) (record { stack = []; sorted = []; errors = [] })
      (All-IsIn_self (message_ids ms) (message_ids ms) (λ x i. i)) refl)
