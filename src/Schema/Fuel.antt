-- ===== src/Schema/Fuel.antt =====
-- The lexer and the parser never run out of the fuel that `Parse` gives them: it ends on every text.
use go_ipc.Prelude.{
  ℕ, zero, suc, ◌≤◌, ◌<◌, ◌≡◌, Bool, true, false, not, ◌&&◌, ◌||◌, none, some, List, [], ◌∷◌,
  if◌then◌else◌, if_both, if_cases, length, refl, arith,
}
use go_ipc.Schema.Lexer.{
  Kind, eof, newline, ident, number, lbrace, rbrace, lbrack, rbrack, equals, code, Token, too_large,
  not_u32, Parsed, good, bad, spent, bind,
}
use go_ipc.Schema.Parser.{
  Syntax, array, Field, Message, Schema, is_kind, eq_text, next, expect, skip_newlines, end_line,
  parse_num, parse_type, parse_fields, parse_message, package_word, message_word, parse_messages,
  parse_tokens,
}

-- It ends, and a result is smaller than `n`.
abbrev pub Ends {ℓ} : {A : Type ℓ} → (A → ℕ) → ℕ → Parsed A → Type 0
Ends size n (good x) = size x < n
Ends size n (bad at what) = Unit
Ends size n spent = ⊥

abbrev pub left {ℓ} : {A : Type ℓ} → A × List Token → ℕ
left t = length (t.1)

pub bind-Ends {ℓ κ} :
    {A : Type ℓ} {B : Type κ} (size : A → ℕ) (size' : B → ℕ) (n m : ℕ) (p : Parsed A)
    (f : A → Parsed B)
    → Ends size n p
    → ((x : A) → size x < n → Ends size' m (f x))
    → Ends size' m (bind p f)
bind-Ends size size' n m (good x) f h k = k x h
bind-Ends size size' n m (bad at what) f h k = tt
bind-Ends size size' n m spent f h k = h

pub next-shorter :
    (k : Kind) (ts : List Token)
    → 0 < code k
    → is_kind k (next ts).0 ≡ true
    → length (next ts).1 < length ts
unfolding next
next-shorter k [] h e = absurd (ground arith)
next-shorter k (t ∷ ts) h e = let b : is_kind eof t ≡ false = ground arith in rw b (omega arith)

next-le : (ts : List Token) → length (next ts).1 ≤ length ts
unfolding next
next-le [] = omega arith
next-le (t ∷ ts) =
    elim (is_kind eof t) as (λ b. length (if b then t ∷ ts else ts) ≤ suc (length ts)) [
      | true ↦ omega arith
      | false ↦ omega arith
    ]

both : (a b : Bool) → not (a && b) ≡ false → a ≡ true
both true b e = refl
both false b e = absurd cc

expect-Ends : (k : Kind) (ts : List Token) → 0 < code k → Ends left (length ts) (expect k ts)
unfolding expect
expect-Ends k ts h =
    if_cases (Ends left (length ts)) (is_kind k (next ts).0) (λ e. next-shorter k ts h e) (λ e. tt)

length-skip_newlines : (ts : List Token) → length (skip_newlines ts) ≤ length ts
unfolding skip_newlines
length-skip_newlines [] = omega arith
length-skip_newlines (t ∷ ts) =
    elim (is_kind newline t)
      as (λ b. length (if b then skip_newlines ts else t ∷ ts) ≤ suc (length ts)) [
        | true ↦ omega (arith, length-skip_newlines ts)
        | false ↦ omega arith
      ]

end_line-Ends : (ts : List Token) → Ends length (suc (length ts)) (end_line ts)
unfolding end_line
end_line-Ends ts =
    if_both (Ends length (suc (length ts))) (is_kind newline (next ts).0 || is_kind eof (next ts).0)
      (omega (arith, next-le ts)) tt

parse_type-Ends :
    (fuel : ℕ) (ts : List Token) → length ts < fuel → Ends left (length ts) (parse_type fuel ts)
unfolding parse_type
parse_type-Ends zero ts h = absurd (omega (arith, h))
parse_type-Ends (suc fuel) ts h =
    let P = Ends (left {A = Syntax}) (length ts) in
    if_cases P (is_kind ident (next ts).0) (λ e. next-shorter ident ts (omega arith) e)
      (λ _.
        if_cases P (is_kind lbrack (next ts).0)
          (λ e.
            let lt = next-shorter lbrack ts (omega arith) e in
            bind-Ends left left (length (next ts).1) (length ts) (expect number (next ts).1) _
              (expect-Ends number (next ts).1 (omega arith))
              (λ n k.
                elim (parse_num 31 n.0.text)
                  as (λ o. P (elim o as (λ _. Parsed (Syntax × List Token)) [
                    | none ↦ bad (n.0.pos) too_large
                    | some len ↦ bind (expect rbrack n.1) (λ (b, ws).
                        bind (parse_type fuel ws)
                          (λ (elem, xs). good (array len elem (next ts).0.pos, xs)))
                  ])) [
                    | none ↦ tt
                    | some len ↦
                        bind-Ends left left (length n.1) (length ts) (expect rbrack n.1) _
                          (expect-Ends rbrack n.1 (omega arith))
                          (λ b k2.
                            bind-Ends left left (length b.1) (length ts) (parse_type fuel b.1) _
                              (parse_type-Ends fuel b.1 (omega (arith, h, lt, k, k2)))
                              (λ el k3. omega (arith, lt, k, k2, k3)))
                  ]))
          (λ _. tt))

parse_fields-Ends :
    (fuel : ℕ) (ts : List Token) → length ts < fuel → Ends left (length ts) (parse_fields fuel ts)
unfolding parse_fields
parse_fields-Ends zero ts h = absurd (omega (arith, h))
parse_fields-Ends (suc fuel) ts h =
    let P = Ends (left {A = List Field}) (length ts) in
    let us = next (skip_newlines ts) in
    let le = length-skip_newlines ts in
    if_cases P (is_kind rbrace us.0)
      (λ e.
        let lt = next-shorter rbrace (skip_newlines ts) (omega arith) e in
        bind-Ends length left (suc (length us.1)) (length ts) (end_line us.1) _ (end_line-Ends us.1)
          (λ vs k. omega (arith, lt, k, le)))
      (λ _.
        if_cases P (is_kind ident us.0)
          (λ e.
            let lt = next-shorter ident (skip_newlines ts) (omega arith) e in
            bind-Ends left left (length us.1) (length ts) (parse_type fuel us.1) _
              (parse_type-Ends fuel us.1 (omega (arith, h, lt, le)))
              (λ typ k.
                bind-Ends length left (suc (length typ.1)) (length ts) (end_line typ.1) _
                  (end_line-Ends typ.1)
                  (λ ws k2.
                    bind-Ends left left (length ws) (length ts) (parse_fields fuel ws) _
                      (parse_fields-Ends fuel ws (omega (arith, h, lt, k, k2, le)))
                      (λ more k3. omega (arith, k, k2, k3, lt, le)))))
          (λ _. tt))

parse_message-Ends :
    (fuel : ℕ) (ts : List Token) → length ts < fuel → Ends left (length ts) (parse_message fuel ts)
unfolding parse_message
parse_message-Ends fuel ts h =
    let P = Ends (left {A = Message}) (length ts) in
    bind-Ends left left (length ts) (length ts) (expect ident ts) _
      (expect-Ends ident ts (omega arith))
      (λ name k1.
        bind-Ends left left (length name.1) (length ts) (expect equals name.1) _
          (expect-Ends equals name.1 (omega arith))
          (λ eq k2.
            bind-Ends left left (length eq.1) (length ts) (expect number eq.1) _
              (expect-Ends number eq.1 (omega arith))
              (λ id k3.
                elim (parse_num 32 id.0.text)
                  as (λ o. P (elim o as (λ _. Parsed (Message × List Token)) [
                    | none ↦ bad (id.0.pos) not_u32
                    | some n ↦ bind (expect lbrace id.1) (λ (b, xs).
                        bind (parse_fields fuel xs) (λ (fields, ys). good (
                          record {
                            name = name.0.text;
                            id = n;
                            pos = name.0.pos;
                            id_pos = id.0.pos;
                            fields = fields;
                          },
                          ys,
                        )))
                  ])) [
                    | none ↦ tt
                    | some n ↦
                        bind-Ends left left (length id.1) (length ts) (expect lbrace id.1) _
                          (expect-Ends lbrace id.1 (omega arith))
                          (λ b k4.
                            bind-Ends left left (length b.1) (length ts) (parse_fields fuel b.1) _
                              (parse_fields-Ends fuel b.1 (omega (arith, h, k1, k2, k3, k4)))
                              (λ fs k5. omega (arith, k1, k2, k3, k4, k5)))
                  ])))

-- It ends, whatever it gives.
abbrev pub Done {ℓ} : {A : Type ℓ} → Parsed A → Type 0
Done p = Ends (λ _. 0) 1 p

parse_messages-Done :
    (fuel : ℕ) (ts : List Token) → length ts < fuel → Done (parse_messages fuel ts)
unfolding parse_messages
parse_messages-Done zero ts h = absurd (omega (arith, h))
parse_messages-Done (suc fuel) ts h =
    let us = next (skip_newlines ts) in
    let le = length-skip_newlines ts in
    let P : Parsed (List Message) → Type 0 = Done in
    if_cases P (is_kind eof us.0) (λ _. omega arith)
      (λ _.
        if_cases P (is_kind ident us.0 && eq_text us.0.text package_word) (λ _. tt)
          (λ _.
            if_cases P (not (is_kind ident us.0 && eq_text us.0.text message_word)) (λ _. tt)
              (λ e.
                let lt =
                  next-shorter ident (skip_newlines ts) (omega arith)
                    (both (is_kind ident us.0) (eq_text us.0.text message_word) e) in
                bind-Ends left (λ _. 0) (length us.1) 1 (parse_message fuel us.1) _
                  (parse_message-Ends fuel us.1 (omega (arith, h, lt, le)))
                  (λ m k.
                    bind-Ends (λ _. 0) (λ _. 0) 1 1 (parse_messages fuel m.1) _
                      (parse_messages-Done fuel m.1 (omega (arith, h, lt, k, le)))
                      (λ more _. omega arith)))))

pub parse_tokens-Done :
    (fuel : ℕ) (ts : List Token) → length ts < fuel → Done (parse_tokens fuel ts)
unfolding parse_tokens
parse_tokens-Done fuel ts h =
    let us = next (skip_newlines ts) in
    let P : Parsed Schema → Type 0 = Done in
    if_cases P (not (is_kind ident us.0 && eq_text us.0.text package_word)) (λ _. tt)
      (λ e.
        bind-Ends left (λ _. 0) (length us.1) 1 (expect ident us.1) _
          (expect-Ends ident us.1 (omega arith))
          (λ name k.
            bind-Ends length (λ _. 0) (suc (length name.1)) 1 (end_line name.1) _
              (end_line-Ends name.1)
              (λ ws k2.
                bind-Ends (λ _. 0) (λ _. 0) 1 1 (parse_messages fuel ws) _
                  (parse_messages-Done fuel ws
                    (omega (arith, h, k, k2, length-skip_newlines ts, next-le (skip_newlines ts))))
                  (λ ms _. omega arith))))
