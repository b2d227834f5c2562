-- ===== src/Schema/Total.antt =====
-- `Parse` of ipcgen/internal/schema/parse.go ends on every text.
use go_ipc.Prelude.{
  ℕ, zero, suc, ◌+◌, ◌≤◌, ◌<◌, ◌≡◌, ◌≢◌, true, false, ◌||◌, none, some, List, [], ◌∷◌, ◌==◌,
  if◌then◌else◌, if_cases, length, subst, arith,
}
use go_ipc.Schema.Lexer.{
  Token, unexpected_character, Parsed, good, bad, spent, is_word, word, comment, punctuation, put,
  lex,
}
use go_ipc.Schema.Parser.{Schema, parse_tokens, parse}
use go_ipc.Schema.Fuel.{Done, bind-Ends, parse_tokens-Done}

length-word : (src : List ℕ) → length (word src).1 ≤ length src
unfolding word
length-word [] = omega arith
length-word (r ∷ src) =
    elim (is_word r)
      as (λ b.
        let p : List ℕ × List ℕ = if b then (r ∷ (word src).0, (word src).1) else ([], r ∷ src) in
        length (p.1) ≤ suc (length src)) [
          | true ↦ omega (arith, length-word src)
          | false ↦ omega arith
        ]

word-shorter : (r : ℕ) (src : List ℕ) → is_word r ≡ true → length (word (r ∷ src)).1 ≤ length src
unfolding word
word-shorter r src e = rw e (length-word src)

length-comment : (src : List ℕ) → length (comment src) ≤ length src
unfolding comment
length-comment [] = omega arith
length-comment (r ∷ src) =
    elim (r == 10) as (λ b. length (if b then r ∷ src else comment src) ≤ suc (length src)) [
      | true ↦ omega arith
      | false ↦ omega (arith, length-comment src)
    ]

put-Done : (t : Token) (more : Parsed (List Token)) → Done more → Done (put t more)
put-Done t more h =
    bind-Ends (λ _. 0) (λ _. 0) 1 1 more (λ ts. good (t ∷ ts)) h (λ ts _. omega arith)

lex-Done : (fuel line col : ℕ) (src : List ℕ) → length src < fuel → Done (lex fuel line col src)
unfolding lex
lex-Done zero line col src h = absurd (omega (arith, h))
lex-Done (suc fuel) line col [] h = omega arith
lex-Done (suc fuel) line col (r ∷ src) h =
    let P : Parsed (List Token) → Type 0 = Done in
    let spaced = lex-Done fuel line (col + 1) src (omega (arith, h)) in
    if_cases P (r == 10) (λ _. put-Done _ _ (lex-Done fuel (line + 1) 1 src (omega (arith, h))))
      (λ _.
        if_cases P ((r == 32) || (r == 9) || (r == 13)) (λ _. spaced)
          (λ _.
            if_cases P (r == 35)
              (λ _. lex-Done fuel line col (comment src) (omega (arith, h, length-comment src)))
              (λ _.
                if_cases P (is_word r)
                  (λ e. put-Done _ _ (
                    lex-Done fuel line (col + length (word (r ∷ src)).0) (word (r ∷ src)).1
                      (omega (arith, h, word-shorter r src e))))
                  (λ _.
                    elim (punctuation r)
                      as (λ o. P (elim o as (λ _. Parsed (List Token)) [
                        | none ↦ bad (line, col) unexpected_character
                        | some k ↦
                            put (record { kind = k; text = r ∷ []; pos = (line, col) })
                              (lex fuel line (col + 1) src)
                      ])) [ none ↦ tt | some k ↦ put-Done _ _ spaced ]))))

-- `Parse` ends on every text: with the fuel it takes, it gives a schema or an error, and does not run out.
pub parse-total : (src : List ℕ) → parse src ≢ spent
unfolding parse
parse-total src e =
    let P : Parsed Schema → Type 0 = Done in
    subst P e (
      bind-Ends (λ _. 0) (λ _. 0) 1 1 (lex (length src + 1) 1 1 src)
        (λ ts. parse_tokens (length ts + 1) ts) (lex-Done (length src + 1) 1 1 src (omega arith))
        (λ ts _. parse_tokens-Done (length ts + 1) ts (omega arith)))
