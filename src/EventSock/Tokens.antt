-- ===== src/EventSock/Tokens.antt =====
-- The server loses no token, makes none up, and leaves none while a client waits.
use go_ipc.Prelude.{
  ℕ, zero, suc, ◌+◌, ◌≡◌, ◌⊎◌, inl, inr, Bool, true, false, Bool-cases, List, [], ◌∷◌, ◌++◌,
  append_assoc, length, length-append, refl, ◌∙◌, ap, arith, if◌then◌else◌,
}
use go_ipc.EventSock.{
  Server, remove, hand_tokens, hand_out, Request, wait, cancel, unknown, hang_up, cut_signal,
  signal, client, accept, shutdown,
}

-- No client waits while there are tokens.
abbrev pub IsSettled : Server → Type 0
IsSettled s = (s.tokens ≡ 0) ⊎ (s.waiting ≡ [])

hand_tokens_lem :
    (alive : ℕ → Bool) (n : ℕ) (ws : List ℕ)
    → let (t, rest, got) = hand_tokens alive n ws in (t + length got ≡ n) × ((t ≡ 0) ⊎ (rest ≡ []))
unfolding hand_tokens
hand_tokens_lem alive n [] = (omega arith, inr refl)
hand_tokens_lem alive zero (w ∷ ws) = (refl, inl refl)
hand_tokens_lem alive (suc n) (w ∷ ws) = elim (Bool-cases (alive w)) [
  | inl up ↦ let (a, b) = hand_tokens_lem alive n ws in rw up (omega (arith, a), b)
  | inr down ↦ rw down (hand_tokens_lem alive (suc n) ws)
]

-- Tokens in the server and tokens handed out.
abbrev pub balance : Server → ℕ
balance s = s.tokens + length s.given

hand_out_lem :
    (alive : ℕ → Bool) (s : Server)
    → (balance (hand_out alive s) ≡ balance s) × IsSettled (hand_out alive s)
unfolding hand_out
hand_out_lem alive s =
    let (a, b) = hand_tokens_lem alive s.tokens s.waiting in
    (omega (arith, a, length-append s.given (hand_tokens alive s.tokens s.waiting).2), b)

-- The tokens that a request brings.
abbrev pub brings : Request → ℕ
brings (signal n) = n
brings r = 0

remove-nil : (c : ℕ) (ws : List ℕ) → ws ≡ [] → (remove c ws).0 ≡ []
unfolding remove
remove-nil c ws e = rw e refl

-- One event of the server: a client connects, sends a request, or the creator shuts down. `n` tokens
-- come with it.
pub data Event : Server → ℕ → Server → Type 0 where
  by_client :
      (alive : ℕ → Bool) (c : ℕ) (r : Request) (s : Server)
      → Event s (brings r) (client alive c r s)
  by_accept : (c : ℕ) (s : Server) → Event s 0 (accept c s)
  by_shutdown : (s : Server) → Event s 0 (shutdown s)

-- A run of events; `n` tokens came in it.
pub data Run : Server → ℕ → Server → Type 0 where
  at_rest : (s : Server) → Run s 0 s
  and_then : (a b c : Server) (m n : ℕ) → Run a m b → Event b n c → Run a (m + n) c

-- `a` may become `b` when no token comes.
abbrev Keeps : Server → Server → Type 0
Keeps a b = (balance b ≡ balance a + 0) × IsSettled b

if_Keeps : (s x y : Server) (b : Bool) → Keeps s x → Keeps s y → Keeps s (if b then x else y)
if_Keeps s x y true h k = h
if_Keeps s x y false h k = k

accept_lem : (c : ℕ) (s : Server) → IsSettled s → Keeps s (accept c s)
unfolding accept
accept_lem c s h =
    if_Keeps s s (record s { clients = c ∷ s.clients }) s.closed (omega arith, h) (omega arith, h)

event_lem :
    {a b : Server} {n : ℕ} → Event a n b → IsSettled a → (balance b ≡ balance a + n) × IsSettled b
unfolding client shutdown
event_lem (by_client alive c wait s) h =
    let (a, b) = hand_out_lem alive (record s { waiting = s.waiting ++ (c ∷ []) }) in
    (omega (arith, a), b)
event_lem (by_client alive c cancel s) h =
    let (a, b) = hand_out_lem alive _ in (omega (arith, a), b)
event_lem (by_client alive c (signal n) s) h =
    let (a, b) = hand_out_lem alive (record s { tokens = s.tokens + n }) in (omega (arith, a), b)
event_lem (by_client alive c unknown s) h =
    let (a, b) = hand_out_lem alive s in (omega (arith, a), b)
event_lem (by_client alive c hang_up s) h =
    (omega arith, elim h [ inl e ↦ inl e | inr e ↦ inr (remove-nil c s.waiting e) ])
event_lem (by_client alive c cut_signal s) h = (omega arith, h)
event_lem (by_accept c s) h = accept_lem c s h
event_lem (by_shutdown s) h = (omega arith, inr refl)

-- In every run of a server, with any clients alive or not: the tokens it has and those it handed out are
-- those it had and had handed out and those that came, and whenever tokens are left no client waits.
pub tokens_lem :
    {a b : Server} {n : ℕ} → Run a n b → IsSettled a → (balance b ≡ balance a + n) × IsSettled b
tokens_lem (at_rest s) h = (omega arith, h)
tokens_lem (and_then a b c m n r e) h =
    let (p, k) = tokens_lem r h in let (q, l) = event_lem e k in (omega (arith, p, q), l)

hand_tokens-order :
    (alive : ℕ → Bool) (n : ℕ) (ws : List ℕ)
    → ((c : ℕ) → alive c ≡ true)
    → let (t, rest, got) = hand_tokens alive n ws in got ++ rest ≡ ws
unfolding hand_tokens
hand_tokens-order alive n [] up = refl
hand_tokens-order alive zero (w ∷ ws) up = refl
hand_tokens-order alive (suc n) (w ∷ ws) up =
    rw (up w) (ap (λ l. w ∷ l) (hand_tokens-order alive n ws up))

-- While every client can be written to, a round hands tokens to those that wait oldest first and passes
-- over none: those served, in order, and then those that still wait, are as before.
pub hand_out-order :
    (alive : ℕ → Bool) (s : Server)
    → ((c : ℕ) → alive c ≡ true)
    → (hand_out alive s).given ++ (hand_out alive s).waiting ≡ s.given ++ s.waiting
unfolding hand_out
hand_out-order alive s up =
    let (t, rest, got) = hand_tokens alive s.tokens s.waiting in
    append_assoc s.given got rest
    ∙ ap (λ l. s.given ++ l) (hand_tokens-order alive s.tokens s.waiting up)
