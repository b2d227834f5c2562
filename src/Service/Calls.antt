-- ===== src/Service/Calls.antt =====
-- What `Client.Call` returns is what the handler gave for that call.
use go_ipc.Prelude.{
  ℕ, ◌+◌, ◌%◌, ◌^◌, ◌≤◌, ◌<◌, ◌≡◌, Option, none, some, List, [], ◌∷◌, ◌++◌, All, ltb, leb, if_both,
  if◌then◌else◌, length, drop, refl, ap, ◌∙◌, arith,
}
use go_ipc.Errors.{Err, Result, ok, err}
use go_ipc.Ring.Reader.{Msg}
use go_ipc.Service.{
  service_reserved_min, service_seq_size, get_uint, frame, Answer, reply, failed, Complaint,
  short_request, reserved_request, reserved_reply, reply_to, answer,
}
use go_ipc.Service.Frame.{frame_lem}
use go_ipc.Service.Client.{
  Client, begin, Exchange, Event, begins, serves, takes, sent_request, served, reply_error, perform,
  perform_all,
}

-- The message carries a number of at most `n`.
pub record IsNumbered (n : ℕ) (m : Msg) : Type 0 where
  pub number : ℕ
  pub rest : List ℕ
  pub bound : number ≤ n
  pub framed : m.1 ≡ frame number rest

-- What is on its way on a channel belongs to calls up to the last one.
abbrev pub IsExchange : Exchange → Type 0
IsExchange x = All (IsNumbered x.client.seq) x.requests × All (IsNumbered x.client.seq) x.replies

pub All-append {ℓ κ} :
    {A : Type ℓ} (P : A → Type κ) (xs ys : List A) → All P xs → All P ys → All P (xs ++ ys)
All-append P [] ys h k = k
All-append P (x ∷ xs) ys h k = (h.0, All-append P xs ys h.1 k)

All-map {ℓ κ ι} :
    {A : Type ℓ} (P : A → Type κ) (Q : A → Type ι) (xs : List A)
    → ((x : A) → P x → Q x)
    → All P xs
    → All Q xs
All-map P Q [] f h = tt
All-map P Q (x ∷ xs) f h = (f x h.0, All-map P Q xs f h.1)

IsNumbered-mono : (n k : ℕ) → n ≤ k → (m : Msg) → IsNumbered n m → IsNumbered k m
IsNumbered-mono n k le m h = record {
  number = h.number;
  rest = h.rest;
  bound = omega (arith, h.bound, le);
  framed = h.framed;
}

module _ (text_of : Complaint → List ℕ) where
  reply_to-IsNumbered : (seq n : ℕ) → seq ≤ n → (a : Answer) → IsNumbered n (reply_to text_of seq a)
  unfolding reply_to
  reply_to-IsNumbered seq n le (failed text) = record {
    number = seq;
    rest = text;
    bound = le;
    framed = refl;
  }
  reply_to-IsNumbered seq n le (reply typ payload) =
      if_both (IsNumbered n) (leb service_reserved_min typ)
        (record { number = seq; rest = text_of (reserved_reply typ); bound = le; framed = refl })
        (record { number = seq; rest = payload; bound = le; framed = refl })

  -- The answer carries the number of the request.
  pub answer-IsNumbered :
      (n : ℕ) (handler : ℕ → List ℕ → Answer) (m : Msg)
      → n < 2 ^ 64
      → IsNumbered n m
      → IsNumbered n (answer text_of handler m)
  unfolding answer
  answer-IsNumbered n handler (typ, msg) small h =
      let (l, g, d) = frame_lem h.number h.rest (omega (arith, h.bound, small)) in
      let e : get_uint service_seq_size msg ≤ n =
        omega (arith, ap (get_uint service_seq_size) h.framed ∙ g, h.bound) in
      if_both (IsNumbered n) (ltb (length msg) service_seq_size)
        (record { number = 0; rest = text_of short_request; bound = omega arith; framed = refl })
        (if_both (IsNumbered n) (leb service_reserved_min typ)
          (record {
            number = get_uint service_seq_size msg;
            rest = text_of (reserved_request typ);
            bound = e;
            framed = refl;
          })
          (reply_to-IsNumbered (get_uint service_seq_size msg) n e
            (handler typ (drop service_seq_size msg))))

  -- The numbers of the calls go up, and one that was sent is the client's own.
  begin_lem :
      (send : Msg → Option Err) (typ : ℕ) (payload : List ℕ) (c : Client)
      → c.seq + 1 < 2 ^ 64
      → let t = begin send typ payload c in
        (c.seq ≤ t.0.seq) × (t.0.seq ≤ c.seq + 1) × ((seq : ℕ) → t.1 ≡ ok seq → seq ≡ t.0.seq)
  unfolding begin
  begin_lem send typ payload c h =
      let seq = (c.seq + 1) % 2 ^ 64 in
      let e : seq ≡ c.seq + 1 = omega (arith, h) in
      let P : Client × Result ℕ → Type 0 = λ t.
        (c.seq ≤ t.0.seq) × (t.0.seq ≤ c.seq + 1) × ((seq : ℕ) → t.1 ≡ ok seq → seq ≡ t.0.seq) in
      if_both P (leb service_reserved_min typ) (omega arith, omega arith, λ s eq. cc)
        (if_both P (ltb c.max_message_size (length payload + service_seq_size))
          (omega arith, omega arith, λ s eq. cc)
          (elim (send (typ, frame seq payload))
            as (λ o. P (elim o [
              | some e ↦ (record c { seq = seq }, err e)
              | none ↦ (record c { seq = seq }, ok seq)
            ])) [
              | some x ↦ (omega arith, omega arith, λ s eq. cc)
              | none ↦ (omega arith, omega arith, λ s eq. cc)
            ]))

  sent_request-IsExchange :
      (x : Exchange) (typ : ℕ) (payload : List ℕ) (t : Client × Result ℕ)
      → IsExchange x
      → x.client.seq ≤ t.0.seq
      → ((seq : ℕ) → t.1 ≡ ok seq → seq ≡ t.0.seq)
      → IsExchange (sent_request typ payload x.requests t x)
  sent_request-IsExchange x typ payload (c, ok seq) h le own =
      let up = IsNumbered-mono x.client.seq c.seq le in
      let old = All-map (IsNumbered x.client.seq) (IsNumbered c.seq) x.requests up h.0 in
      (
        All-append (IsNumbered c.seq) x.requests ((typ, frame seq payload) ∷ []) old (
          record {
            number = seq;
            rest = payload;
            bound = omega (arith, own seq refl);
            framed = refl;
          },
          tt,
        ),
        All-map (IsNumbered x.client.seq) (IsNumbered c.seq) x.replies up h.1,
      )
  sent_request-IsExchange x typ payload (c, err e) h le own =
      let up = IsNumbered-mono x.client.seq c.seq le in
      (
        All-map (IsNumbered x.client.seq) (IsNumbered c.seq) x.requests up h.0,
        All-map (IsNumbered x.client.seq) (IsNumbered c.seq) x.replies up h.1,
      )

  sent_request-seq :
      (x : Exchange) (typ : ℕ) (payload : List ℕ) (t : Client × Result ℕ)
      → (sent_request typ payload x.requests t x).client ≡ t.0
  sent_request-seq x typ payload (c, ok seq) = refl
  sent_request-seq x typ payload (c, err e) = refl

  perform-IsExchange :
      (e : Event) (x : Exchange)
      → x.client.seq + 1 < 2 ^ 64
      → IsExchange x
      → IsExchange (perform text_of e x) × ((perform text_of e x).client.seq ≤ x.client.seq + 1)
  perform-IsExchange (begins send_error typ payload) x small h =
      let (le, up, own) = begin_lem (λ m. send_error) typ payload x.client small in
      let t = begin (λ m. send_error) typ payload x.client in
      (
        sent_request-IsExchange x typ payload t h le own,
        omega (arith, ap (λ (c : Client). c.seq) (sent_request-seq x typ payload t), up),
      )
  perform-IsExchange (serves handler fault) x small h = go x.requests h.0
    where
      sent :
          (r : Msg) (rest : List Msg) (o : Option Err)
          → IsNumbered x.client.seq r
          → All (IsNumbered x.client.seq) rest
          → IsExchange (served r rest o x) × ((served r rest o x).client.seq ≤ x.client.seq + 1)
      sent r rest (some e) k l = ((l, h.1), omega arith)
      sent r rest none k l =
          ((l, All-append (IsNumbered x.client.seq) x.replies (r ∷ []) h.1 (k, tt)), omega arith)

      go :
          (ms : List Msg)
          → All (IsNumbered x.client.seq) ms
          → let y = elim ms as (λ _. Exchange) [
            | [] ↦ x
            | m ∷ rest ↦
                let r = answer text_of handler m in
                if x.is_served then served r rest (reply_error x.reply_limit fault r) x else x
          ] in
            IsExchange y × (y.client.seq ≤ x.client.seq + 1)
      go [] k = (h, omega arith)
      go (m ∷ rest) k =
          let r = answer text_of handler m in
          if_both (λ (y : Exchange). IsExchange y × (y.client.seq ≤ x.client.seq + 1)) x.is_served
            (sent r rest (reply_error x.reply_limit fault r)
              (answer-IsNumbered x.client.seq handler m (omega (arith, small)) k.0) k.1)
            (h, omega arith)
  perform-IsExchange takes x small h = go x.replies h.1
    where
      go :
          (ms : List Msg)
          → All (IsNumbered x.client.seq) ms
          → let y = elim ms as (λ _. Exchange) [
            | [] ↦ x
            | m ∷ rest ↦ record x { replies = rest }
          ] in
            IsExchange y × (y.client.seq ≤ x.client.seq + 1)
      go [] k = (h, omega arith)
      go (m ∷ rest) k = ((h.0, k.1), omega arith)

  pub perform_all-IsExchange :
      (es : List Event) (x : Exchange)
      → x.client.seq + length es < 2 ^ 64
      → IsExchange x
      → IsExchange (perform_all text_of es x)
        × ((perform_all text_of es x).client.seq ≤ x.client.seq + length es)
  perform_all-IsExchange [] x small h = (h, omega arith)
  perform_all-IsExchange (e ∷ es) x small h =
      let (k, up) = perform-IsExchange e x (omega (arith, small)) h in
      let (l, up2) = perform_all-IsExchange es (perform text_of e x) (omega (arith, small, up)) k in
      (l, omega (arith, up, up2))
