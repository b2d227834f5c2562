-- ===== src/Queue/Rounds.antt =====
-- `park` of queue.go returns as soon as an attempt goes through, or the wait fails.
use go_ipc.Prelude.{
  ℕ, suc, ◌≡◌, Bool, true, false, Option, none, some, refl, ap, ◌∙◌, if◌then◌else◌,
}
use go_ipc.Errors.{Err, Result, err}
use go_ipc.Queue.Park.{is_peer_gone, blocks, after_wait, park}

module _ {ℓ κ} {S : Type ℓ} {A : Type κ} (blocked : Err → Bool)
    (attempt : S → Option (S × Result A)) (wait : S → S × Option Err)
    (count_in count_out : S → S) where
  -- A round that ends in the wait: both attempts are blocked.
  pub record Round (s s' : S) (e : Option Err) : Type (ℓ ⊔ κ) where
    pub s1 : S
    pub s2 : S
    pub r1 : Result A
    pub r2 : Result A
    pub missed : attempt s ≡ some (s1, r1)
    pub is_blocked : blocks blocked r1 ≡ true
    pub missed_again : attempt (count_in s1) ≡ some (s2, r2)
    pub is_still_blocked : blocks blocked r2 ≡ true
    pub slept : wait s2 ≡ (s', e)

  -- A number of rounds, each woken by the wait.
  pub data Rounds : ℕ → S → S → Type (ℓ ⊔ κ) where
    rest : {s : S} → Rounds 0 s s
    round :
        {n : ℕ} {s s' s'' : S}
        → Round s s' none
        → Rounds n (count_out s') s''
        → Rounds (suc n) s s''

  -- How the loop ends: an attempt goes through, before the wait is announced or after it, or the wait fails. One that
  -- fails since the peer is gone leaves a last attempt.
  pub data End (s : S) : S × Result A → Type (ℓ ⊔ κ) where
    at_once : {o : S × Result A} → attempt s ≡ some o → blocks blocked o.1 ≡ false → End s o
    announced :
        {s1 s2 : S} {r1 r2 : Result A}
        → attempt s ≡ some (s1, r1)
        → blocks blocked r1 ≡ true
        → attempt (count_in s1) ≡ some (s2, r2)
        → blocks blocked r2 ≡ false
        → End s (count_out s2, r2)
    wait_failed :
        {s' : S} {e : Err}
        → Round s s' (some e)
        → is_peer_gone e ≡ false
        → End s (count_out s', err e)
    last_message :
        {s' s'' : S} {e : Err} {r : Result A}
        → Round s s' (some e)
        → is_peer_gone e ≡ true
        → attempt (count_out s') ≡ some (s'', r)
        → blocks blocked r ≡ false
        → End s (s'', r)
    nothing_left :
        {s' s'' : S} {e : Err} {r : Result A}
        → Round s s' (some e)
        → is_peer_gone e ≡ true
        → attempt (count_out s') ≡ some (s'', r)
        → blocks blocked r ≡ true
        → End s (s'', err e)

  abbrev run : ℕ → S → Option (S × Result A)
  run = park blocked attempt wait count_in count_out

  done_at_once :
      (again : S → Option (S × Result A)) (o : S × Result A) (second : Option (S × Result A))
      → blocks blocked o.1 ≡ false
      → elim second as (λ _. Option (S × Result A)) [
        | none ↦ if blocks blocked o.1 then none else some o
        | some (s2, r2) ↦
            let (s3, e) = wait s2 in
            if blocks blocked o.1
            then (if blocks blocked r2
                then after_wait blocked attempt wait count_in count_out
                    (again (count_out s3))
                    (count_out s3)
                    e
                else some (count_out s2, r2))
            else some o
      ]
        ≡ some o
  done_at_once again o none b = rw b refl
  done_at_once again o (some t) b = rw b refl

  ends : (n : ℕ) {s : S} {o : S × Result A} → End s o → run (suc n) s ≡ some o
  unfolding park after_wait
  ends n (at_once {o = o} e b) = rw (e, park) (done_at_once (run n) o (attempt (count_in o.0)) b)
  ends n (announced e b e' b') = rw (e, park, e', b, b') refl
  ends n (wait_failed r g) =
      rw
        (
          r.missed,
          park,
          r.missed_again,
          r.is_blocked,
          r.is_still_blocked,
          ap (λ t. t.1) r.slept,
          after_wait,
          ap (λ t. t.0) r.slept,
          g,
        )
        refl
  ends n (last_message r g e b) =
      rw
        (
          r.missed,
          park,
          r.missed_again,
          r.is_blocked,
          r.is_still_blocked,
          ap (λ t. t.1) r.slept,
          after_wait,
          ap (λ t. t.0) r.slept,
          g,
          e,
          b,
        )
        refl
  ends n (nothing_left r g e b) =
      rw
        (
          r.missed,
          park,
          r.missed_again,
          r.is_blocked,
          r.is_still_blocked,
          ap (λ t. t.1) r.slept,
          after_wait,
          ap (λ t. t.0) r.slept,
          g,
          e,
          b,
        )
        refl

  next-Round : (n : ℕ) {s s' : S} → Round s s' none → run (suc n) s ≡ run n (count_out s')
  unfolding park after_wait
  next-Round n r =
      rw
        (
          r.missed,
          park,
          r.missed_again,
          r.is_blocked,
          r.is_still_blocked,
          ap (λ t. t.1) r.slept,
          ap (λ t. t.0) r.slept,
        )
        refl

  -- `park` returns after finitely many rounds: when the loop is woken `n` times and then an attempt goes through or
  -- the wait fails, it gives that result, with the waiters counted back, given fuel for one round more.
  pub park-Rounds :
      {n : ℕ} {s s' : S} {o : S × Result A} → Rounds n s s' → End s' o → run (suc n) s ≡ some o
  park-Rounds rest e = ends 0 e
  park-Rounds (round {n = n} r more) e = next-Round (suc n) r ∙ park-Rounds more e
