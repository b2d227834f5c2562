-- ===== src/Queue/Park.antt =====
-- `park` of queue.go, over any state. `blocked` is the test for the error to wait on, `wait` is `ev.Wait`, with
-- whatever other goroutines and processes do meanwhile; `count_in` and `count_out` are the additions to the
-- waiters. An attempt that is `none` is one whose own loop ran out of fuel.
use go_ipc.Prelude.{ℕ, zero, suc, Bool, true, false, Option, none, some, if◌then◌else◌}
use go_ipc.Errors.{Err, Result, ok, err, peer_gone}

abbrev pub is_peer_gone : Err → Bool
is_peer_gone peer_gone = true
is_peer_gone e = false

abbrev pub blocks {ℓ} : {A : Type ℓ} → (Err → Bool) → Result A → Bool
blocks blocked (ok a) = false
blocks blocked (err e) = blocked e

module _ {ℓ κ} {S : Type ℓ} {A : Type κ} (blocked : Err → Bool)
    (attempt : S → Option (S × Result A)) (wait : S → S × Option Err)
    (count_in count_out : S → S) where
  -- After the wait: `again` is the rest of the loop.
  unfoldable pub after_wait : Option (S × Result A) → S → Option Err → Option (S × Result A)
  after_wait again s none = again
  after_wait again s (some e) =
      if is_peer_gone e
      then elim (attempt s) [
        | none ↦ none
        | some (s', r) ↦ if blocks blocked r then some (s', err e) else some (s', r)
      ]
      else some (s, err e)

  unfoldable pub park : ℕ → S → Option (S × Result A)
  unfolding after_wait
  park zero s = none
  park (suc fuel) s = elim (attempt s) [
    | none ↦ none
    | some (s1, r1) ↦ elim (attempt (count_in s1)) [
      | none ↦ if blocks blocked r1 then none else some (s1, r1)
      | some (s2, r2) ↦
          let (s3, e) = wait s2 in
          let again = park fuel (count_out s3) in
          if blocks blocked r1
          then (if blocks blocked r2
              then after_wait again (count_out s3) e
              else some (count_out s2, r2))
          else some (s1, r1)
    ]
  ]
