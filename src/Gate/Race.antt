-- ===== src/Gate/Race.antt =====
-- An interleaving in which `Close` goes on while an operation is inside.
use go_ipc.Prelude.{ℕ, ◌≡◌, ◌≢◌, true, false, some, List, [], ◌∷◌, refl, arith, ◌==◌}
use go_ipc.Gate.{
  Phase, outside, added, inside, leaving, emptied, not_called, released, Gate, put, Action,
  enter_add, enter_load, finish, leave_add, leave_load, close_swap, close_load, close_receive, step,
  run,
}

-- `a` brings the count to 0; before it looks at `closing`, `b` enters and `Close` starts.
abbrev pub racing : ℕ → ℕ → List Action
racing a b =
    finish a
    ∷ leave_add a
    ∷ enter_add b
    ∷ enter_load b
    ∷ close_swap
    ∷ close_load
    ∷ leave_load a
    ∷ close_receive
    ∷ []

-- Whenever an operation `a` is the only one, and `b` is another, they may be interleaved with `Close` so
-- that `Close` comes to the unmap while `b` is inside.
pub run-racing :
    (a b : ℕ) (f : ℕ → Phase)
    → a ≢ b
    → f a ≡ inside
    → f b ≡ outside
    → (g : Gate) × (run
          (racing a b)
          (record { closing = false; active = 1; drained = false; closer = not_called; phase = f })
        ≡ some g)
      × (g.closer ≡ released)
      × (g.phase b ≡ inside)
unfolding run step
run-racing a b f ne fa fb =
    let aa : (a == a) ≡ true = ground arith in
    let bb : (b == b) ≡ true = ground arith in
    let ab : (a == b) ≡ false = ground (arith, ne) in
    let ba : (b == a) ≡ false = ground (arith, ne) in
    (
      record {
        closing = true;
        active = 1;
        drained = false;
        closer = released;
        phase = put a outside (put b inside (put b added (put a emptied (put a leaving f))));
      },
      rw (fa, aa, ba, fb, bb, ab, run, step, aa) refl,
      refl,
      rw (ba, bb) refl,
    )
