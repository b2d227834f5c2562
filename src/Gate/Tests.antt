-- ===== src/Gate/Tests.antt =====
-- Tests of the gate.
use go_ipc.Prelude.{ℕ, ◌≡◌, ◌==◌, false, some, refl, if◌then◌else◌}
use go_ipc.Gate.{Gate, Phase, inside, outside, not_called, released, run}
use go_ipc.Gate.Race.{racing, run-racing}

-- Operation 1 is inside, all others are outside.
abbrev one_inside : ℕ → Phase
one_inside i = if i == 1 then inside else outside

run-racing_example :
    (g : Gate) × (run (racing 1 2) (record {
      closing = false;
      active = 1;
      drained = false;
      closer = not_called;
      phase = one_inside;
    })
      ≡ some g)
    × (g.closer ≡ released)
    × (g.phase 2 ≡ inside)
run-racing_example = run-racing 1 2 one_inside (λ e. cc) refl refl
