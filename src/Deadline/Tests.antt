-- ===== src/Deadline/Tests.antt =====
-- Tests of the deadline model.
use go_ipc.Deadline.{Deadline, new_deadline, past, set, begin}
use go_ipc.Deadline.Steps.{IsDeadline, Run, at_rest, and_then, by_set, by_begin, run_lem}

-- An operation waits, and then the deadline is set to a time that has passed.
abbrev late : Deadline
late = set past (begin new_deadline).0

late-Run : Run new_deadline late
late-Run =
    and_then _ _ _ (and_then _ _ _ (at_rest new_deadline) (by_begin new_deadline))
      (by_set past (begin new_deadline).0)

new_deadline-IsDeadline : IsDeadline new_deadline
new_deadline-IsDeadline = λ e x i. cc

run_lem_example : IsDeadline late
run_lem_example = run_lem late-Run new_deadline-IsDeadline
