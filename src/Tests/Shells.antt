-- ===== src/Tests/Shells.antt =====
-- A shell that says "hi", and the lines of its answer.
use shex.Prelude.{
  starts_with, true, ◌≡◌, ◌≢◌, ◌↔◌, refl, Bytes, codes, ◌++◌, [], ◌∷◌, some, if◌then◌else◌, arith,
}
use shex.Result.{ok, err, fuel_exhausted}
use shex.Shell
use shex.Shell.{
  Sh, ShellSession, done, completion_in, unit_separator, record_separator, printed_marker,
  write_line, find, position, status_at, map_option,
}
use shex.Shell.Status.{pos, parse_i32}
use shex.Shell.Completion.{Completes, completion_in_iff}
use shex.Shell.Output.{Answers, run-output, run-total}

abbrev marker : Bytes
marker = codes "SHEX-1"

abbrev completion : Bytes
completion = record_separator ∷ (codes "SHEX-1:" ++ (codes "3" ++ unit_separator ∷ b'\n' ∷ []))

-- It prints the completion line where it is asked to, and "hi" otherwise.
abbrev pub shell : Sh
shell = record {
  Process = Unit {0};
  accept = λ text p. done (p, if starts_with (codes "printf") text then completion else codes "hi");
}

abbrev pub fresh : ShellSession shell
fresh = record { process = tt; output = []; alive = true }

answering : Answers shell marker (codes "date") fresh (codes "hi") (codes "3") []
unfolding write_line starts_with printed_marker
answering = record {
  middle = record { process = tt; output = codes "hi"; alive = true };
  last = record { process = tt; output = codes "hi" ++ completion; alive = true };
  sent_command = refl;
  sent_marker = refl;
  waiting = refl;
}

run-output_example :
    Shell.run shell (λ b. b) marker (codes "date") fresh
    ≡ (ok (codes "hi", pos 3), record { process = tt; output = []; alive = true })
unfolding parse_i32 write_line answering
run-output_example =
    run-output shell (λ b. b) marker (codes "date") (codes "hi") (codes "3") [] (pos 3) fresh
      answering refl refl refl refl refl (omega arith)

run-total_example : (Shell.run shell (λ b. b) marker (codes "date") fresh).0 ≢ err fuel_exhausted
run-total_example = run-total shell (λ b. b) marker (codes "date") fresh

completion_in_iff_example :
    (completion_in (codes "hi" ++ completion) (record_separator ∷ codes "SHEX-1:")
      ≡ some (2, pos 3))
    ↔ Completes (record_separator ∷ codes "SHEX-1:") (codes "hi" ++ completion) 2 (pos 3)
completion_in_iff_example =
    completion_in_iff record_separator (codes "SHEX-1:") (codes "hi" ++ completion) 2 (pos 3)
