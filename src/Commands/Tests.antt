-- ===== src/Commands/Tests.antt =====
-- Commands of scripts/dev-data.mjs, and the theorem at one of them.
use cartyx_infrastructure.Base.{Text, text, [], ◌∷◌, false, Option, none, some, ◌≡◌, refl, text_eq}
use cartyx_infrastructure.Script.{
  Env, resolved, called, exit, throw, stop, call, after_call, and_then, for_each,
}
use cartyx_infrastructure.Commands.{
  Result, Program, Answer, Settings, spawn, in_compose, usage, programs_of, run_program, run_all,
  dispatch, run,
}
use cartyx_infrastructure.Commands.Reporting.{HasFailed, exit_status-IsReported}

-- Every program ends so.
abbrev machine : Result → Env Answer
machine result = record {
  answer = λ q log. record { result = resolved result; elapsed = 1; signalled = false };
  oversleep = λ log. record { result = resolved tt; elapsed = 0; signalled = false };
}

abbrev passed : Result
passed = record { error = none; status = some 0 }

abbrev failed : Result
failed = record { error = none; status = some 2 }

-- A program that a signal has ended.
abbrev killed : Result
killed = record { error = none; status = none }

abbrev asked : Option Text → Settings
unfolding text
asked action = record { exec_path = text "node"; action = action; argument = none }

abbrev secrets : Program
unfolding text
secrets = record {
  command = text "node";
  arguments = text "deploy/data/secrets.mjs" ∷ text "local" ∷ [];
}

-- Without an action both programs of `up` are run.
up-trace :
    (run (machine passed) (asked none) 0).1.log
    ≡ called
        (spawn (
          in_compose
            (text "up" ∷ text "-d" ∷ text "--wait" ∷ text "--wait-timeout" ∷ text "600" ∷ [])))
        (resolved passed)
      ∷ called (spawn secrets) (resolved passed)
      ∷ []
unfolding text text_eq call after_call and_then for_each programs_of run_program run_all dispatch
    asked secrets
up-trace = refl

-- What fails first ends the run.
failed-trace :
    (run (machine failed) (asked none) 0).1.log ≡ called (spawn secrets) (resolved failed) ∷ []
unfolding text text_eq call after_call and_then for_each programs_of run_program run_all dispatch
    asked secrets
failed-trace = refl

killed-outcome : (run (machine killed) (asked (some (text "kind"))) 0).0 ≡ stop (exit 1)
unfolding text text_eq call after_call and_then for_each programs_of run_program run_all dispatch
    asked
killed-outcome = refl

unknown-outcome : (run (machine passed) (asked (some (text "rm"))) 0).0 ≡ stop (throw usage)
unfolding text text_eq call after_call and_then for_each programs_of run_program run_all dispatch
    asked
unknown-outcome = refl

exit_status-IsReported_example : HasFailed 2 (run (machine failed) (asked none) 0).1.log
unfolding text text_eq call after_call and_then for_each programs_of run_program run_all dispatch
    asked secrets
exit_status-IsReported_example = exit_status-IsReported (machine failed) (asked none) 0
