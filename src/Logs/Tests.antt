-- ===== src/Logs/Tests.antt =====
-- A text in three chunks, and a publisher of two entries at most.
use nouva_agent.Prelude.{◌≡◌, some, none, List, [], ◌∷◌, arith, false}
use nouva_agent.Logs.Lines.{feed}
use nouva_agent.Logs.Lines.Laws.{lines_of, joined, feed_refines}
use nouva_agent.Logs.Publisher.{
  Limits, Entry, stdout, exit, Action, emits, fires, closes, run, create,
}
use nouva_agent.Logs.Publisher.Steps.{forwarded}
use nouva_agent.Logs.Publisher.Laws.{expected, run_refines}
use nouva_agent.Logs.Publisher.Tidy.{IsTidy, run-IsTidy}

feed_refines_example :
    feed ("one\r" ∷ "\ntwo" ∷ "\nthree" ∷ []) (some (record { lines = []; pending = "" }))
    ≡ some (record { lines = lines_of (joined ("one\r" ∷ "\ntwo" ∷ "\nthree" ∷ [])); pending = "" })
feed_refines_example = feed_refines ("one\r" ∷ "\ntwo" ∷ "\nthree" ∷ [])

abbrev limits : Limits
limits = record { flush_batch_size = 2; max_entries = 2; max_line_length = 10 }

abbrev output : Entry
output = record {
  kind = stdout;
  line = some "a line of output";
  timestamp = 1;
  stage = none;
  percent = none;
  message = none;
  exit_code = none;
  success = none;
}

abbrev ending : Entry
ending = record output { kind = exit; line = none; exit_code = some 0 }

abbrev actions : List Action
actions =
    emits 1 output
    ∷ fires
    ∷ emits 2 output
    ∷ emits 3 output
    ∷ emits 4 output
    ∷ emits 5 ending
    ∷ closes
    ∷ []

run_refines_example : forwarded (run limits actions create) ≡ expected limits 0 false actions
run_refines_example = run_refines limits actions

run-IsTidy_example : IsTidy limits (run limits actions create)
run-IsTidy_example = run-IsTidy limits actions (ground arith)
