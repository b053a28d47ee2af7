-- ===== src/Agents/Tests.antt =====
-- A session on the page of the hosts.
use safe_dock.Common.{◌≡◌, true, false, some, List, [], ◌∷◌, codes}
use safe_dock.Agents.{
  initial, Agents, Event, Script, linux, tested, name_typed, endpoint_typed, submitted, row_pressed,
  row_tested, step, run, cell, refused,
}
use safe_dock.Agents.Rows.{watch, shows, run-cell}
use safe_dock.Agents.Requests.{IsSent, session-IsSent}

abbrev filled : List Event
filled =
    name_typed (codes " node ") ∷ endpoint_typed (codes "ssh://dock@10.0.0.5") ∷ row_pressed 3 ∷ []

session-IsSent_example : IsSent (run initial filled) (step (run initial filled) submitted).1
session-IsSent_example = session-IsSent filled submitted

abbrev tests : List Event
tests =
    row_pressed 3
    ∷ row_pressed 8
    ∷ row_tested 3 (tested false (codes "timeout"))
    ∷ submitted
    ∷ row_tested 8 (tested true [])
    ∷ []

run-cell_example : cell 3 (run initial tests) ≡ refused (codes "timeout")
unfolding watch shows cell
run-cell_example = run-cell 3 tests initial

abbrev addressed : Agents
addressed = record initial { ssh_addr = codes "10.0.0.5 " }

abbrev answer : Script
answer = record {
  script = codes "#!/bin/sh";
  platform = some linux;
  endpoint = codes "ssh://safedock@10.0.0.5";
}
