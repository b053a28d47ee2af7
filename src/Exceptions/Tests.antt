-- ===== src/Exceptions/Tests.antt =====
-- An addition while a list is shown.
use safe_dock.Common.{◌-◌, ◌&&◌, leb, map, if◌then◌else◌, [], ◌∷◌, List, true, Text, codes}
use safe_dock.Exceptions.{
  Exception, Event, cve_typed, scope_chosen, reason_typed, submitted, deleted, delete_pressed,
  refused, initial, step, run,
}
use safe_dock.Exceptions.Requests.{IsSent, run-IsSent}

-- `toUpperCase` on ASCII.
ascii_upper : Text → Text
ascii_upper = map (λ c. if leb 97 c && leb c 122 then c - 32 else c)

abbrev old : Exception
old = record {
  id = 4;
  cve = codes "CVE-2023-1";
  container_name = [];
  reason = [];
  expires_at = codes "2026-01-01";
  active = true;
}

-- Two additions, of which the first is refused, around a deletion.
abbrev session : List Event
session =
    cve_typed (codes " cve-2024-7 ")
    ∷ submitted
    ∷ delete_pressed 4
    ∷ refused []
    ∷ deleted true
    ∷ scope_chosen (codes "proxy")
    ∷ reason_typed (codes "no fix ")
    ∷ []

run-IsSent_example :
    let x = run ascii_upper (initial (old ∷ [])) session in
    IsSent ascii_upper x (step ascii_upper x submitted).1
run-IsSent_example = run-IsSent ascii_upper (old ∷ []) session submitted
