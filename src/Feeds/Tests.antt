-- ===== src/Feeds/Tests.antt =====
-- A tag is deleted while a poll is on its way; and two polls that are answered in the wrong order.
use safe_dock.Common.{◌≡◌, refl, ℕ, true, false, some, List, [], ◌∷◌}
use safe_dock.Common.Flight.{pick}
use safe_dock.App.{json, broken}
use safe_dock.Feeds.{
  same_feed, containers, Feeds, Event, polled_again, answered, fetch, set_list, receive, on_answer,
  poll, step, run,
}

-- The values are the versions of what the server keeps.
abbrev polling : Feeds ℕ
polling = record {
  authed = true;
  admin = true;
  is_refreshing = false;
  shown = λ f. some 0;
  fetches = containers ∷ [];
  changes = [];
}

abbrev served : List (Event ℕ)
served =
    polled_again
    ∷ answered 0 broken
    ∷ answered 0 (json (some 1))
    ∷ answered 0 (json (some 1))
    ∷ answered 0 (json (some 1))
    ∷ answered 0 (json (some 1))
    ∷ answered 0 (json (some 1))
    ∷ []

-- The older answer comes last and stays.
run_disordered :
    (run polling
        (polled_again ∷ answered 1 (json (some 1)) ∷ answered 0 (json (some 0)) ∷ [])).shown
      containers
    ≡ some 0
unfolding run step pick poll fetch on_answer receive set_list same_feed
run_disordered = refl
