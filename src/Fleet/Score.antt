-- ===== src/Fleet/Score.antt =====
-- The score of a container.
use safe_dock.Common.{ℕ, ◌+◌, ◌≡◌, arith, Bool, List, [], ◌∷◌, if◌then◌else◌, ◌==◌}
use safe_dock.Fleet.{RawContainer, Container, score_of, process, leak_count}

-- A line of the card 'Détail du Score' of the cockpit (components/ContainerDetailView.jsx,
-- `RuleRow`): whether the rule holds, and the points that the line shows as won or lost.
pub record RuleRow : Type 0 where
  pub pass : Bool
  pub pts : ℕ

-- The four lines of the card.
unfoldable pub score_breakdown : Container → List RuleRow
score_breakdown c =
    record { pass = c.tag_pinned; pts = 25 }
    ∷ record { pass = c.non_root; pts = 25 }
    ∷ record { pass = c.privileged_safe; pts = 30 }
    ∷ record { pass = leak_count c.secret_leaks == 0; pts = 20 }
    ∷ []

-- The points that a list of lines shows as lost, and as won.
abbrev pub shown_lost : List RuleRow → ℕ
shown_lost [] = 0
shown_lost (r ∷ rs) = (if r.pass then 0 else r.pts) + shown_lost rs

abbrev pub shown_won : List RuleRow → ℕ
shown_won [] = 0
shown_won (r ∷ rs) = (if r.pass then r.pts else 0) + shown_won rs

-- The points that the card shows as won are the score, but for a container with exactly one leaked
-- secret: there the card takes 20 points off and the score 10, so that the score is 10 higher. The
-- score and the points shown as lost add up to 100, and in that one case to 110.
score_breakdown-shown :
    (r : RawContainer)
    → let c = process r in
      ((process r).score
        ≡ shown_won (score_breakdown c) + (if leak_count r.secret_leaks == 1 then 10 else 0))
      × ((process r).score + shown_lost (score_breakdown c)
          ≡ (if leak_count r.secret_leaks == 1 then 110 else 100))
unfolding score_breakdown process score_of
score_breakdown-shown r = ground arith
