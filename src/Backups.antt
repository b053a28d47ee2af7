-- ===== src/Backups.antt =====
-- The settings of the backups in internal/web/frontend/src/components/SettingsView.jsx: `loadBackups`
-- and `saveBackupCfg`, which shows a choice at once and takes it back where the server refuses it.
pub mod Settled
pub mod Copies
mod Tests
use safe_dock.Common.{
  ℕ, zero, suc, List, [], ◌∷◌, ◌++◌, Bool, true, false, Option, none, some, if◌then◌else◌,
}

-- `backupEnabled` and `backupKeep`
pub record Config : Type 0 where
  pub enabled : Bool
  pub keep : ℕ

-- A call of `saveBackupCfg` that stands at its `await`, with what its closure keeps.
pub record Save : Type 0 where
  pub sent : Config
  pub previous : Config

pub record Panel : Type 0 where
  pub shown : Config
  pub running : List Save

-- Before the first answer: enabled, and seven copies.
abbrev pub initial : Panel
initial = record { shown = record { enabled = true; keep = 7 }; running = [] }

pub data Event : Type 0 where
  -- /api/backups has answered; a settings object may be missing.
  loaded : Option Config → Event
  toggled : Bool → Event
  keep_chosen : ℕ → Event
  -- The save with this number, among those that run, has been answered: whether it was accepted.
  answered : ℕ → Bool → Event

unfoldable pub begin : Config → Panel → Panel
begin c p = record {
  shown = c;
  running = p.running ++ (record { sent = c; previous = p.shown }) ∷ [];
}

-- The save with a number, and those that go on.
unfoldable pub take_out : ℕ → List Save → Option Save × List Save
take_out n [] = (none, [])
take_out zero (s ∷ ss) = (some s, ss)
take_out (suc n) (s ∷ ss) = let (found, rest) = take_out n ss in (found, s ∷ rest)

-- What stands behind the `await`: an accepted choice is kept, a refused one is taken back.
unfoldable pub settle : Bool → Option Save → List Save → Panel → Panel
settle accepted none rest p = p
settle true (some s) rest p = record p { running = rest }
settle false (some s) rest p = record { shown = s.previous; running = rest }

unfoldable pub step : Panel → Event → Panel
unfolding begin take_out settle
step p (loaded none) = p
step p (loaded (some c)) = record p { shown = c }
step p (toggled b) = begin (record p.shown { enabled = b }) p
step p (keep_chosen n) = begin (record p.shown { keep = n }) p
step p (answered n accepted) =
    let (found, rest) = take_out n p.running in settle accepted found rest p
