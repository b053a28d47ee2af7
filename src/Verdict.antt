-- ===== src/Verdict.antt =====
-- Whether a new image may replace the one of a container: the checks of `CheckAndUpdateContainer` in
-- internal/deployer/lifecycle.go between the scan and the replacement. The scans and their figures are
-- arbitrary; `strings.ToUpper`, `strings.TrimSpace` and the set of the excepted CVE are parameters.
pub mod Threshold
mod Tests
use safe_dock.Common.{
  ℕ, suc, ◌+◌, List, [], ◌∷◌, ◌++◌, Bool, true, false, not, ◌&&◌, ◌||◌, Option, none, some, Text,
  codes, is_empty, text_eq, ltb, ◌==◌, if◌then◌else◌,
}
use safe_dock.Inventory.{has_prefix}

pub record Vulnerability : Type 0 where
  pub cve_id : Text
  pub severity : Text

pub data Level : Type 0 where
  critical high medium low unknown : Level

-- The results of `effectiveCounts`.
pub record Counts : Type 0 where
  pub crit : ℕ
  pub high : ℕ
  pub med : ℕ
  pub low : ℕ
  pub unknown : ℕ

abbrev pub no_counts : Counts
no_counts = record { crit = 0; high = 0; med = 0; low = 0; unknown = 0 }

abbrev pub count : Level → Counts → Counts
count critical c = record c { crit = suc c.crit }
count high c = record c { high = suc c.high }
count medium c = record c { med = suc c.med }
count low c = record c { low = suc c.low }
count unknown c = record c { unknown = suc c.unknown }

-- `lo.cfg.SecOps`
pub record Rules : Type 0 where
  pub max_sev : Text
  pub allow_root : Bool
  pub allow_privileged : Bool

-- `GetContainerSettings`: what is not overridden is empty.
pub record Overrides : Type 0 where
  pub max_sev : Text
  pub allow_root : Option Bool
  pub allow_privileged : Option Bool

abbrev or_rule : Option Bool → Bool → Bool
or_rule none b = b
or_rule (some a) b = a

-- The rules for one container; `none` stands for overrides that cannot be read.
unfoldable pub resolve : Rules → Option Overrides → Rules
resolve r none = r
resolve r (some o) = record {
  max_sev = if is_empty o.max_sev then r.max_sev else o.max_sev;
  allow_root = or_rule o.allow_root r.allow_root;
  allow_privileged = or_rule o.allow_privileged r.allow_privileged;
}

-- `isRoot`
unfoldable pub is_root : (user : Text) → Bool
is_root user =
    is_empty user
    || (text_eq user (codes "root") || (text_eq user (codes "0") || has_prefix user (codes "0:")))

-- The switch over `maxSev`: whether the image is blocked.
unfoldable pub is_over : (max_sev : Text) → Counts → Bool
is_over t c =
    if text_eq t (codes "CRITICAL")
    then ltb 0 c.crit
    else (if text_eq t (codes "HIGH")
        then ltb 0 c.crit || ltb 0 c.high
        else (if text_eq t (codes "MEDIUM")
            then ltb 0 c.crit || (ltb 0 c.high || ltb 0 c.med)
            else (if text_eq t (codes "LOW")
                then ltb 0 c.crit || (ltb 0 c.high || (ltb 0 c.med || ltb 0 c.low))
                else (if text_eq t (codes "NONE")
                    then ltb 0 (c.crit + c.high + c.med + c.low + c.unknown)
                    else false))))

-- `secopsReason`
pub data Reason : Type 0 where
  root_user privileged_mode : Reason
  too_severe : (max_sev : Text) → Counts → Reason
  not_compliant : (fatal : ℕ) → Reason

-- The linter of the structure, which is run last; a run that fails is no reason.
unfoldable pub check_dockle : (fatal : Option ℕ) → Option Reason
check_dockle none = none
check_dockle (some n) = if ltb 0 n then some (not_compliant n) else none

-- The checks in their order; `none` is the approval.
unfoldable pub decide :
    Rules → (user : Text) (is_privileged : Bool) → Counts → (fatal : Option ℕ) → Option Reason
unfolding is_root is_over check_dockle
decide r user is_privileged c fatal =
    if is_root user && not r.allow_root
    then some root_user
    else (if is_privileged && not r.allow_privileged
        then some privileged_mode
        else (if is_over r.max_sev c then some (too_severe r.max_sev c) else check_dockle fatal))

module _ (to_upper trim_space : Text → Text) (is_excepted : Text → Bool) where
  unfoldable pub level_of : (severity : Text) → Level
  level_of s =
      let u = to_upper s in
      if text_eq u (codes "CRITICAL")
      then critical
      else (if text_eq u (codes "HIGH")
          then high
          else (if text_eq u (codes "MEDIUM")
              then medium
              else (if text_eq u (codes "LOW") then low else unknown)))

  -- `effectiveCounts`
  unfoldable pub effective_counts : List Vulnerability → Counts
  unfolding level_of
  effective_counts [] = no_counts
  effective_counts (v ∷ vs) =
      let rest = effective_counts vs in
      if is_excepted (to_upper (trim_space v.cve_id))
      then rest
      else count (level_of v.severity) rest
