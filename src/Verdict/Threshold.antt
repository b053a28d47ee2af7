-- ===== src/Verdict/Threshold.antt =====
-- The checks of internal/deployer/lifecycle.go against what each vulnerability means for the threshold.
use safe_dock.Common.{
  ◌≡◌, refl, ◌∙◌, arith, ℕ, List, [], ◌∷◌, Bool, true, false, not, ◌&&◌, ◌||◌, Option, none, some,
  Text, codes, text_eq, leb, ◌==◌, if◌then◌else◌, any, Bool-cases, inl, inr,
}
use safe_dock.Verdict.{
  Vulnerability, Level, critical, high, medium, low, unknown, Counts, no_counts, count, Rules,
  Reason, is_root, is_over, check_dockle, decide, level_of, effective_counts,
}

-- The levels and the thresholds on one scale.
abbrev pub rank : Level → ℕ
rank critical = 4
rank high = 3
rank medium = 2
rank low = 1
rank unknown = 0

-- A level is tolerated below this rank; a text that is no threshold tolerates them all.
unfoldable pub limit : (max_sev : Text) → ℕ
limit t =
    if text_eq t (codes "CRITICAL")
    then 4
    else (if text_eq t (codes "HIGH")
        then 3
        else (if text_eq t (codes "MEDIUM")
            then 2
            else (if text_eq t (codes "LOW")
                then 1
                else (if text_eq t (codes "NONE") then 0 else 5))))

is_over-count :
    (t : Text) (l : Level) (c : Counts)
    → is_over t (count l c) ≡ (leb (limit t) (rank l) || is_over t c)
unfolding is_over limit
is_over-count t critical c = ground arith
is_over-count t high c = ground arith
is_over-count t medium c = ground arith
is_over-count t low c = ground arith
is_over-count t unknown c = ground arith

is_over-no_counts : (t : Text) → is_over t no_counts ≡ false
unfolding is_over
is_over-no_counts t = ground arith

abbrev pub is_approved : Option Reason → Bool
is_approved none = true
is_approved (some r) = false

abbrev pub is_compliant : (fatal : Option ℕ) → Bool
is_compliant none = true
is_compliant (some n) = n == 0

check_dockle_lem : (fatal : Option ℕ) → is_approved (check_dockle fatal) ≡ is_compliant fatal
unfolding check_dockle
check_dockle_lem none = refl
check_dockle_lem (some n) = ground arith

cascade :
    (root privileged over : Bool) (a b c : Reason) (o : Option Reason)
    → is_approved
        (if root then some a else (if privileged then some b else (if over then some c else o)))
      ≡ (not root && (not privileged && (not over && is_approved o)))
cascade true privileged over a b c o = refl
cascade false true over a b c o = refl
cascade false false true a b c o = refl
cascade false false false a b c o = refl

conditions :
    (a b c d over against ok compliant : Bool)
    → over ≡ against
    → ok ≡ compliant
    → (not (a && not b) && (not (c && not d) && (not over && ok)))
      ≡ ((not a || b) && ((not c || d) && (not against && compliant)))
conditions a b c d over against ok compliant h k = ground arith

module _ (to_upper trim_space : Text → Text) (is_excepted : Text → Bool) where
  -- A vulnerability that no exception covers and that reaches the threshold.
  abbrev pub counts_against : (max_sev : Text) → Vulnerability → Bool
  counts_against t v =
      not (is_excepted (to_upper (trim_space v.cve_id)))
      && leb (limit t) (rank (level_of to_upper trim_space is_excepted v.severity))

  is_over-effective_counts :
      (t : Text) (vs : List Vulnerability)
      → is_over t (effective_counts to_upper trim_space is_excepted vs) ≡ any (counts_against t) vs
  unfolding effective_counts
  is_over-effective_counts t [] = is_over-no_counts t
  is_over-effective_counts t (v ∷ vs) =
      elim (Bool-cases (is_excepted (to_upper (trim_space v.cve_id)))) [
        | inl covered ↦ ground (arith, is_over-effective_counts t vs)
        | inr open_one ↦ ground (
          arith,
          is_over-effective_counts t vs,
          is_over-count t (level_of to_upper trim_space is_excepted v.severity)
              (effective_counts to_upper trim_space is_excepted vs),
        )
      ]

  -- An image is approved exactly if the rules allow the account and the mode of the container, none of its
  -- vulnerabilities reaches the threshold without an exception, and the linter finds nothing fatal or fails to run.
  pub decide-effective_counts :
      (r : Rules) (user : Text) (is_privileged : Bool) (vs : List Vulnerability) (fatal : Option ℕ)
      → is_approved
          (decide r user is_privileged (effective_counts to_upper trim_space is_excepted vs) fatal)
        ≡ ((not (is_root user) || r.allow_root)
            && ((not is_privileged || r.allow_privileged)
                && (not (any (counts_against r.max_sev) vs) && is_compliant fatal)))
  unfolding decide
  decide-effective_counts r user is_privileged vs fatal =
      cascade (is_root user && not r.allow_root) (is_privileged && not r.allow_privileged)
        (is_over r.max_sev (effective_counts to_upper trim_space is_excepted vs)) _ _ _
        (check_dockle fatal)
      ∙ conditions (is_root user) r.allow_root is_privileged r.allow_privileged _ _ _ _
          (is_over-effective_counts r.max_sev vs) (check_dockle_lem fatal)
