-- ===== src/Verdict/Tests.antt =====
-- An image with a critical vulnerability that is accepted and a high one that is not.
use safe_dock.Common.{
  ◌≡◌, refl, List, [], ◌∷◌, Bool, true, false, not, ◌&&◌, ◌||◌, none, some, Text, codes, text_eq,
  any,
}
use safe_dock.Verdict.{
  Vulnerability, Rules, is_root, is_over, check_dockle, decide, level_of, effective_counts, resolve,
}
use safe_dock.Verdict.Threshold.{is_approved, is_compliant, counts_against, decide-effective_counts}

abbrev vulnerabilities : List Vulnerability
vulnerabilities =
    (record { cve_id = codes "CVE-1"; severity = codes "CRITICAL" })
    ∷ (record { cve_id = codes "CVE-2"; severity = codes "HIGH" })
    ∷ []

abbrev rules : Rules
rules = record { max_sev = codes "CRITICAL"; allow_root = false; allow_privileged = false }

abbrev accepted : Text → Bool
accepted t = text_eq t (codes "CVE-1")

decide-effective_counts_example :
    is_approved (
      decide rules
        (codes "app")
        false
        (effective_counts (λ t. t) (λ t. t) accepted vulnerabilities)
        (some 0))
    ≡ ((not (is_root (codes "app")) || false)
        && (true
            && (not (
                  any
                    (counts_against (λ t. t) (λ t. t) accepted (codes "CRITICAL"))
                    vulnerabilities)
                && is_compliant (some 0))))
decide-effective_counts_example =
    decide-effective_counts (λ t. t) (λ t. t) accepted rules (codes "app") false vulnerabilities
      (some 0)

-- An override that is no threshold, such as one in lower case, lets every vulnerability pass.
no_threshold :
    is_approved (
      decide
        (resolve rules
          (some (record { max_sev = codes "high"; allow_root = none; allow_privileged = none })))
        (codes "app")
        false
        (effective_counts (λ t. t) (λ t. t) (λ t. false) vulnerabilities)
        none)
    ≡ true
unfolding decide resolve effective_counts level_of is_over is_root check_dockle text_eq
no_threshold = refl
