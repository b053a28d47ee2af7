-- ===== src/Report.antt =====
-- internal/web/frontend/src/lib/postureReport.js: the printable report on the whole fleet. The
-- window that it is written to and the date are not modelled.
pub mod Escaping
pub mod Laws
mod Tests
use safe_dock.Common.{
  ℕ, suc, ◌+◌, List, [], ◌∷◌, ◌++◌, map, Bool, true, false, not, ◌&&◌, ◌||◌, Option, none, some,
  String, Text, codes, text_eq, ltb, leb, ◌==◌, if◌then◌else◌, length, keep, any,
}
use safe_dock.Common.Decimal.{decimal}
use safe_dock.Common.Sort.{sort_by}
use safe_dock.Grades.{Grade}
use safe_dock.Fleet.{Container, Stats, leak_count}

-- The table of `esc`.
unfoldable pub esc_unit : ℕ → Text
esc_unit c =
    if c == b'&'
    then codes "&amp;"
    else (if c == b'<'
        then codes "&lt;"
        else (if c == b'>' then codes "&gt;" else (if c == b'"' then codes "&quot;" else c ∷ [])))

-- `esc` on a text; `s ?? ''` is the empty text where there is none.
unfoldable pub esc : Text → Text
esc [] = []
esc (c ∷ s) = esc_unit c ++ esc s

-- The figures at the head of the report.
pub record Totals : Type 0 where
  pub critical : ℕ
  pub high : ℕ
  pub medium : ℕ
  pub low : ℕ
  pub scanned : ℕ

add_totals : Totals → Container → Totals
add_totals t c = record {
  critical = t.critical + c.cve_critical;
  high = t.high + c.cve_high;
  medium = t.medium + c.cve_medium;
  low = t.low + c.cve_low;
  scanned = if c.scanned then t.scanned + 1 else t.scanned;
}

totals_from : Totals → List Container → Totals
totals_from t [] = t
totals_from t (c ∷ cs) = totals_from (add_totals t c) cs

unfoldable pub totals_of : List Container → Totals
unfolding totals_from add_totals
totals_of cs = totals_from (record { critical = 0; high = 0; medium = 0; low = 0; scanned = 0 }) cs

-- `cveTotal`
abbrev pub cve_total : Totals → ℕ
cve_total t = t.critical + t.high + t.medium + t.low

-- `new Set(….filter(Boolean))`: the names that are not empty, each once, in the order of the first.
add_host : List Text → Text → List Text
add_host seen [] = seen
add_host seen (c ∷ s) = if any (text_eq (c ∷ s)) seen then seen else seen ++ (c ∷ s) ∷ []

hosts_from : List Text → List Container → List Text
hosts_from seen [] = seen
hosts_from seen (c ∷ cs) = hosts_from (add_host seen c.host_name) cs

unfoldable pub hosts_of : List Container → List Text
unfolding hosts_from add_host
hosts_of cs = hosts_from [] cs

-- `hosts.size || 1`
unfoldable pub host_count : List Container → ℕ
unfolding hosts_of
host_count cs = if length (hosts_of cs) == 0 then 1 else length (hosts_of cs)

-- `stats` is `{}` where it is not given.
unfoldable pub shown_total : Option Stats → List Container → ℕ
shown_total none cs = length cs
shown_total (some s) cs = s.total

unfoldable pub shown_secure : Option Stats → List Container → ℕ
shown_secure none cs = length (keep (λ c. leb 75 c.score) cs)
shown_secure (some s) cs = s.secure

abbrev pub letter : Grade → Text
letter Grade.a = codes "A"
letter Grade.b = codes "B"
letter Grade.c = codes "C"
letter Grade.d = codes "D"
letter Grade.f = codes "F"

-- `cveCell`
unfoldable pub cve_cell : Container → Text
cve_cell c =
    if c.scanned
    then decimal c.cve_critical
      ++ codes " / "
      ++ decimal c.cve_high
      ++ codes " / "
      ++ decimal c.cve_medium
      ++ codes " / "
      ++ decimal c.cve_low
    else codes "non scanné"

-- What is put between the tags of one row, cell by cell, with the mark-up that the program itself
-- puts around the score left out: name, host, image, grade, score, CVEs, root, privileges, secrets.
unfoldable pub row_of : Container → List Text
row_of c =
    esc c.name
    ∷ esc c.host_name
    ∷ (esc c.image_name ++ codes ":" ++ esc c.image_tag)
    ∷ esc (letter c.grade)
    ∷ esc (decimal c.score)
    ∷ cve_cell c
    ∷ (if c.is_root then codes "⚠ root" else codes "ok")
    ∷ (if c.is_privileged then codes "⚠ priv." else codes "ok")
    ∷ (if ltb 0 (leak_count c.secret_leaks)
        then decimal (leak_count c.secret_leaks)
        else codes "ok")
    ∷ []

-- `(a, b) => (a.score || 0) - (b.score || 0)`, positive
abbrev pub higher_score : Container → Container → Bool
higher_score a b = ltb b.score a.score

unfoldable pub report_rows : List Container → List (List Text)
unfolding row_of
report_rows cs = map row_of (sort_by higher_score cs)
