-- ===== src/Inventory/Csv.antt =====
-- `exportCSV` of ContainersView.jsx up to the text of the file; the download is not modelled.
pub mod Reader
pub mod RoundTrip
use safe_dock.Common.{
  ℕ, suc, List, [], ◌∷◌, ◌++◌, map, Bool, true, false, not, ◌&&◌, ◌||◌, String, Text, codes, ◌==◌,
  if◌then◌else◌, length, any,
}
use safe_dock.Common.Decimal.{decimal}
use safe_dock.Fleet.{Container, leak_count}
use safe_dock.Report.{letter}
use safe_dock.Inventory.{join}

-- `/[",\n;]/`
abbrev pub needs_quotes : ℕ → Bool
needs_quotes c = c == b'"' || c == b',' || c == 10 || c == b';'

-- `s.replace(/"/g, '""')`
unfoldable pub double_quotes : Text → Text
double_quotes [] = []
double_quotes (c ∷ s) = (if c == b'"' then b'"' ∷ b'"' ∷ [] else c ∷ []) ++ double_quotes s

-- The inner `esc`.
unfoldable pub esc : Text → Text
esc s = if any needs_quotes s then b'"' ∷ (double_quotes s ++ b'"' ∷ []) else s

abbrev pub oui_non : Bool → Text
oui_non b = if b then codes "oui" else codes "non"

-- The columns of one container, as texts.
unfoldable pub columns : Container → List Text
columns c =
    c.name
    ∷ c.host_name
    ∷ c.image_name
    ∷ c.image_tag
    ∷ decimal c.score
    ∷ letter c.grade
    ∷ oui_non c.is_root
    ∷ oui_non c.is_privileged
    ∷ oui_non c.tag_pinned
    ∷ decimal (leak_count c.secret_leaks)
    ∷ decimal c.cve_critical
    ∷ decimal c.cve_high
    ∷ decimal c.cve_medium
    ∷ decimal c.cve_low
    ∷ oui_non c.scanned
    ∷ join (codes " ") c.tags
    ∷ []

-- `headers`
abbrev pub headers : List Text
headers = map codes (
    "Conteneur" ∷ "Hôte" ∷ "Image" ∷ "Tag image" ∷ "Score" ∷ "Note" ∷ "Root" ∷ "Privilégié"
    ∷ "Digest épinglé" ∷ "Secrets" ∷ "CVE critiques" ∷ "CVE élevées" ∷ "CVE moyennes"
    ∷ "CVE faibles" ∷ "Scanné" ∷ "Tags" ∷ [])

-- `….map(esc).join(',')`
unfoldable pub line : List Text → Text
line fields = join (codes ",") (map esc fields)

-- `headers.join(',')`: the headers are not escaped.
abbrev pub crlf : Text
crlf = 13 ∷ 10 ∷ []

-- The file: the mark of the encoding, the headers, and a line for each row of the table.
unfoldable pub export_csv : List Container → Text
export_csv sorted =
    0xfeff ∷ join crlf (join (codes ",") headers ∷ map (λ c. line (columns c)) sorted)
