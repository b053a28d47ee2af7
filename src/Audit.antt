-- ===== src/Audit.antt =====
-- internal/web/frontend/src/components/AuditView.jsx: the scan of an image by its name, and the panel
-- of its results.
pub mod Report
mod Tests
use safe_dock.Common.{
  ℕ, ◌+◌, List, [], ◌∷◌, ◌++◌, Bool, true, false, not, ◌&&◌, ◌||◌, Option, none, some, Text, codes,
  is_empty, text_eq, ◌==◌, if◌then◌else◌, length, keep,
}
use safe_dock.Common.Flight.{pick}
use safe_dock.Http.{or_text, server_error}
use safe_dock.Trim.{trim}

pub data Phase : Type 0 where
  idle scanning done error : Phase

-- What is read of an item of `vulnerabilities`.
pub record Vulnerability : Type 0 where
  pub id : Text
  pub severity : Text

-- The answer: a missing list is empty and a missing count 0.
pub record Results : Type 0 where
  pub vulnerabilities : List Vulnerability
  pub critical : ℕ
  pub high : ℕ
  pub medium : ℕ
  pub low : ℕ

pub data Filter : Type 0 where
  all : Filter
  only : Text → Filter

pub record Audit : Type 0 where
  pub image : Text
  pub tag : Text
  pub phase : Phase
  pub results : Option Results
  pub message : Text
  pub filter : Filter
  -- The requests that stand at their `await`, each with the image and the tag that it asks for.
  pub running : List (Text × Text)

abbrev pub initial : Audit
initial = record {
  image = [];
  tag = codes "latest";
  phase = idle;
  results = none;
  message = [];
  filter = all;
  running = [];
}

-- How a request ends: `fetch` or the reading of the body was rejected with a message, the status is
-- no success and the body a text, or the body is JSON, perhaps null.
pub data Reply : Type 0 where
  rejected : Text → Reply
  refused : ℕ → Text → Reply
  reported : Option Results → Reply

-- `tag.trim() || 'latest'`
abbrev pub tag_or_latest : Text → Text
tag_or_latest tag = or_text (trim tag) (codes "latest")

pub data Event : Type 0 where
  image_typed tag_typed : Text → Event
  quick_filled : (image tag : Text) → Event
  filter_chosen : Filter → Event
  submitted : Event
  -- The request with this number, among those on their way, comes to its end.
  replied : ℕ → Reply → Event

-- Whether the button, and so the form, is disabled.
unfoldable pub is_disabled : Audit → Bool
is_disabled a = elim a.phase [ scanning ↦ true | _ ↦ is_empty (trim a.image) ]

-- `handleScan`, up to its `await`, with the image and the tag that it asks for.
unfoldable pub submit : Audit → Audit × Option (Text × Text)
submit a =
    let asked : Text × Text = (trim a.image, tag_or_latest a.tag) in
    if is_disabled a then (a, none) else (
      record a {
        phase = scanning;
        message = [];
        results = none;
        filter = all;
        running = a.running ++ asked ∷ [];
      },
      some asked,
    )

-- What stands behind the `await`, whatever the page shows by then.
unfoldable pub finish : Reply → Audit → Audit
finish (rejected message) a = record a { message = message; phase = error }
finish (refused status body) a = record a {
  message = or_text body (server_error status);
  phase = error;
}
finish (reported results) a = record a { results = results; phase = done }

unfoldable pub on_reply : Option (Text × Text) × List (Text × Text) → Reply → Audit → Audit
on_reply (none, rest) r a = a
on_reply (some asked, rest) r a = finish r (record a { running = rest })

unfoldable pub step : Audit → Event → Audit × Option (Text × Text)
step a (image_typed v) = (record a { image = v }, none)
step a (tag_typed v) = (record a { tag = v }, none)
step a (quick_filled image tag) = (record a { image = image; tag = tag }, none)
step a (filter_chosen f) = (record a { filter = f }, none)
step a submitted = submit a
step a (replied n r) = (on_reply (pick n a.running) r a, none)

-- `ResultsPanel`: the image that it names, the number of vulnerabilities in its title, whether it
-- says 'Image sécurisée', and the lines of its table.
pub record Panel : Type 0 where
  pub image : Text
  pub tag : Text
  pub total : ℕ
  pub clean : Bool
  pub entries : List Vulnerability

abbrev passes : Filter → Vulnerability → Bool
passes all v = true
passes (only severity) v = text_eq v.severity severity

unfoldable pub results_panel : Results → (image tag : Text) → Filter → Panel
results_panel r image tag f =
    let total : ℕ = r.critical + r.high + r.medium + r.low in
    record {
      image = image;
      tag = tag;
      total = total;
      clean = total == 0;
      entries = keep (passes f) r.vulnerabilities;
    }

pub data Screen : Type 0 where
  ready nothing : Screen
  in_progress : (image tag : Text) → Screen
  failed : Text → Screen
  panel : Panel → Screen

unfoldable pub screen : Audit → Screen
screen a = elim a.phase [
  | idle ↦ ready
  | scanning ↦ in_progress (trim a.image) (tag_or_latest a.tag)
  | error ↦ failed a.message
  | done ↦ elim a.results [
    | none ↦ nothing
    | some r ↦ panel (results_panel r (trim a.image) (tag_or_latest a.tag) a.filter)
  ]
]
