-- ===== src/Http.antt =====
-- What `fetch` gives to the console's forms: a failure of the network, or an answer. The server is
-- not under internal/web/frontend and the browser is not in the repository: answers are arbitrary.
use safe_dock.Common.{
  ℕ, List, [], ◌∷◌, ◌++◌, Bool, false, ◌&&◌, Option, none, some, ◌≢◌, arith, Text, codes, leb,
  if◌then◌else◌,
}
use safe_dock.Common.Decimal.{decimal}

-- The members of a JSON answer that the forms read. A missing text is empty and a missing flag
-- false, as the program's `|| ''` and `!!` take them.
pub record Body : Type 0 where
  pub error : Text
  pub setup_required : Bool
  pub must_change_password : Bool
  pub secret : Text
  pub otpauth_uri : Text
  pub email : Text
  pub first_name : Text
  pub backup_codes : List Text

-- `res.json().catch(() => ({}))` of an answer that is no JSON
abbrev pub empty_body : Body
empty_body = record {
  error = [];
  setup_required = false;
  must_change_password = false;
  secret = [];
  otpauth_uri = [];
  email = [];
  first_name = [];
  backup_codes = [];
}

pub data Reply : Type 0 where
  -- `fetch` was rejected, with this message.
  failed : Text → Reply
  -- The status, and the body if it is JSON.
  answered : ℕ → Option Body → Reply

-- `res.ok`
unfoldable pub is_ok : ℕ → Bool
is_ok status = leb 200 status && leb status 299

abbrev pub body_of : Option Body → Body
body_of none = empty_body
body_of (some b) = b

-- `data.error || …`
abbrev pub or_text : Text → Text → Text
or_text [] other = other
or_text (c ∷ s) other = c ∷ s

-- `` `Erreur serveur (HTTP ${res.status})` ``
unfoldable pub server_error : ℕ → Text
server_error status = codes "Erreur serveur (HTTP " ++ (decimal status ++ codes ")")

-- An answer, or the message that the `catch` shows.
pub data Outcome : Type 0 where
  good : Body → Outcome
  bad : Text → Outcome

-- `if (!res.ok) throw new Error(data.error || …)`, as every form does it.
unfoldable pub outcome_of : Reply → Outcome
outcome_of (failed message) = bad message
outcome_of (answered status body) =
    if is_ok status
    then good (body_of body)
    else bad (or_text (body_of body).error (server_error status))

-- An answer that is no success always has a message to show.
pub error_message-ne-nil :
    (status : ℕ) (body : Option Body) → or_text (body_of body).error (server_error status) ≢ []
unfolding server_error
error_message-ne-nil status body = ground arith
