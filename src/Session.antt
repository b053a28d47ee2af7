-- ===== src/Session.antt =====
-- internal/web/frontend/src/lib/session.js: the calls that the components share. The reader of JSON,
-- `JSON.parse`, is a parameter: a value, or the message of its error.
mod Tests
use safe_dock.Common.{
  ℕ, ◌≡◌, ◌≢◌, ◌↔◌, ◌⊎◌, inl, inr, refl, arith, List, [], ◌∷◌, ◌++◌, Bool, true, false, ◌==◌,
  Option, none, some, Text, codes, if◌then◌else◌,
}
use safe_dock.Common.Decimal.{decimal}
use safe_dock.Http.{is_ok, or_text}

-- `res.text()`: the text of a body, or the message of the failure to read it.
pub data Content : Type 0 where
  read unreadable : Text → Content

-- What `fetch` gives: a rejection with its message, or a status with a body.
pub data Response : Type 0 where
  rejected : Text → Response
  response : ℕ → Content → Response

pub data Parsed (J : Type 0) : Type 0 where
  parsed : J → Parsed J
  malformed : Text → Parsed J

-- The outcome of a call: a value, or null, or an error that is thrown; and whether the handler of
-- an expired session has been called.
pub data Result (J : Type 0) : Type 0 where
  value : J → Result J
  null : Result J
  thrown : Text → Result J

-- `res.text().catch(() => '')`
abbrev or_nil_text : Content → Text
or_nil_text (read s) = s
or_nil_text (unreadable message) = []

module _ {J : Type 0} (parse_json : Text → Parsed J) where
  -- `txt ? JSON.parse(txt) : null`
  parse : Content → Result J
  parse (unreadable message) = thrown message
  parse (read []) = null
  parse (read (c ∷ s)) = elim (parse_json (c ∷ s)) [ parsed j ↦ value j | malformed m ↦ thrown m ]

  -- `parse(await check(await fetch(…)))`, as `apiGet` and `apiSend` do it.
  unfoldable pub api_result : Response → Result J × Bool
  unfolding parse
  api_result (rejected message) = (thrown message, false)
  api_result (response status body) =
      if status == 401
      then (thrown (codes "Session expirée"), true)
      else (if is_ok status
          then (parse body, false)
          else (thrown (or_text (or_nil_text body) (codes "Erreur " ++ decimal status)), false))

  -- Whether a call comes back without an error.
  abbrev pub succeeds : Result J → Bool
  succeeds (thrown message) = false
  succeeds _ = true

  abbrev pub message_of : Result J → Text
  message_of (thrown message) = message
  message_of _ = []

  -- Every answer of the server ends in one way: a success for a status of 200 to 299 only; on 401
  -- the session is given up and an error thrown; any other status throws an error that has a
  -- message, whether or not the body could be read.
  api_result-response :
      (status : ℕ) (body : Content)
      → (((api_result (response status body)).1 ≡ true) ↔ (status ≡ 401))
        × ((is_ok status ≡ true)
            ⊎ ((succeeds (api_result (response status body)).0 ≡ false)
                × (message_of (api_result (response status body)).0 ≢ [])))
  unfolding api_result is_ok
  api_result-response status body = ground arith
