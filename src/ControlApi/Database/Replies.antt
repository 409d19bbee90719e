-- ===== src/ControlApi/Database/Replies.antt =====
-- The responses of the handlers of apps/control-api/internal/handler.
use openserve.Prelude.{ℕ, Bytes, codes, List, [], ◌∷◌}
use openserve.ControlApi.Tables.{text, Fields}

-- The body of a response: the text of `http.Error`, a JSON object, a JSON array of objects, an
-- object with one field more that is such an array, or the place that a redirect names.
pub data Body : Type 0 where
  nothing : Body
  plain : Bytes → Body
  object : Fields → Body
  array : List Fields → Body
  object_with : Fields → Bytes → List Fields → Body
  redirect : Bytes → Body
  json_null : Body

pub record Response : Type 0 where
  pub status : ℕ
  pub cookies : List (Bytes × Bytes)
  pub body : Body

abbrev pub respond : ℕ → Body → Response
respond status body = record { status = status; cookies = []; body = body }

abbrev pub http_error : ℕ → Bytes → Response
http_error status message = respond status (plain message)

-- `writeJSON` of an object.
abbrev pub write_json : ℕ → Fields → Response
write_json status fields = respond status (object fields)

-- `writeJSON` of `{"error": …}` with the text of a database error.
abbrev pub json_error : Bytes → Response
json_error message = write_json 500 ((codes "error", text message) ∷ [])

-- `writeJSON` of `{"status": …}`.
abbrev pub json_status : ℕ → Bytes → Response
json_status status word = write_json status ((codes "status", text word) ∷ [])

-- A nil slice becomes null, an empty one an empty array.
abbrev pub json_slice : List Fields → Body
json_slice [] = json_null
json_slice (row ∷ rows) = array (row ∷ rows)

abbrev pub no_content : Response
no_content = respond 204 nothing

abbrev pub unauthorized : Response
unauthorized = http_error 401 (codes "unauthorized")
