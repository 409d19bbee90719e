-- ===== src/PeerAgent.antt =====
-- The program on a peer's machine: apps/peer-agent/cmd/main.go.
pub mod Laws
mod Tests
use mathlib.Core.List.{reverse}
use openserve.Prelude.{
  zero, suc, ℕ, ◌+◌, ◌*◌, ◌==◌, ltb, Bytes, codes, bytes_eq, length, insert, trim_space, format_nat,
  map, Bool, true, false, ◌||◌, List, [], ◌∷◌, ◌++◌, Option, none, some, if◌then◌else◌,
}
use openserve.Relay.Hub.{Frame}

-- The wait in front of the next attempt, in seconds.
unfoldable pub next_backoff : ℕ → ℕ
next_backoff backoff = if ltb backoff 60 then backoff * 2 else backoff

-- The waits behind so many failed runs.
unfoldable pub backoff_after : ℕ → ℕ
unfolding next_backoff
backoff_after zero = 1
backoff_after (suc n) = next_backoff (backoff_after n)

abbrev empty_frame : Bytes → Frame
empty_frame kind = record {
  kind = kind;
  id = [];
  models = [];
  model = [];
  body = [];
  chunk_data = [];
  message = [];
}

abbrev pub chunk_frame : Bytes → Bytes → Frame
chunk_frame id text = record (empty_frame (codes "chunk")) { id = id; chunk_data = text }

abbrev pub error_frame : Bytes → Bytes → Frame
error_frame id message = record (empty_frame (codes "error")) { id = id; message = message }

abbrev pub done_frame : Bytes → Frame
done_frame id = record (empty_frame (codes "done")) { id = id }

-- What the local server answers: an error, or a status and a body as far as it can be read.
pub data Posted : Type 0 where
  post_error : Bytes → Posted
  answer : ℕ → Bytes → Posted

-- The JSON package (a null is a nil map), base64.StdEncoding, the verb `%q` and the local server.
pub record Services : Type 1 where
  pub Json : Type 0
  pub unmarshal : Bytes → Option (Option (List (Bytes × Json)))
  pub marshal : List (Bytes × Json) → Bytes
  pub text : Bytes → Json
  pub yes : Json
  pub decode : Bytes → Option Bytes
  pub quote : Bytes → Bytes
  pub post : Bytes → Posted

-- `bufio.Scanner` with its bound: a line of 65536 bytes or more ends the scan.
abbrev pub max_line : ℕ
max_line = 65536

drop_return : Bytes → Bytes
drop_return [] = []
drop_return (c ∷ s) = if c == 13 then s else c ∷ s

-- `line` is the part of the line that is read, its last byte first.
scan_from : ℕ → Bytes → Bytes → List Bytes
unfolding drop_return
scan_from n [] [] = []
scan_from n (c ∷ line) [] = reverse (drop_return (c ∷ line)) ∷ []
scan_from n line (c ∷ s) =
    let behind = scan_from 0 [] s in
    let more = scan_from (n + 1) (c ∷ line) s in
    if c == 10
    then reverse (drop_return line) ∷ behind
    else if ltb (n + 1) max_line
    then more
    else []

unfoldable pub scan_lines : Bytes → List Bytes
unfolding scan_from
scan_lines body = scan_from 0 [] body

abbrev line_text : Bytes → Bytes
line_text line = if bytes_eq (trim_space line) [] then 10 ∷ [] else line ++ 10 ∷ []

unfoldable pub is_listed : Bytes → List Bytes → Bool
is_listed model [] = false
is_listed model (name ∷ names) = bytes_eq name model || is_listed model names

module _ (svc : Services) where
  unfoldable pub answer_frames : Bytes → Posted → List Frame
  unfolding scan_lines
  answer_frames id (post_error err) = error_frame id (codes "ollama error: " ++ err) ∷ []
  answer_frames id (answer status body) =
      if status == 200
      then map (λ line. chunk_frame id (line_text line)) (scan_lines body) ++ done_frame id ∷ []
      else error_frame id
          (codes "ollama " ++ (format_nat status ++ (codes ": " ++ trim_space body)))
        ∷ []

  -- An entry in a nil map is a panic.
  unfoldable pub with_body : Frame → Option (Option (List (Bytes × svc.Json))) → Option (List Frame)
  unfolding answer_frames insert
  with_body f none = some (error_frame f.id (codes "invalid JSON body") ∷ [])
  with_body f (some none) = none
  with_body f (some (some request)) = some (
      answer_frames f.id (
        svc.post (
          svc.marshal
            (insert (codes "stream") svc.yes (insert (codes "model") (svc.text f.model) request)))))

  unfoldable pub with_bytes : Frame → Option Bytes → Option (List Frame)
  unfolding with_body
  with_bytes f none = some (error_frame f.id (codes "invalid body encoding") ∷ [])
  with_bytes f (some bytes) = with_body f (svc.unmarshal bytes)

  -- The frames that `handleRequest` sends, in order; `none` is a panic.
  unfoldable pub handle_request : List Bytes → Frame → Option (List Frame)
  unfolding is_listed with_bytes
  handle_request models f =
      if is_listed f.model models
      then with_bytes f (svc.decode f.body)
      else some (
          error_frame f.id (codes "model " ++ (svc.quote f.model ++ codes " not available locally"))
          ∷ [])

-- The models that the agent names: those of the local server's list, none if it cannot be read.
abbrev pub models_or_none : Option (List Bytes) → List Bytes
models_or_none none = []
models_or_none (some names) = names

abbrev pub hello_frame : Option (List Bytes) → Frame
hello_frame listed = record (empty_frame (codes "hello")) { models = models_or_none listed }

-- What the loop of `run` does with a message: a pong, a goroutine for a request, or nothing.
pub data Reaction : Type 0 where
  pong : Frame → Reaction
  request : Frame → Reaction
  ignored : Reaction

unfoldable pub react : Option Frame → Reaction
react none = ignored
react (some f) =
    if bytes_eq f.kind (codes "ping")
    then pong (empty_frame (codes "pong"))
    else if bytes_eq f.kind (codes "request")
    then request f
    else ignored
