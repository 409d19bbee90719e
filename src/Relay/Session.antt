-- ===== src/Relay/Session.antt =====
-- The loop of `Forward` over one request's channels, in apps/peer-relay/internal/relay/hub.go,
-- while frames for that request are dispatched.

pub mod Laws
use openserve.Prelude.{
  Bytes, codes, bytes_eq, Bool, true, false, List, [], ◌∷◌, ◌++◌, Option, none, some, ◌≡◌,
  if◌then◌else◌,
}
use openserve.Relay.Hub.{Frame, PendingReq, new_pending, deliver}

-- How the loop ends.
pub data Ending : Type 0 where
  finished : Ending
  client_gone : Ending
  peer_error : Bytes → Ending

-- The channels, the chunks written to the client so far, and the end if the loop has ended.
pub record Session : Type 0 where
  pub pending : PendingReq
  pub written : List Bytes
  pub ending : Option Ending

abbrev pub new_session : Session
new_session = record { pending = new_pending; written = []; ending = none }

-- A case of the `select`; a chunk's says whether the write to the client succeeds.
pub data Choice : Type 0 where
  on_chunk : Bool → Choice
  on_done : Choice
  on_error : Choice

take_queued : Bool → Session → List Bytes → Option Session
take_queued wrote s [] = none
take_queued true s (chunk ∷ chunks) = some (record s {
  pending = record (s.pending) { chunks = chunks };
  written = s.written ++ chunk ∷ [];
})
take_queued false s (chunk ∷ chunks) =
    some (record s { pending = record (s.pending) { chunks = chunks }; ending = some client_gone })

take_message : Session → Option Bytes → Option Session
take_message s none = none
take_message s (some text) =
    some (record s {
      pending = record (s.pending) { err_msg = none };
      ending = some (peer_error text);
    })

-- One turn of the loop; `none` where the case is not ready.
unfoldable pub select_step : Choice → Session → Option Session
unfolding take_queued take_message
select_step (on_chunk wrote) s = take_queued wrote s s.pending.chunks
select_step on_done s =
    if s.pending.done_closed then some (record s { ending = some finished }) else none
select_step on_error s = take_message s s.pending.err_msg

-- The data of a chunk frame.
abbrev pub chunk_of : Frame → List Bytes
chunk_of f = if bytes_eq f.kind (codes "chunk") then f.chunk_data ∷ [] else []

-- The sessions that a sequence of frames and turns leads to, with the chunks that the peer sent.
pub data Reach : List Bytes → Session → Type 0 where
  begin : Reach [] new_session
  frame :
      {sent : List Bytes}
      → {s : Session} → {pr : PendingReq} → Reach sent s
      → (f : Frame) → s.ending ≡ none
      → deliver f s.pending ≡ some pr
      → Reach (sent ++ chunk_of f) (record s { pending = pr })
  turn :
      {sent : List Bytes}
      → {s t : Session} → Reach sent s
      → (c : Choice) → s.ending ≡ none
      → select_step c s ≡ some t
      → Reach sent t
