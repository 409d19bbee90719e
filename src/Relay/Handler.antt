-- ===== src/Relay/Handler.antt =====
-- The endpoints of the relay: apps/peer-relay/internal/relay/handler.go.
use openserve.Prelude.{
  ◌%◌, Bytes, codes, bytes_eq, trim_prefix, length, Bool, true, false, List, [], ◌∷◌, ◌++◌, Option,
  none, some, if◌then◌else◌, ◌==◌,
}
use openserve.Prelude.Base64
use openserve.Prelude.Scan.{Arg, sscanf}
use openserve.Gateway.Auth.Hash.{Argon2, id_key_panics, diff_from}
use openserve.Keys.{scan_format}
use openserve.Relay.Hub.{
  Hub, PeerConn, Frame, Began, not_connected, send_failed, streaming, register, unregister,
  is_online, dispatch, begin_forward,
}
use openserve.Relay.Session.{Session, Ending, finished}

pub data TokenError : Type 0 where
  invalid_hash_format hash_mismatch invalid_token argon2_panic : TokenError

-- A row of `peers`; `org_id` is only logged.
pub record PeerRow : Type 0 where
  pub id : Bytes
  pub org_id : Bytes
  pub token_hash : Bytes

pub data ConnectReply : Type 0 where
  missing_token db_error no_match upgrade_failed panicked : ConnectReply
  connected : Bytes → ConnectReply

-- `partial` is what `DecodeString` gives with an error, which the code ignores.
module _ (argon2 : Argon2) (partial : Bytes → Bytes) where
  decoded_part : Bytes → Option Bytes → Bytes
  decoded_part s none = partial s
  decoded_part s (some b) = b

  compare_token : Bytes → Bytes → Option TokenError
  compare_token computed stored =
      if length computed == length stored
      then if diff_from 0 computed stored == 0 then none else some invalid_token
      else some hash_mismatch

  -- What follows the scan; `t`, `m` and `p` are the scanned costs.
  unfoldable pub check_scanned : Bytes → Option (List Arg) → Option TokenError
  unfolding decoded_part compare_token
  check_scanned token
        (some (
          version
          ∷ Arg.number m
          ∷ Arg.number t
          ∷ Arg.number p
          ∷ Arg.text salt
          ∷ Arg.text hash
          ∷ [])) =
      if id_key_panics t (p % 256) 32
      then some argon2_panic
      else compare_token
          (argon2.id_key token (decoded_part salt (Base64.decode salt)) t m (p % 256) 32)
          (decoded_part hash (Base64.decode hash))
  check_scanned token _ = some invalid_hash_format

  -- `verifyArgon2Token`; `none` is the nil error.
  unfoldable pub verify_argon2_token : Bytes → Bytes → Option TokenError
  unfolding check_scanned
  verify_argon2_token token stored_hash = check_scanned token (sscanf scan_format stored_hash)

  -- The rest of the loop is for a row whose token is refused; a panic ends the handler.
  unfoldable pub after_row : Bytes → Option Bytes → Option TokenError → Option Bytes
  after_row id rest none = some id
  after_row id rest (some argon2_panic) = none
  after_row id rest (some e) = rest

  -- The loop over the rows; `none` is a row whose `Scan` fails. The result is the matched id, or
  -- none for a panic.
  unfoldable pub match_peer : Bytes → List (Option PeerRow) → Option Bytes
  unfolding after_row
  match_peer token [] = some []
  match_peer token (none ∷ rows) = match_peer token rows
  match_peer token (some row ∷ rows) =
      after_row row.id (match_peer token rows) (verify_argon2_token token row.token_hash)

  unfoldable pub matched : Bool → Option Bytes → ConnectReply
  matched upgrades none = panicked
  matched upgrades (some []) = no_match
  matched upgrades (some (c ∷ id)) = if upgrades then connected (c ∷ id) else upgrade_failed

  unfoldable pub check_rows : Bool → Bytes → Option (List (Option PeerRow)) → ConnectReply
  unfolding matched
  check_rows upgrades token none = db_error
  check_rows upgrades token (some rows) = matched upgrades (match_peer token rows)

  -- `ConnectPeer` up to the registration, for the value of the Authorization header.
  unfoldable pub connect_peer : Bool → Bytes → Option (List (Option PeerRow)) → ConnectReply
  unfolding check_rows
  connect_peer upgrades header rows =
      let token = trim_prefix (codes "Bearer ") header in
      if bytes_eq token [] then missing_token else check_rows upgrades token rows

abbrev pub open_conn : Bytes → PeerConn
open_conn peer_id = record { peer_id = peer_id; models = []; is_open = true; pending = [] }

-- The new connection and its registration.
unfoldable pub join : Bytes → Hub → Hub
join peer_id h =
    register peer_id (length h.conns) (record h { conns = h.conns ++ open_conn peer_id ∷ [] })

-- What is deferred to the end of a connection's read loop; the websocket is not closed.
unfoldable pub leave : Bytes → Hub → Hub
leave peer_id h = unregister peer_id h

-- The read loop's switch; `none` is the panic of `Dispatch`.
unfoldable pub receive_frame : PeerConn → Frame → Option PeerConn
receive_frame pc f =
    let dispatched = dispatch pc f in
    if bytes_eq f.kind (codes "hello")
    then some (record pc { models = f.models })
    else if bytes_eq f.kind (codes "chunk")
    then dispatched
    else if bytes_eq f.kind (codes "done")
    then dispatched
    else if bytes_eq f.kind (codes "error")
    then dispatched
    else some pc

-- `PeerOnline`
abbrev pub peer_online : Bytes → Hub → Bool
peer_online peer_id h = is_online peer_id h

-- The answer of `ForwardToPeer`: a refusal, or an event stream of these chunks, where the Boolean
-- says whether the closing line is written behind them.
pub data ForwardReply : Type 0 where
  bad_request : ForwardReply
  peer_unavailable : ForwardReply
  event_stream : List Bytes → Bool → ForwardReply

abbrev ends_well : Option Ending → Bool
ends_well (some finished) = true
ends_well _ = false

stream_reply : Session → Began → ForwardReply
stream_reply s not_connected = peer_unavailable
stream_reply s (send_failed h) = peer_unavailable
stream_reply s (streaming c f h) = event_stream s.written (ends_well s.ending)

-- `ForwardToPeer`; `s` is how the loop of `Forward` ends. An error behind the first header is
-- dropped: the status has been decided by then.
unfoldable pub forward_to_peer :
    Bool → Bool → Bytes → Bytes → Bytes → Bytes → Session → Hub → ForwardReply
unfolding stream_reply
forward_to_peer body_fails send_fails peer_id model id text s h =
    if bytes_eq model []
    then bad_request
    else if body_fails
    then bad_request
    else stream_reply s (begin_forward send_fails peer_id id model text h)
