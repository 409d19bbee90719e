-- ===== src/Relay/Hub.antt =====
-- The hub of peer connections: apps/peer-relay/internal/relay/hub.go. The locks are left out: each
-- operation holds them for its whole access to the maps.
use openserve.Prelude.{
  ℕ, zero, suc, Bytes, codes, bytes_eq, lookup, insert, delete, length, Bool, true, false, List, [],
  ◌∷◌, ◌++◌, Option, none, some, is_some, if◌then◌else◌, ltb,
}

-- `kind` and `chunk_data` are `Type` and `Data`.
pub record Frame : Type 0 where
  pub kind : Bytes
  pub id : Bytes
  pub models : List Bytes
  pub model : Bytes
  pub body : Bytes
  pub chunk_data : Bytes
  pub message : Bytes

-- The channels of a request: what waits in `chunks` and in `errCh`, and whether `done` is closed.
pub record PendingReq : Type 0 where
  pub chunks : List Bytes
  pub done_closed : Bool
  pub err_msg : Option Bytes

-- `is_open` is set back where the relay closes the websocket; a peer may be gone before.
pub record PeerConn : Type 0 where
  pub peer_id : Bytes
  pub models : List Bytes
  pub is_open : Bool
  pub pending : List (Bytes × PendingReq)

-- The map of the hub holds connections by reference: their places in a store.
pub record Hub : Type 0 where
  pub peers : List (Bytes × ℕ)
  pub conns : List PeerConn

abbrev pub new_hub : Hub
new_hub = record { peers = []; conns = [] }

abbrev pub chunk_capacity : ℕ
chunk_capacity = 256

abbrev pub new_pending : PendingReq
new_pending = record { chunks = []; done_closed = false; err_msg = none }

-- Changing the connection that a reference stands for.
unfoldable pub update_conn : ℕ → (PeerConn → PeerConn) → List PeerConn → List PeerConn
update_conn c change [] = []
update_conn zero change (pc ∷ pcs) = change pc ∷ pcs
update_conn (suc c) change (pc ∷ pcs) = pc ∷ update_conn c change pcs

abbrev pub close_conn : PeerConn → PeerConn
close_conn pc = record pc { is_open = false }

-- The eviction of an old connection.
abbrev pub evict : Option ℕ → List PeerConn → List PeerConn
evict none conns = conns
evict (some old) conns = update_conn old close_conn conns

unfoldable pub register : Bytes → ℕ → Hub → Hub
register peer_id c h = record {
  peers = insert peer_id c h.peers;
  conns = evict (lookup peer_id h.peers) h.conns;
}

unfoldable pub unregister : Bytes → Hub → Hub
unregister peer_id h = record h { peers = delete peer_id h.peers }

unfoldable pub is_online : Bytes → Hub → Bool
is_online peer_id h = is_some (lookup peer_id h.peers)

-- `pr.chunks <- f.Data`, or nothing where the channel is full.
unfoldable pub push_chunk : Bytes → PendingReq → PendingReq
push_chunk text pr =
    if ltb (length pr.chunks) chunk_capacity
    then record pr { chunks = pr.chunks ++ text ∷ [] }
    else pr

-- `close(pr.done)`, which panics where it is closed.
abbrev pub close_done : PendingReq → Option PendingReq
close_done pr = if pr.done_closed then none else some (record pr { done_closed = true })

-- `pr.errCh <- f.Message`, or nothing where an error waits.
abbrev pub push_error : Bytes → Option Bytes → Option Bytes
push_error text none = some text
push_error text (some first) = some first

-- The switch of `Dispatch`; `none` is the panic.
unfoldable pub deliver : Frame → PendingReq → Option PendingReq
deliver f pr =
    if bytes_eq f.kind (codes "chunk")
    then some (push_chunk f.chunk_data pr)
    else if bytes_eq f.kind (codes "done")
    then close_done pr
    else if bytes_eq f.kind (codes "error")
    then some (record pr { err_msg = push_error f.message pr.err_msg })
    else some pr

abbrev pub stored : PeerConn → Bytes → Option PendingReq → Option PeerConn
stored pc id none = none
stored pc id (some pr) = some (record pc { pending = insert id pr pc.pending })

unfoldable pub dispatch_pending : PeerConn → Frame → Option PendingReq → Option PeerConn
dispatch_pending pc f none = some pc
dispatch_pending pc f (some pr) = stored pc f.id (deliver f pr)

unfoldable pub dispatch : PeerConn → Frame → Option PeerConn
unfolding dispatch_pending
dispatch pc f = dispatch_pending pc f (lookup f.id pc.pending)

-- How `Forward` begins: the connection that the request was sent on, or the error.
pub data Began : Type 0 where
  not_connected : Began
  send_failed : Hub → Began
  streaming : ℕ → Frame → Hub → Began

-- A request joins or leaves the connection's map.
abbrev pub add_pending : Bytes → PeerConn → PeerConn
add_pending id pc = record pc { pending = insert id new_pending pc.pending }

abbrev pub drop_pending : Bytes → PeerConn → PeerConn
drop_pending id pc = record pc { pending = delete id pc.pending }

abbrev pub request_frame : Bytes → Bytes → Bytes → Frame
request_frame id model text = record {
  kind = codes "request";
  id = id;
  models = [];
  model = model;
  body = text;
  chunk_data = [];
  message = [];
}

-- `send_fails` is the error of `pc.send`, `id` the generated one, `text` the encoded body.
unfoldable pub begin_on : Bool → Bytes → Bytes → Bytes → Hub → Option ℕ → Began
begin_on send_fails id model text h none = not_connected
begin_on send_fails id model text h (some c) =
    let added = update_conn c (add_pending id) h.conns in
    if send_fails
    then send_failed (record h { conns = update_conn c (drop_pending id) added })
    else streaming c (request_frame id model text) (record h { conns = added })

unfoldable pub begin_forward : Bool → Bytes → Bytes → Bytes → Bytes → Hub → Began
unfolding begin_on
begin_forward send_fails peer_id id model text h =
    begin_on send_fails id model text h (lookup peer_id h.peers)
