-- ===== src/Relay/Repeated.antt =====
-- How often a peer may end a request: the read loop of `ConnectPeer` in
-- apps/peer-relay/internal/relay/handler.go over the frames of one request.
use openserve.Prelude.{
  ℕ, ◌+◌, Bytes, codes, bytes_eq, Bool, true, false, ◌&&◌, ◌||◌, List, [], ◌∷◌, Option, none, some,
  ◌≡◌, ◌⊎◌,
}
use openserve.Relay.Hub.{PeerConn, Frame, PendingReq}
use openserve.Relay.Handler.{receive_frame}

-- The read loop over some frames; `none` is a panic.
abbrev and_then : Option PeerConn → (PeerConn → Option PeerConn) → Option PeerConn
and_then none k = none
and_then (some pc) k = k pc

abbrev pub receive_all : PeerConn → List Frame → Option PeerConn
receive_all pc [] = some pc
receive_all pc (f ∷ fs) = and_then (receive_frame pc f) (λ pc'. receive_all pc' fs)

-- How many of the frames say that the request is done.
abbrev pub is_done_of : Bytes → Frame → Bool
is_done_of id f = bytes_eq id f.id && bytes_eq f.kind (codes "done")

abbrev one_if : Bool → ℕ
one_if true = 1
one_if false = 0

abbrev pub dones_of : Bytes → List Frame → ℕ
dones_of id [] = 0
dones_of id (f ∷ fs) = one_if (is_done_of id f) + dones_of id fs

-- The connection's only request is `id`, and its channel is closed or not.
abbrev Waits : Bytes → Bool → PeerConn → Type 0
Waits id closed pc = (pr : PendingReq) × (pc.pending ≡ (id, pr) ∷ []) × (pr.done_closed ≡ closed)

-- One frame: a panic where it is one "done" too many, else the channel is closed if it was one.
abbrev Goes : Bytes → Bool → PeerConn → Frame → Type 0
Goes id closed pc f =
    ((receive_frame pc f ≡ none) × (is_done_of id f ≡ true) × (closed ≡ true))
    ⊎ ((pc' : PeerConn) × (receive_frame pc f ≡ some pc')
        × Waits id (closed || is_done_of id f) pc'
        × (is_done_of id f && closed ≡ false))
