-- ===== src/Relay/Registry.antt =====
-- Which connections the hub of apps/peer-relay/internal/relay/hub.go lists, over every sequence of
-- what the relay does.
use openserve.Prelude.{
  subst, none, some, Option, inl, inr, arith, Bool-cases, Option-cases, bytes_eq_iff, lookup-delete,
  lookup-insert, sym, refl, ◌∙◌, bytes_eq, ℕ, Bytes, lookup, length, get_elem?, Bool, [], ◌∷◌, ◌++◌,
  some, ◌≡◌, ◌≢◌,
}
use openserve.Relay.Hub.{
  begin_on, add_pending, stored, deliver, dispatch_pending, PendingReq, dispatch, evict, register,
  close_conn, unregister, send_failed, Hub, new_hub, PeerConn, Frame, update_conn, drop_pending,
  begin_forward, streaming,
}
use openserve.Relay.Handler.{open_conn, join, leave, receive_frame}
use openserve.Relay.Store.{
  IsOwn, IsOwn-append, IsOwn-close_conn, IsOwn-update_conn, Keeps, get_elem?-append_last,
  get_elem?-append_left, get_elem?-update_conn_other,
}

-- Every peer that the hub lists has a connection of its own that the relay has not closed.
abbrev pub IsSound : Hub → Type 0
IsSound h = (p : Bytes) → (c : ℕ) → lookup p h.peers ≡ some c → IsOwn h.conns p c

-- What the relay does to the hub: a peer joins, the read loop of a connection ends, on whatever error
-- and whether it is still listed or not, a frame comes in, a request
-- is added to a connection or taken off.
pub data Step (h : Hub) : Hub → Type 0 where
  joined : (p : Bytes) → Step h (join p h)
  left : (c : ℕ) (pc : PeerConn) → get_elem? h.conns c ≡ some pc → Step h (leave pc.peer_id h)
  framed :
      (c : ℕ) (pc pc' : PeerConn) (f : Frame)
      → get_elem? h.conns c ≡ some pc
      → receive_frame pc f ≡ some pc'
      → Step h (record h { conns = update_conn c (λ _. pc') h.conns })
  begun :
      (send_fails : Bool) (p id model text : Bytes) (c : ℕ) (f : Frame) (h' : Hub)
      → begin_forward send_fails p id model text h ≡ streaming c f h'
      → Step h h'
  not_begun :
      (send_fails : Bool) (p id model text : Bytes) (h' : Hub)
      → begin_forward send_fails p id model text h ≡ send_failed h'
      → Step h h'
  ended :
      (c : ℕ) (id : Bytes) → Step h (record h { conns = update_conn c (drop_pending id) h.conns })

-- The hubs that can come about.
pub data Reach : Hub → Type 0 where
  start : Reach new_hub
  then_step : {h h' : Hub} → Reach h → Step h h' → Reach h'

-- The eviction spares the new connection and those of other peers.
evict-new :
    (h : Hub) (q : Bytes)
    → IsSound h
    → IsOwn (evict (lookup q h.peers) (h.conns ++ open_conn q ∷ [])) q (length h.conns)
evict-new h q sound =
    let new = get_elem?-append_last h.conns (open_conn q) in
    elim (Option-cases (lookup q h.peers)) [
      | inl e ↦ rw e (record { conn = open_conn q; is_there = new; owned = refl; alive = refl })
      | inr (old, e) ↦
          let own = sound q old e in
          let apart = (get_elem?-append_left h.conns (open_conn q) own.conn old own.is_there).1 in
          rw e (record {
            conn = open_conn q;
            is_there =
                get_elem?-update_conn_other old (length h.conns) close_conn
                  (h.conns ++ open_conn q ∷ []) apart
                ∙ new;
            owned = refl;
            alive = refl;
          })
    ]

evict-other :
    (h : Hub) (q p : Bytes) (d : ℕ)
    → IsSound h
    → q ≢ p
    → IsOwn h.conns p d
    → IsOwn (evict (lookup q h.peers) (h.conns ++ open_conn q ∷ [])) p d
evict-other h q p d sound other own =
    let kept = IsOwn-append h.conns (open_conn q) p d own in
    elim (Option-cases (lookup q h.peers)) [
      | inl e ↦ rw e kept
      | inr (old, e) ↦
          let evicted = sound q old e in
          let there =
            (get_elem?-append_left h.conns (open_conn q) evicted.conn old evicted.is_there).0 in
          rw e (
            IsOwn-close_conn (h.conns ++ open_conn q ∷ []) old evicted.conn p d there
              (λ same. other (sym evicted.owned ∙ same)) kept)
    ]

pub join-IsSound : (h : Hub) (q : Bytes) → IsSound h → IsSound (join q h)
unfolding join register
join-IsSound h q sound p d e = elim (Bool-cases (bytes_eq q p)) [
  | inl same ↦
      let at = lookup-insert q p (length h.conns) h.peers in
      let place : length h.conns ≡ d = ground arith in
      rw (← (bytes_eq_iff q p).0 same, ← place) (evict-new h q sound)
  | inr other ↦
      evict-other h q p d sound (λ same. ground (arith, bytes_eq_iff q p))
        (sound p d (ground (arith, lookup-insert q p (length h.conns) h.peers)))
]

leave-IsSound : (h : Hub) (pc : PeerConn) → IsSound h → IsSound (leave pc.peer_id h)
unfolding leave unregister
leave-IsSound h pc sound p d e = elim (Bool-cases (bytes_eq pc.peer_id p)) [
  | inl same ↦ ground (arith, lookup-delete pc.peer_id p h.peers)
  | inr other ↦ sound p d (ground (arith, lookup-delete pc.peer_id p h.peers))
]

stored-keeps :
    (pc pc' : PeerConn) (id : Bytes) (pr : Option PendingReq)
    → stored pc id pr ≡ some pc'
    → (pc'.peer_id ≡ pc.peer_id) × (pc'.is_open ≡ pc.is_open)
stored-keeps pc pc' id none e = ground arith
stored-keeps pc pc' id (some pr) e = (ground arith, ground arith)

dispatch-keeps :
    (pc pc' : PeerConn) (f : Frame)
    → dispatch pc f ≡ some pc'
    → (pc'.peer_id ≡ pc.peer_id) × (pc'.is_open ≡ pc.is_open)
unfolding dispatch dispatch_pending
dispatch-keeps pc pc' f e = elim (Option-cases (lookup f.id pc.pending)) [
  | inl lost ↦ (ground arith, ground arith)
  | inr (pr, found) ↦ stored-keeps pc pc' f.id (deliver f pr) (rw found at e)
]

receive_frame-keeps :
    (pc pc' : PeerConn) (f : Frame)
    → receive_frame pc f ≡ some pc'
    → (pc'.peer_id ≡ pc.peer_id) × (pc'.is_open ≡ pc.is_open)
unfolding receive_frame
receive_frame-keeps pc pc' f e = elim (Option-cases (dispatch pc f)) [
  | inl panic ↦ (ground arith, ground arith)
  | inr (next, kept) ↦
      let (peer, state) = dispatch-keeps pc next f kept in (ground arith, ground arith)
]

update-IsSound :
    (h : Hub) (c : ℕ) (change : PeerConn → PeerConn)
    → Keeps change h.conns c
    → IsSound h
    → IsSound (record h { conns = update_conn c change h.conns })
update-IsSound h c change keeps sound p d e =
    IsOwn-update_conn change h.conns c p d keeps (sound p d e)

-- A request that begins changes the map of the peer's connection.
begin_forward-streaming :
    (send_fails : Bool) (p id model text : Bytes) (h : Hub) (c : ℕ) (f : Frame) (h' : Hub)
    → begin_forward send_fails p id model text h ≡ streaming c f h'
    → record h { conns = update_conn c (add_pending id) h.conns } ≡ h'
unfolding begin_forward begin_on
begin_forward-streaming send_fails p id model text h c f h' e =
    elim (Option-cases (lookup p h.peers)) [
      | inl lost ↦ ground arith
      | inr (c', found) ↦ ground arith
    ]

begin_forward-send_failed :
    (send_fails : Bool) (p id model text : Bytes) (h h' : Hub)
    → begin_forward send_fails p id model text h ≡ send_failed h'
    → (c : ℕ) × (record h {
      conns = update_conn c (drop_pending id) (update_conn c (add_pending id) h.conns);
    }
        ≡ h')
unfolding begin_forward begin_on
begin_forward-send_failed send_fails p id model text h h' e =
    elim (Option-cases (lookup p h.peers)) [
      | inl lost ↦ ground arith
      | inr (c, found) ↦ (c, ground arith)
    ]

Step-IsSound : {h h' : Hub} → IsSound h → Step h h' → IsSound h'
Step-IsSound {h} sound (joined p) = join-IsSound h p sound
Step-IsSound {h} sound (left c pc at) = leave-IsSound h pc sound
Step-IsSound {h} sound (framed c pc pc' f at e) =
    update-IsSound h c (λ _. pc')
      (λ x here. let keeps = receive_frame-keeps pc pc' f e in (ground arith, ground arith)) sound
Step-IsSound {h} sound (begun send_fails p id model text c f h' e) =
    subst IsSound (begin_forward-streaming send_fails p id model text h c f h' e)
      (update-IsSound h c (add_pending id) (λ x here. (refl, refl)) sound)
Step-IsSound {h} sound (not_begun send_fails p id model text h' e) =
    let (c, same) = begin_forward-send_failed send_fails p id model text h h' e in
    let added = record h { conns = update_conn c (add_pending id) h.conns } in
    let after = update-IsSound h c (add_pending id) (λ x here. (refl, refl)) sound in
    subst IsSound same (update-IsSound added c (drop_pending id) (λ x here. (refl, refl)) after)
Step-IsSound {h} sound (ended c id) =
    update-IsSound h c (drop_pending id) (λ x here. (refl, refl)) sound

-- Whatever peers join, whatever read loops end and whatever frames and requests come between, the
-- connection that the hub lists for a peer is one that was registered for this very peer and that
-- the relay itself has not closed.
pub Reach-IsOwn :
    {h : Hub} (r : Reach h) (p : Bytes) (c : ℕ) → lookup p h.peers ≡ some c → IsOwn h.conns p c
unfolding lookup
Reach-IsOwn start p c e = ground arith
Reach-IsOwn (then_step r s) p c e = Step-IsSound (Reach-IsOwn r) s p c e
