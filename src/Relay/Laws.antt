-- ===== src/Relay/Laws.antt =====
-- About `Dispatch`, `Unregister` and `ConnectPeer` of apps/peer-relay/internal/relay.
use openserve.Prelude.{
  ◌∙◌, ◌++◌, ℕ, Bytes, codes, bytes_eq_iff, trim_prefix, lookup, insert, lookup-insert,
  lookup-delete, length, get_elem?, Bool, false, List, [], ◌∷◌, Option, none, some, ◌≡◌, ◌≢◌, inl,
  inr, refl, ◌∙◌, arith, Option-cases,
}
use openserve.Gateway.Auth.Hash.{Argon2}
use openserve.Keys.Laws.{scan_format-Fails}
use openserve.Relay.Hub.{
  Hub, PeerConn, Frame, deliver, dispatch_pending, dispatch, close_conn, register, unregister,
  is_online,
}
use openserve.Relay.Handler.{
  matched, check_scanned, after_row, check_rows, PeerRow, invalid_hash_format, connected,
  verify_argon2_token, match_peer, connect_peer, join, leave, open_conn,
}
use openserve.Relay.Store.{
  get_elem?-update_conn_other, get_elem?-append_left, get_elem?-append_last,
}
use openserve.Relay.Registry.{Reach, Reach-IsOwn}

-- A frame changes no other request of the connection than the one whose id it carries.
pub dispatch-others :
    (pc pc' : PeerConn) (f : Frame) (id : Bytes)
    → dispatch pc f ≡ some pc'
    → f.id ≢ id
    → lookup id pc'.pending ≡ lookup id pc.pending
unfolding dispatch dispatch_pending
dispatch-others pc pc' f id e other = elim (Option-cases (lookup f.id pc.pending)) [
  | inl lost ↦ ground arith
  | inr (pr, found) ↦ elim (Option-cases (deliver f pr)) [
    | inl panic ↦ ground arith
    | inr (next, kept) ↦ ground (arith, bytes_eq_iff f.id id, lookup-insert f.id id next pc.pending)
  ]
]

-- In every hub that can come about, a peer that connects again while its old connection is listed
-- is taken off the list when that old connection ends, although its new connection is open: it
-- counts as offline.
pub leave-join_offline :
    (h : Hub) (p : Bytes) (c : ℕ)
    → Reach h
    → lookup p h.peers ≡ some c
    → (is_online p (leave p (join p h)) ≡ false)
      × (get_elem? (leave p (join p h)).conns (length h.conns) ≡ some (open_conn p))
unfolding leave join register unregister is_online
leave-join_offline h p c r e =
    let own = Reach-IsOwn r p c e in
    let apart = (get_elem?-append_left h.conns (open_conn p) own.conn c own.is_there).1 in
    let joined = h.conns ++ open_conn p ∷ [] in
    let spared = get_elem?-update_conn_other c (length h.conns) close_conn joined apart in
    (
      ground (arith, lookup-delete p p (insert p (length h.conns) h.peers), bytes_eq_iff p p),
      rw e (spared ∙ get_elem?-append_last h.conns (open_conn p)),
    )

module _ (argon2 : Argon2) (partial : Bytes → Bytes) where
  rejects_all :
      (token stored_hash : Bytes)
      → verify_argon2_token argon2 partial token stored_hash ≡ some invalid_hash_format
  unfolding verify_argon2_token check_scanned
  rejects_all token stored_hash = rw (scan_format-Fails stored_hash)

  match_peer-none :
      (token : Bytes) (rows : List (Option PeerRow))
      → match_peer argon2 partial token rows ≡ some []
  unfolding match_peer after_row
  match_peer-none token [] = refl
  match_peer-none token (none ∷ rows) = match_peer-none token rows
  match_peer-none token (some row ∷ rows) =
      rw (rejects_all token row.token_hash) (match_peer-none token rows)

  -- No peer is ever let in: whatever the Authorization header and the table of peers hold,
  -- `ConnectPeer` ends with an error, since no stored token hash can be scanned.
  pub connect_peer_rejects_all :
      (upgrades : Bool) (header : Bytes) (rows : Option (List (Option PeerRow))) (p : Bytes)
      → connect_peer argon2 partial upgrades header rows ≢ connected p
  unfolding connect_peer check_rows matched
  connect_peer_rejects_all upgrades header none p e = ground arith
  connect_peer_rejects_all upgrades header (some rows) p e =
      ground (arith, match_peer-none (trim_prefix (codes "Bearer ") header) rows)
