-- ===== src/Relay/Store.antt =====
-- The hub's connections by reference, and the ones that are open and a peer's own.
use openserve.Prelude.{
  some, inl, inr, arith, Bool-cases, ap, ==_iff, refl, ◌∙◌, ◌==◌, ℕ, zero, suc, Bytes, length,
  get_elem?, true, List, [], ◌∷◌, ◌++◌, some, ◌≡◌, ◌≢◌,
}
use openserve.Relay.Hub.{close_conn, PeerConn, update_conn}

-- The store at another place, at the changed one, and at its end.
pub get_elem?-update_conn_other :
    (c d : ℕ) (change : PeerConn → PeerConn) (pcs : List PeerConn)
    → c ≢ d
    → get_elem? (update_conn c change pcs) d ≡ get_elem? pcs d
unfolding update_conn
get_elem?-update_conn_other c d change [] h = refl
get_elem?-update_conn_other zero zero change (pc ∷ pcs) h = absurd (h refl)
get_elem?-update_conn_other zero (suc d) change (pc ∷ pcs) h = refl
get_elem?-update_conn_other (suc c) zero change (pc ∷ pcs) h = refl
get_elem?-update_conn_other (suc c) (suc d) change (pc ∷ pcs) h =
    get_elem?-update_conn_other c d change pcs (omega arith)

pub get_elem?-update_conn_same :
    (c : ℕ) (change : PeerConn → PeerConn) (pcs : List PeerConn) (pc : PeerConn)
    → get_elem? pcs c ≡ some pc
    → get_elem? (update_conn c change pcs) c ≡ some (change pc)
unfolding update_conn
get_elem?-update_conn_same c change [] pc e = ground arith
get_elem?-update_conn_same zero change (x ∷ pcs) pc e = ground arith
get_elem?-update_conn_same (suc c) change (x ∷ pcs) pc e =
    get_elem?-update_conn_same c change pcs pc e

pub get_elem?-append_left :
    (pcs : List PeerConn) (new pc : PeerConn) (c : ℕ)
    → get_elem? pcs c ≡ some pc
    → (get_elem? (pcs ++ new ∷ []) c ≡ some pc) × (c ≢ length pcs)
get_elem?-append_left [] new pc c e = ground arith
get_elem?-append_left (x ∷ pcs) new pc zero e = (e, omega arith)
get_elem?-append_left (x ∷ pcs) new pc (suc c) e =
    let (found, other) = get_elem?-append_left pcs new pc c e in (found, omega arith)

pub get_elem?-append_last :
    (pcs : List PeerConn) (new : PeerConn) → get_elem? (pcs ++ new ∷ []) (length pcs) ≡ some new
get_elem?-append_last [] new = refl
get_elem?-append_last (x ∷ pcs) new = get_elem?-append_last pcs new

-- The connection at a place is the peer's own, and the relay has not closed it.
pub record IsOwn (conns : List PeerConn) (p : Bytes) (c : ℕ) : Type 0 where
  pub conn : PeerConn
  pub is_there : get_elem? conns c ≡ some conn
  pub owned : conn.peer_id ≡ p
  pub alive : conn.is_open ≡ true

-- A change of a connection that keeps its peer and its state.
abbrev pub Keeps : (PeerConn → PeerConn) → List PeerConn → ℕ → Type 0
Keeps change conns c =
    (pc : PeerConn)
    → get_elem? conns c ≡ some pc
    → ((change pc).peer_id ≡ pc.peer_id) × ((change pc).is_open ≡ pc.is_open)

pub IsOwn-update_conn :
    (change : PeerConn → PeerConn) (conns : List PeerConn) (c : ℕ) (p : Bytes) (d : ℕ)
    → Keeps change conns c
    → IsOwn conns p d
    → IsOwn (update_conn c change conns) p d
IsOwn-update_conn change conns c p d keeps own = elim (Bool-cases (c == d)) [
  | inl same ↦
      let at = ap (get_elem? conns) ((==_iff c d).0 same) ∙ own.is_there in
      let (peer, state) = keeps own.conn at in
      record {
        conn = change own.conn;
        is_there =
            rw (← (==_iff c d).0 same) (get_elem?-update_conn_same c change conns own.conn at);
        owned = peer ∙ own.owned;
        alive = state ∙ own.alive;
      }
  | inr other ↦ record {
    conn = own.conn;
    is_there = get_elem?-update_conn_other c d change conns (ground arith) ∙ own.is_there;
    owned = own.owned;
    alive = own.alive;
  }
]

-- Closing a connection leaves those of other peers as they are.
pub IsOwn-close_conn :
    (conns : List PeerConn) (c : ℕ) (pc : PeerConn) (p : Bytes) (d : ℕ)
    → get_elem? conns c ≡ some pc
    → pc.peer_id ≢ p
    → IsOwn conns p d
    → IsOwn (update_conn c close_conn conns) p d
IsOwn-close_conn conns c pc p d at other own = record {
  conn = own.conn;
  is_there =
      get_elem?-update_conn_other c d close_conn conns
        (λ same. let there = ap (get_elem? conns) same in ground arith)
      ∙ own.is_there;
  owned = own.owned;
  alive = own.alive;
}

pub IsOwn-append :
    (conns : List PeerConn) (new : PeerConn) (p : Bytes) (d : ℕ)
    → IsOwn conns p d
    → IsOwn (conns ++ new ∷ []) p d
IsOwn-append conns new p d own = record {
  conn = own.conn;
  is_there = (get_elem?-append_left conns new own.conn d own.is_there).0;
  owned = own.owned;
  alive = own.alive;
}
