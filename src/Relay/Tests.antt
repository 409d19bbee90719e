-- ===== src/Relay/Tests.antt =====
-- Tests and examples of the relay.
use openserve.Prelude.{
  Bytes, codes, bytes_eq, lookup, insert, delete, length, get_elem?, true, false, List, [], ◌∷◌,
  Option, none, some, ◌≡◌, ◌≢◌, ◌≤◌, refl, arith,
}
use openserve.Keys.Sample.{sum_argon2}
use openserve.Relay.Hub.{
  PeerConn, Frame, PendingReq, new_hub, new_pending, deliver, push_chunk, dispatch,
  dispatch_pending, register, unregister, is_online, update_conn, begin_forward, begin_on,
  chunk_capacity,
}
use openserve.Relay.Session.{Session, new_session, select_step, on_chunk, Reach, begin, frame, turn}
use openserve.Relay.Session.Laws.{IsPart, received, Reach-IsPart, Reach-lossless}
use openserve.Relay.Handler.{
  PeerRow, connected, connect_peer, join, leave, open_conn, receive_frame,
}
use openserve.Relay.Store.{IsOwn}
use openserve.Relay.Registry.{start, then_step, joined, Reach-IsOwn}
use openserve.Relay.Laws.{leave-join_offline, connect_peer_rejects_all}

relay : Unit {0}
unfolding deliver push_chunk dispatch dispatch_pending register unregister is_online update_conn
    begin_forward begin_on select_step join leave receive_frame bytes_eq lookup insert delete
relay = tt

abbrev bob : Bytes
bob = codes "bob"

abbrev of_kind : Bytes → Bytes → Frame
of_kind kind id = record {
  kind = kind;
  id = id;
  models = [];
  model = [];
  body = [];
  chunk_data = codes "data";
  message = [];
}

abbrev chunk : Frame
chunk = of_kind (codes "chunk") (codes "r1")

abbrev done : Frame
done = of_kind (codes "done") (codes "r1")

-- A connection with the request "r1", and that connection behind its "done".
abbrev busy : PeerConn
busy = record (open_conn bob) { pending = (codes "r1", new_pending) ∷ [] }

abbrev closed_pending : PendingReq
closed_pending = record new_pending { done_closed = true }

abbrev done_once : PeerConn
done_once = record (open_conn bob) { pending = (codes "r1", closed_pending) ∷ [] }

relay_tests :
    (dispatch busy done ≡ some done_once)
    × (dispatch done_once done ≡ none)
    × (is_online bob (join bob new_hub) ≡ true)
    × (is_online bob (leave bob (join bob new_hub)) ≡ false)
unfolding relay
relay_tests = (refl, refl, refl, refl)

-- Two ends of the request, with a chunk between them.
abbrev ended_twice : List Frame
ended_twice = done ∷ chunk ∷ done ∷ []

leave-join_offline_example :
    (is_online bob (leave bob (join bob (join bob new_hub))) ≡ false)
    × (get_elem? (leave bob (join bob (join bob new_hub))).conns (length (join bob new_hub).conns)
        ≡ some (open_conn bob))
unfolding relay
leave-join_offline_example =
    leave-join_offline (join bob new_hub) bob 0 (then_step start (joined bob)) refl

Reach-IsOwn_example : IsOwn (join bob new_hub).conns bob 0
unfolding relay
Reach-IsOwn_example = Reach-IsOwn (then_step start (joined bob)) bob 0 refl

abbrev sample_rows : List (Option PeerRow)
sample_rows =
    none
    ∷ some (record {
      id = bob;
      org_id = codes "org";
      token_hash = codes "$argon2id$v=19$m=1,t=1,p=1$AA$AA";
    })
    ∷ []

connect_peer_rejects_all_example :
    connect_peer sum_argon2 (λ s. s) true (codes "Bearer token") (some sample_rows) ≢ connected bob
connect_peer_rejects_all_example =
    connect_peer_rejects_all sum_argon2 (λ s. s) true (codes "Bearer token") (some sample_rows) bob

-- One chunk came and was written.
abbrev one_waits : Session
one_waits = record new_session { pending = record new_pending { chunks = codes "data" ∷ [] } }

abbrev one_written : Session
one_written = record new_session { written = codes "data" ∷ [] }

one_written-Reach : Reach (codes "data" ∷ []) one_written
unfolding relay
one_written-Reach = turn {s = one_waits} (frame begin chunk refl refl) (on_chunk true) refl refl

Reach-IsPart_example : IsPart (codes "data" ∷ []) (codes "data" ∷ []) × (0 ≤ chunk_capacity)
Reach-IsPart_example = Reach-IsPart one_written-Reach

Reach-lossless_example : received one_written ≡ codes "data" ∷ []
Reach-lossless_example = Reach-lossless one_written-Reach (omega arith) (λ e. ground arith)
