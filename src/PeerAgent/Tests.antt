-- ===== src/PeerAgent/Tests.antt =====
-- A request that the peer agent (apps/peer-agent/cmd/main.go) answers, and one that it does not survive.
use openserve.Prelude.{
  if◌then◌else◌, ◌++◌, Bytes, codes, bytes_eq, lookup, true, List, [], ◌∷◌, none, some, ◌≡◌, refl,
  trim_space,
}
use openserve.Relay.Hub.{Frame, PeerConn, request_frame, new_pending}
use openserve.PeerAgent.{
  Services, answer, handle_request, scan_lines, is_listed, with_body, with_bytes, answer_frames,
  done_frame, chunk_frame, backoff_after, next_backoff,
}
use openserve.PeerAgent.Laws.{dispatch_all, IsEnded, handle_request-dispatch_all}

-- Every body is the empty object, the text "null" is a nil map.
abbrev svc : Services
svc = record {
  Json = Bytes;
  unmarshal = λ s. if bytes_eq s (codes "null") then some none else some (some []);
  marshal = λ fields. codes "{}";
  text = λ s. s;
  yes = codes "true";
  decode = λ s. some s;
  quote = λ s. s;
  post = λ s. answer 200 (codes "one" ++ 10 ∷ 13 ∷ 10 ∷ codes "two");
}

abbrev asked : Frame
asked = request_frame (codes "r1") (codes "m") (codes "{}")

abbrev waiting : PeerConn
waiting = record {
  peer_id = codes "p1";
  models = [];
  is_open = true;
  pending = (codes "r1", new_pending) ∷ [];
}

abbrev sent : List Frame
sent =
    chunk_frame (codes "r1") (codes "one" ++ 10 ∷ [])
    ∷ chunk_frame (codes "r1") (10 ∷ [])
    ∷ chunk_frame (codes "r1") (codes "two" ++ 10 ∷ [])
    ∷ done_frame (codes "r1")
    ∷ []

handle_request-dispatch_all_example :
    (pc' : PeerConn) × (dispatch_all waiting sent ≡ some pc') × IsEnded (codes "r1") pc'
unfolding lookup bytes_eq handle_request is_listed with_bytes with_body answer_frames scan_lines
    trim_space
handle_request-dispatch_all_example =
    handle_request-dispatch_all svc (codes "m" ∷ []) asked sent waiting (new_pending, refl, refl)
      refl

-- A body that is the JSON null ends the agent.
null_body :
    handle_request svc (codes "m" ∷ []) (request_frame (codes "r1") (codes "m") (codes "null"))
    ≡ none
unfolding bytes_eq handle_request is_listed with_bytes with_body
null_body = refl

sixty_four : backoff_after 9 ≡ 64
unfolding backoff_after next_backoff
sixty_four = refl
