-- ===== src/PeerAgent/Laws.antt =====
-- The answers of the peer agent (apps/peer-agent/cmd/main.go) at the relay
-- (apps/peer-relay/internal/relay/hub.go).
use openserve.Prelude.{
  codes, subst, Bytes, bytes_eq, lookup, insert, lookup-insert_same, map, true, false, List, [],
  ◌∷◌, ◌++◌, Option, none, some, is_some, ◌≡◌, ◌⊎◌, inl, inr, refl, arith, ◌==◌, Bool-cases,
}
use openserve.Relay.Hub.{
  Frame, PendingReq, PeerConn, dispatch, dispatch_pending, deliver, push_chunk, push_error,
}
use openserve.PeerAgent.{
  is_listed, Services, Posted, post_error, answer, chunk_frame, error_frame, done_frame,
  answer_frames, with_body, with_bytes, handle_request, scan_lines,
}

-- The relay takes the frames in the order in which they were sent; `none` is a panic.
abbrev and_then : Option PeerConn → (PeerConn → Option PeerConn) → Option PeerConn
and_then none k = none
and_then (some pc) k = k pc

abbrev pub dispatch_all : PeerConn → List Frame → Option PeerConn
dispatch_all pc [] = some pc
dispatch_all pc (f ∷ fs) = and_then (dispatch pc f) (λ pc'. dispatch_all pc' fs)

-- The request waits on the connection, and has not been answered to its end.
abbrev pub IsOpen : Bytes → PeerConn → Type 0
IsOpen id pc = (pr : PendingReq) × (lookup id pc.pending ≡ some pr) × (pr.done_closed ≡ false)

-- Its answer has ended, well or with an error.
abbrev pub IsEnded : Bytes → PeerConn → Type 0
IsEnded id pc =
    (pr : PendingReq) × (lookup id pc.pending ≡ some pr)
    × ((pr.done_closed ≡ true) ⊎ (is_some pr.err_msg ≡ true))

dispatch-chunk :
    (id text : Bytes) (pc : PeerConn)
    → IsOpen id pc
    → (pc' : PeerConn) × (dispatch pc (chunk_frame id text) ≡ some pc') × IsOpen id pc'
unfolding dispatch dispatch_pending deliver bytes_eq push_chunk
dispatch-chunk id text pc (pr, at, opened) = (
  record pc { pending = insert id (push_chunk text pr) pc.pending },
  rw at refl,
  (push_chunk text pr, lookup-insert_same id (push_chunk text pr) pc.pending, ground arith),
)

-- The frame that ends an answer.
abbrev Ends : Bytes → PeerConn → List Frame → Type 0
Ends id pc fs = (pc' : PeerConn) × (dispatch_all pc fs ≡ some pc') × IsEnded id pc'

done-Ends : (id : Bytes) (pc : PeerConn) → IsOpen id pc → Ends id pc (done_frame id ∷ [])
unfolding dispatch dispatch_pending deliver bytes_eq
done-Ends id pc (pr, at, opened) =
    let closed = record pr { done_closed = true } in
    (
      record pc { pending = insert id closed pc.pending },
      rw (at, opened) refl,
      (closed, lookup-insert_same id closed pc.pending, inl refl),
    )

push_error_some :
    (message : Bytes) (waiting : Option Bytes) → is_some (push_error message waiting) ≡ true
push_error_some message none = refl
push_error_some message (some first) = refl

error-Ends :
    (id message : Bytes) (pc : PeerConn) → IsOpen id pc → Ends id pc (error_frame id message ∷ [])
unfolding dispatch dispatch_pending deliver bytes_eq
error-Ends id message pc (pr, at, opened) =
    let told = record pr { err_msg = push_error message pr.err_msg } in
    (
      record pc { pending = insert id told pc.pending },
      rw at refl,
      (told, lookup-insert_same id told pc.pending, inr (push_error_some message pr.err_msg)),
    )

chunks-Ends :
    (id : Bytes) (text : Bytes → Bytes) (lines : List Bytes) (pc : PeerConn)
    → IsOpen id pc
    → Ends id pc (map (λ line. chunk_frame id (text line)) lines ++ done_frame id ∷ [])
chunks-Ends id text [] pc opened = done-Ends id pc opened
chunks-Ends id text (line ∷ lines) pc opened =
    let (next, e, still) = dispatch-chunk id (text line) pc opened in
    let (pc', e', ended) = chunks-Ends id text lines next still in (pc', rw e e', ended)

answer_frames-Ends :
    (svc : Services) (id : Bytes) (posted : Posted) (pc : PeerConn)
    → IsOpen id pc
    → Ends id pc (answer_frames svc id posted)
unfolding answer_frames
answer_frames-Ends svc id (post_error err) pc opened = error-Ends id _ pc opened
answer_frames-Ends svc id (answer status body) pc opened = elim (Bool-cases (status == 200)) [
  | inl ok ↦ rw ok (chunks-Ends id _ (scan_lines body) pc opened)
  | inr other ↦ rw other (error-Ends id _ pc opened)
]

abbrev EndsIf : Bytes → PeerConn → Option (List Frame) → Type 0
EndsIf id pc none = Unit {0}
EndsIf id pc (some fs) = Ends id pc fs

module _ (svc : Services) (f : Frame) (pc : PeerConn) (opened : IsOpen f.id pc) where
  with_body-EndsIf :
      (request : Option (Option (List (Bytes × svc.Json))))
      → EndsIf f.id pc (with_body svc f request)
  unfolding with_body
  with_body-EndsIf none = error-Ends f.id _ pc opened
  with_body-EndsIf (some none) = tt
  with_body-EndsIf (some (some request)) =
      answer_frames-Ends svc f.id
        (svc.post (
          svc.marshal
            (insert (codes "stream") svc.yes (insert (codes "model") (svc.text f.model) request))))
        pc opened

  with_bytes-EndsIf : (bytes : Option Bytes) → EndsIf f.id pc (with_bytes svc f bytes)
  unfolding with_bytes
  with_bytes-EndsIf none = error-Ends f.id _ pc opened
  with_bytes-EndsIf (some bytes) = with_body-EndsIf (svc.unmarshal bytes)

  handle_request-EndsIf : (models : List Bytes) → EndsIf f.id pc (handle_request svc models f)
  unfolding handle_request
  handle_request-EndsIf models = elim (Bool-cases (is_listed f.model models)) [
    | inl here ↦ rw here (with_bytes-EndsIf (svc.decode f.body))
    | inr gone ↦ rw gone (error-Ends f.id _ pc opened)
  ]

-- Whatever the local server answers, unless `handleRequest` panics: the frames that the agent sends
-- for a request, taken by the relay one after the other on the connection where the request waits,
-- make no `Dispatch` panic and end the request, well or with an error.
pub handle_request-dispatch_all :
    (svc : Services) (models : List Bytes) (f : Frame) (frames : List Frame) (pc : PeerConn)
    → IsOpen f.id pc
    → handle_request svc models f ≡ some frames
    → (pc' : PeerConn) × (dispatch_all pc frames ≡ some pc') × IsEnded f.id pc'
handle_request-dispatch_all svc models f frames pc opened e =
    subst (EndsIf f.id pc) e (handle_request-EndsIf svc f pc opened models)
