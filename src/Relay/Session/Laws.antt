-- ===== src/Relay/Session/Laws.antt =====
-- About the select loop of `Forward` in apps/peer-relay/internal/relay/hub.go: what reaches the
-- client of a peer.
use openserve.Prelude.{
  ltb→lt, ltb, ◌≤◌, ◌<◌, Bytes, codes, bytes_eq, length, length-append, Bool, true, false, List, [],
  ◌∷◌, ◌++◌, append_assoc, append-nil, Option, none, some, ◌≡◌, ◌≢◌, ◌⊎◌, inl, inr, refl, ap, ◌∙◌,
  arith, Bool-cases,
}
use openserve.Relay.Hub.{Frame, PendingReq, deliver, push_chunk, chunk_capacity}
use openserve.Relay.Session.{
  client_gone, Session, Choice, on_chunk, on_done, on_error, take_queued, take_message, select_step,
  chunk_of, Reach, begin, frame, turn,
}

-- The first list is the second with some elements left out.
pub data IsPart {ℓ} {A : Type ℓ} : List A → List A → Type ℓ where
  empty : IsPart [] []
  keep : {xs ys : List A} → (x : A) → IsPart xs ys → IsPart (x ∷ xs) (x ∷ ys)
  skip : {xs ys : List A} → (x : A) → IsPart xs ys → IsPart xs (x ∷ ys)

module _ {ℓ} {A : Type ℓ} where
  IsPart-refl : (xs : List A) → IsPart xs xs
  IsPart-refl [] = empty
  IsPart-refl (x ∷ xs) = keep x (IsPart-refl xs)

  -- An element sent last is left out, or is there last.
  IsPart-skip_last : {xs ys : List A} → (z : A) → IsPart xs ys → IsPart xs (ys ++ z ∷ [])
  IsPart-skip_last z empty = skip z empty
  IsPart-skip_last z (keep x p) = keep x (IsPart-skip_last z p)
  IsPart-skip_last z (skip x p) = skip x (IsPart-skip_last z p)

  IsPart-keep_last :
      {xs ys : List A} → (z : A) → IsPart xs ys → IsPart (xs ++ z ∷ []) (ys ++ z ∷ [])
  IsPart-keep_last z empty = keep z empty
  IsPart-keep_last z (keep x p) = keep x (IsPart-keep_last z p)
  IsPart-keep_last z (skip x p) = skip x (IsPart-keep_last z p)

  IsPart-trans : {ys zs : List A} → IsPart ys zs → {xs : List A} → IsPart xs ys → IsPart xs zs
  IsPart-trans empty p = p
  IsPart-trans (skip z q) p = skip z (IsPart-trans q p)
  IsPart-trans (keep _ q) (keep x p) = keep x (IsPart-trans q p)
  IsPart-trans (keep _ q) (skip x p) = skip x (IsPart-trans q p)

  IsPart-middle :
      (front : List A) (x : A) (back : List A) → IsPart (front ++ back) (front ++ x ∷ back)
  IsPart-middle [] x back = skip x (IsPart-refl back)
  IsPart-middle (f ∷ fs) x back = keep f (IsPart-middle fs x back)

-- What has been written, then what waits.
abbrev pub received : Session → List Bytes
received s = s.written ++ s.pending.chunks

-- The chunks that a frame leaves in the channel.
deliver-chunks :
    (f : Frame) (pr pr' : PendingReq)
    → deliver f pr ≡ some pr'
    → ((chunk_of f ≡ f.chunk_data ∷ []) × (pr'.chunks ≡ (push_chunk f.chunk_data pr).chunks))
      ⊎ ((chunk_of f ≡ []) × (pr'.chunks ≡ pr.chunks))
unfolding deliver
deliver-chunks f pr pr' e = elim (Bool-cases (bytes_eq f.kind (codes "chunk"))) [
  | inl chunk ↦ inl (ground arith)
  | inr other ↦ inr (ground arith)
]

push_chunk-chunks :
    (text : Bytes) (pr : PendingReq)
    → ((length pr.chunks < chunk_capacity) × ((push_chunk text pr).chunks ≡ pr.chunks ++ text ∷ []))
      ⊎ ((chunk_capacity ≤ length pr.chunks) × ((push_chunk text pr).chunks ≡ pr.chunks))
unfolding push_chunk
push_chunk-chunks text pr = elim (Bool-cases (ltb (length pr.chunks) chunk_capacity)) [
  | inl room ↦ inl (ltb→lt (length pr.chunks) chunk_capacity room, ground arith)
  | inr full ↦ inr (ground arith, ground arith)
]

-- A turn of the loop keeps what was received, or loses one waiting chunk with the client.
abbrev Turned : Session → Session → Type 0
Turned s t =
    ((received t ≡ received s) × (length t.pending.chunks ≤ length s.pending.chunks))
    ⊎ ((t.ending ≡ some client_gone)
        × (x : Bytes) × (s.pending.chunks ≡ x ∷ t.pending.chunks)
        × (t.written ≡ s.written))

take_queued-Turned :
    (wrote : Bool) (s t : Session) (queue : List Bytes)
    → s.pending.chunks ≡ queue
    → take_queued wrote s queue ≡ some t
    → Turned s t
unfolding take_queued
take_queued-Turned wrote s t [] q e = ground arith
take_queued-Turned true s t (chunk ∷ chunks) q e =
    inl (ground (arith, append_assoc s.written (chunk ∷ []) chunks), ground arith)
take_queued-Turned false s t (chunk ∷ chunks) q e =
    inr (ground arith, chunk, ground arith, ground arith)

take_message-Turned :
    (s t : Session) (message : Option Bytes) → take_message s message ≡ some t → Turned s t
unfolding take_message
take_message-Turned s t none e = ground arith
take_message-Turned s t (some text) e = inl (ground arith, ground arith)

select_step-Turned : (c : Choice) (s t : Session) → select_step c s ≡ some t → Turned s t
unfolding select_step
select_step-Turned (on_chunk wrote) s t e = take_queued-Turned wrote s t s.pending.chunks refl e
select_step-Turned on_done s t e = inl (ground arith, ground arith)
select_step-Turned on_error s t e = take_message-Turned s t s.pending.err_msg e

-- Whatever frames come and however the loop's turns fall between them, what was written to the
-- client and what waits is the peer's chunks in their order with some left out, and at most 256
-- chunks wait.
pub Reach-IsPart :
    {sent : List Bytes} {s : Session}
    → Reach sent s
    → IsPart (received s) sent × (length s.pending.chunks ≤ chunk_capacity)
Reach-IsPart begin = (empty, omega arith)
Reach-IsPart (frame {sent} {s} {pr} r f going e) =
    let (part, bound) = Reach-IsPart r in
    elim (deliver-chunks f s.pending pr e) [
      | inl (chunk, pushed) ↦ elim (push_chunk-chunks f.chunk_data s.pending) [
        | inl (room, at_end) ↦ (
          rw (chunk, pushed, at_end, ← append_assoc s.written s.pending.chunks (f.chunk_data ∷ []))
              (IsPart-keep_last f.chunk_data part),
          rw (pushed, at_end, length-append s.pending.chunks (f.chunk_data ∷ [])) (omega arith),
        )
        | inr (full, same) ↦
            (rw (chunk, pushed, same) (IsPart-skip_last f.chunk_data part), rw (pushed, same) bound)
      ]
      | inr (other, same) ↦ (rw (other, same, append-nil sent) part, rw same bound)
    ]
Reach-IsPart (turn {sent} {s} {t} r c going e) =
    let (part, bound) = Reach-IsPart r in
    elim (select_step-Turned c s t e) [
      | inl (same, less) ↦ (rw same part, omega (arith, bound, less))
      | inr (gone, x, queue, kept) ↦ (
        rw kept (IsPart-trans (rw queue at part) (IsPart-middle s.written x t.pending.chunks)),
        ground arith,
      )
    ]

-- A full channel of chunks that were all sent leaves no room for one more among 256.
overfull :
    (written queue sent new : List Bytes) (text : Bytes)
    → written ++ queue ≡ sent
    → new ≡ text ∷ []
    → length (sent ++ new) ≤ chunk_capacity
    → ¬ (chunk_capacity ≤ length queue)
overfull written queue sent new text all one h full =
    omega (arith, length-append sent new, length-append written queue, ap length all, ap length one)

-- While the peer has sent at most 256 chunks and the client has not gone, none is left out: what
-- was written and what waits are all the chunks.
pub Reach-lossless :
    {sent : List Bytes} {s : Session}
    → Reach sent s
    → length sent ≤ chunk_capacity
    → s.ending ≢ some client_gone
    → received s ≡ sent
Reach-lossless begin h k = refl
Reach-lossless (frame {sent} {s} {pr} r f going e) h k =
    let short = length-append sent (chunk_of f) in
    let all = Reach-lossless r (omega arith) k in
    elim (deliver-chunks f s.pending pr e) [
      | inl (chunk, pushed) ↦ elim (push_chunk-chunks f.chunk_data s.pending) [
        | inl (room, at_end) ↦
            rw
              (chunk, pushed, at_end, ← append_assoc s.written s.pending.chunks (f.chunk_data ∷ []))
              (ap (λ xs. xs ++ f.chunk_data ∷ []) all)
        | inr (full, same) ↦
            absurd
              (overfull s.written s.pending.chunks sent (chunk_of f) f.chunk_data all chunk h full)
      ]
      | inr (other, same) ↦ rw (other, same, append-nil sent) all
    ]
Reach-lossless (turn {sent} {s} {t} r c going e) h k = elim (select_step-Turned c s t e) [
  | inl (same, less) ↦ same ∙ Reach-lossless r h (λ gone. ground arith)
  | inr (gone, x, queue, kept) ↦ absurd (k gone)
]
