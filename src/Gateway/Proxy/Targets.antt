-- ===== src/Gateway/Proxy/Targets.antt =====
-- Which deployment a request names: the paths of `ServeHTTP` in
-- apps/gateway/internal/proxy/proxy.go.
use openserve.Prelude.{
  ℕ, Bytes, take, cut, cut-Lacks, Lacks, trim_prefix, has_prefix, has_prefix_iff, true, false, [],
  ◌∷◌, ◌++◌, Option, none, some, ◌≡◌, ◌≢◌, refl, ◌∙◌, sym, ap, arith, Bool-cases, inl, inr,
}
use openserve.Gateway.Proxy.Types.{HttpRequest, Services}
use openserve.Gateway.Proxy.{
  inference_prefix, v1_prefix, target, explicit_target, body_target, find_target,
}

-- The request names the deployment `id`: in its path, or for a path below `/v1/` in the `model` of
-- the first 8192 bytes of its body, which are then its body. `rest` is the path to forward.
pub data IsAimed (decode_model : Bytes → Option Bytes) (r : HttpRequest) (id rest : Bytes)
    (read : HttpRequest) : Type 0 where
  by_path :
      (tail : Bytes)
      → r.path ≡ inference_prefix ++ (id ++ b'/' ∷ tail)
      → Lacks b'/' id
      → id ≢ []
      → rest ≡ b'/' ∷ tail
      → read ≡ r
      → IsAimed decode_model r id rest read
  by_body :
      has_prefix v1_prefix r.path ≡ true
      → r.body_fails ≡ false
      → decode_model (take 8192 r.body) ≡ some id
      → id ≢ []
      → rest ≡ r.path
      → read ≡ record r { body = take 8192 r.body; first_read = 8192 }
      → IsAimed decode_model r id rest read

pub IsAimed-headers :
    (decode_model : Bytes → Option Bytes) (r : HttpRequest) (id rest : Bytes) (read : HttpRequest)
    → IsAimed decode_model r id rest read
    → read.headers ≡ r.headers
IsAimed-headers decode_model r id rest read (by_path tail whole lacks filled is_rest same) =
    ap (λ (q : HttpRequest). q.headers) same
IsAimed-headers decode_model r id rest read (by_body shared kept is_model filled is_rest same) =
    ap (λ (q : HttpRequest). q.headers) same

cut-some : (sep : ℕ) (s t : Bytes) → (cut sep s).1 ≡ some t → s ≡ (cut sep s).0 ++ sep ∷ t
unfolding cut
cut-some sep [] t e = ground arith
cut-some sep (c ∷ s) t e = ground (arith, cut-some sep s t)

trim_prefix-some : (p s : Bytes) → has_prefix p s ≡ true → s ≡ p ++ trim_prefix p s
unfolding trim_prefix
trim_prefix-some p s h = rw h (sym (has_prefix_iff p s h))

explicit_target-parts :
    (r : HttpRequest) (parts : Bytes × Option Bytes) (id rest : Bytes) (read : HttpRequest)
    → explicit_target r parts ≡ target id rest read
    → (tail : Bytes) × (parts.0 ≡ id)
      × (parts.1 ≡ some tail)
      × (id ≢ [])
      × (rest ≡ b'/' ∷ tail)
      × (read ≡ r)
explicit_target-parts r (p, none) id rest read e = ground arith
explicit_target-parts r ([], some tail) id rest read e = ground arith
explicit_target-parts r (c ∷ p, some tail) id rest read e =
    (tail, ground arith, refl, (λ empty. ground arith), ground arith, ground arith)

body_target-parts :
    (r : HttpRequest) (model : Option Bytes) (id rest : Bytes) (read : HttpRequest)
    → body_target r model ≡ target id rest read
    → (model ≡ some id) × (id ≢ []) × (rest ≡ r.path) × (read ≡ r)
body_target-parts r none id rest read e = ground arith
body_target-parts r (some []) id rest read e = ground arith
body_target-parts r (some (c ∷ model)) id rest read e =
    (ground arith, (λ empty. ground arith), ground arith, ground arith)

find_target-body :
    (services : Services) (r : HttpRequest)
    → has_prefix inference_prefix r.path ≡ false
    → has_prefix v1_prefix r.path ≡ true
    → r.body_fails ≡ false
    → find_target services r
      ≡ body_target
          (record r { body = take 8192 r.body; first_read = 8192 })
          (services.decode_model (take 8192 r.body))
unfolding find_target
find_target-body services r other shared whole = rw (other, shared, whole) refl

pub find_target-IsAimed :
    (services : Services) (r : HttpRequest) (id rest : Bytes) (read : HttpRequest)
    → find_target services r ≡ target id rest read
    → IsAimed services.decode_model r id rest read
unfolding find_target
find_target-IsAimed services r id rest read e =
    elim (Bool-cases (has_prefix inference_prefix r.path)) [
      | inl explicit ↦
          let after = trim_prefix inference_prefix r.path in
          let (tail, is_id, is_tail, filled, is_rest, same) =
            explicit_target-parts r (cut b'/' after) id rest read (rw explicit at e) in
          let whole = trim_prefix-some inference_prefix r.path explicit in
          let parts = cut-some b'/' after tail is_tail in
          let lacks = cut-Lacks b'/' after in
          by_path tail
            (whole ∙ ap (λ s. inference_prefix ++ s) (parts ∙ ap (λ s. s ++ b'/' ∷ tail) is_id))
            (rw (← is_id) lacks) filled is_rest same
      | inr other ↦ elim (Bool-cases (has_prefix v1_prefix r.path)) [
        | inr neither ↦ ground arith
        | inl shared ↦ elim (Bool-cases r.body_fails) [
          | inl fails ↦ ground arith
          | inr whole ↦
              let kept = record r { body = take 8192 r.body; first_read = 8192 } in
              let (is_model, filled, is_rest, same) =
                body_target-parts kept (services.decode_model (take 8192 r.body)) id rest read
                  (sym (find_target-body services r other shared whole) ∙ e) in
              by_body shared whole is_model filled is_rest same
        ]
      ]
    ]
