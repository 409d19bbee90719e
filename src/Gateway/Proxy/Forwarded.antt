-- ===== src/Gateway/Proxy/Forwarded.antt =====
-- The headers that the upstream gets from `ServeHTTP` of apps/gateway/internal/proxy/proxy.go.
use openserve.Prelude.{
  Bytes, codes, lookup, insert, lookup-insert, select, All, not, false, List, [], ◌∷◌, some, ◌≡◌,
  refl, ◌∙◌, arith, bytes_eq, Bool-cases, inl, inr,
}
use openserve.Gateway.Proxy.Types.{Headers}
use openserve.Gateway.Proxy.Forward.{forward_headers, equal_fold, authorization}

-- A header that is not spelled "Authorization" in any mix of cases.
abbrev pub NoAuthorization : Bytes × List Bytes → Type 0
NoAuthorization h = equal_fold h.0 authorization ≡ false

select-All :
    (hs : Headers) → All NoAuthorization (select (λ h. not (equal_fold h.0 authorization)) hs)
select-All [] = tt
select-All (h ∷ hs) = ground (arith, select-All hs)

insert-All :
    (k : Bytes) (v : List Bytes) (hs : Headers)
    → NoAuthorization (k, v)
    → All NoAuthorization hs
    → All NoAuthorization (insert k v hs)
unfolding insert
insert-All k v [] h _ = (h, tt)
insert-All k v ((j, w) ∷ hs) h (g, gs) = elim (Bool-cases (bytes_eq j k)) [
  | inl e ↦ rw e (h, gs)
  | inr e ↦ rw e (g, insert-All k v hs h gs)
]

-- For all client headers, no header that reaches the upstream is an Authorization header, however
-- it is spelled; and the forwarded address, the key id and the request id are the gateway's own
-- values, whatever the client set under these names.
pub forward_headers_lem :
    (hs : Headers) (remote key_id req_id : Bytes)
    → All NoAuthorization (forward_headers hs remote key_id req_id)
      × (lookup (codes "X-Forwarded-For") (forward_headers hs remote key_id req_id)
          ≡ some (remote ∷ []))
      × (lookup (codes "X-Openserve-Key-Id") (forward_headers hs remote key_id req_id)
          ≡ some (key_id ∷ []))
      × (lookup (codes "X-Openserve-Request-Id") (forward_headers hs remote key_id req_id)
          ≡ some (req_id ∷ []))
unfolding forward_headers equal_fold bytes_eq
forward_headers_lem hs remote key_id req_id =
    let kept = select (λ h. not (equal_fold h.0 authorization)) hs in
    let first = insert (codes "X-Forwarded-For") (remote ∷ []) kept in
    let second = insert (codes "X-Openserve-Key-Id") (key_id ∷ []) first in
    (
      insert-All (codes "X-Openserve-Request-Id") (req_id ∷ []) second refl (
          insert-All (codes "X-Openserve-Key-Id") (key_id ∷ []) first refl
            (insert-All (codes "X-Forwarded-For") (remote ∷ []) kept refl (select-All hs))),
      lookup-insert (codes "X-Openserve-Request-Id") (codes "X-Forwarded-For") (req_id ∷ []) second
          ∙ lookup-insert (codes "X-Openserve-Key-Id") (codes "X-Forwarded-For") (key_id ∷ []) first
          ∙ lookup-insert (codes "X-Forwarded-For") (codes "X-Forwarded-For") (remote ∷ []) kept,
      lookup-insert (codes "X-Openserve-Request-Id") (codes "X-Openserve-Key-Id") (req_id ∷ [])
            second
          ∙ lookup-insert (codes "X-Openserve-Key-Id") (codes "X-Openserve-Key-Id") (key_id ∷ [])
              first,
      lookup-insert (codes "X-Openserve-Request-Id") (codes "X-Openserve-Request-Id") (req_id ∷ [])
          second,
    )
