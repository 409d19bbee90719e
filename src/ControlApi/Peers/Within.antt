-- ===== src/ControlApi/Peers/Within.antt =====
-- What each statement on peers, invites and keys in apps/control-api/internal/handler does to the
-- invites: each names a peer and a key of one org.
use openserve.Prelude.{
  subst, Bytes, bytes_eq, bytes_eq_iff, List, [], ◌∷◌, ◌++◌, some, arith, Bool, true, false, not,
  ◌≡◌, ◌≢◌, refl, Bool-cases, inl, inr, ap, sym, ◌∙◌, All, All-append,
}
use openserve.ControlApi.Tables.{
  Db, Peer, PeerInvite, ApiKey, find, update_where, delete_where, is_peer, is_key, peer_of, key_of,
}
use openserve.ControlApi.Tables.Rows.{
  with_key, find-append, find-delete_where, find-update_where_other, find-update_where_same,
}
use openserve.ControlApi.Database.Keeps.{Allows}
use openserve.ControlApi.Peers.{
  insert_peer, delete_peer_row, set_token, insert_invite, delete_invite, invites,
}
use openserve.ControlApi.Keys.{insert_key}

-- The invite's peer and key are there and belong to the same org.
pub record IsWithinOrg (d : Db) (i : PeerInvite) : Type 0 where
  pub peer : Peer
  pub key : ApiKey
  pub has_peer : peer_of i.peer_id d ≡ some peer
  pub has_key : key_of i.api_key_id d ≡ some key
  pub same_org : peer.org_id ≡ key.org_id

abbrev pub IsSound : Db → Type 0
IsSound d = All (IsWithinOrg d) d.peer_invites

module _ (d d' : Db) where
  moved :
      (is : List PeerInvite)
      → ((i : PeerInvite) → IsWithinOrg d i → IsWithinOrg d' i)
      → All (IsWithinOrg d) is
      → All (IsWithinOrg d') is
  moved [] f h = tt
  moved (i ∷ is) f (h, k) = (f i h, moved is f k)

  kept-All :
      (b : Bool) (i : PeerInvite) (rest : List PeerInvite)
      → (b ≡ false → IsWithinOrg d' i)
      → All (IsWithinOrg d') rest
      → All (IsWithinOrg d') (elim (not b) [ true ↦ i ∷ rest | false ↦ rest ])
  kept-All true i rest h k = k
  kept-All false i rest h k = (h refl, k)

  undeleted :
      (p : PeerInvite → Bool) (is : List PeerInvite)
      → ((i : PeerInvite) → p i ≡ false → IsWithinOrg d i → IsWithinOrg d' i)
      → All (IsWithinOrg d) is
      → All (IsWithinOrg d') (delete_where p is)
  unfolding delete_where
  undeleted p [] f h = tt
  undeleted p (i ∷ is) f (h, k) =
      kept-All (p i) i (delete_where p is) (λ e. f i e h) (undeleted p is f k)

  -- The same peer and key stand under the invite's ids, up to what leaves the org alone.
  same_rows :
      (i : PeerInvite) (w : IsWithinOrg d i) (p : Peer) (k : ApiKey)
      → peer_of i.peer_id d' ≡ some p
      → key_of i.api_key_id d' ≡ some k
      → p.org_id ≡ w.peer.org_id
      → k.org_id ≡ w.key.org_id
      → IsWithinOrg d' i
  same_rows i w p k there known po ko = record {
    peer = p;
    key = k;
    has_peer = there;
    has_key = known;
    same_org = po ∙ (w.same_org ∙ sym ko);
  }

-- Other tables do not matter.
pub framed :
    (d d' : Db)
    → d'.peers ≡ d.peers
    → d'.api_keys ≡ d.api_keys
    → d'.peer_invites ≡ d.peer_invites
    → IsSound d
    → IsSound d'
unfolding peer_of key_of
framed d d' ps ks is h = subst (All (IsWithinOrg d')) (sym is) (
    moved d d' d.peer_invites
      (λ i w.
        same_rows d d' i w w.peer w.key (ap (find (is_peer i.peer_id)) ps ∙ w.has_peer)
          (ap (find (is_key i.api_key_id)) ks ∙ w.has_key) refl refl)
      h)

-- The statements about peers.
pub insert_peer-IsSound : (p : Peer) (d : Db) → IsSound d → Allows IsSound (insert_peer p d)
unfolding insert_peer peer_of key_of
insert_peer-IsSound p d h =
    let after = record d { peers = d.peers ++ p ∷ [] } in
    let kept : IsSound after =
      moved d after d.peer_invites
        (λ i w.
          same_rows d after i w w.peer w.key
            (find-append (is_peer i.peer_id) d.peers (p ∷ []) w.peer w.has_peer) (w.has_key) refl
            refl)
        h in
    ground arith

pub delete_peer_row-IsSound :
    (id : Bytes) (d : Db) → IsSound d → Allows IsSound (delete_peer_row id d)
unfolding delete_peer_row peer_of key_of
delete_peer_row-IsSound id d h =
    let after = record d {
      peers = delete_where (is_peer id) d.peers;
      peer_invites = delete_where (λ (i : PeerInvite). bytes_eq i.peer_id id) d.peer_invites;
    } in
    undeleted d after (λ (i : PeerInvite). bytes_eq i.peer_id id) d.peer_invites
      (λ i e w.
        let apart : id ≢ i.peer_id = λ same. ground (arith, bytes_eq_iff i.peer_id id) in
        same_rows d after i w w.peer w.key
          (find-delete_where (λ (p : Peer). p.id) id i.peer_id d.peers apart ∙ w.has_peer)
          (w.has_key) refl refl)
      h

-- A row that an update leaves in its org is found again.
updated :
    {A : Type 0} (key org : A → Bytes) (f : A → A) (id j : Bytes) (xs : List A) (x : A)
    → ((y : A) → key (f y) ≡ key y)
    → ((y : A) → org (f y) ≡ org y)
    → find (with_key key j) xs ≡ some x
    → (y : A) × (find (with_key key j) (update_where (with_key key id) f xs) ≡ some y)
      × (org y ≡ org x)
updated key org f id j xs x same within e = elim (Bool-cases (bytes_eq id j)) [
  | inl here ↦
      let at = (bytes_eq_iff id j).0 here in
      (f x, rw (← at) (find-update_where_same key id f xs x same (rw at e)), within x)
  | inr other ↦ (
    x,
    find-update_where_other key id j f xs (λ s. ground (arith, bytes_eq_iff id j)) same ∙ e,
    refl,
  )
]

pub set_token-IsSound :
    (id hash : Bytes) (d : Db) → IsSound d → Allows IsSound (set_token id hash d)
unfolding set_token peer_of key_of
set_token-IsSound id hash d h =
    let after = record d {
      peers =
          update_where (is_peer id) (λ p. record p { token_hash = hash; online = false }) d.peers;
    } in
    moved d after d.peer_invites
      (λ i w.
        let (p, there, within) =
          updated (λ (p : Peer). p.id) (λ p. p.org_id)
            (λ p. record p { token_hash = hash; online = false }) id i.peer_id d.peers w.peer
            (λ y. refl) (λ y. refl) (w.has_peer) in
        same_rows d after i w p w.key (there) (w.has_key) within refl)
      h

pub delete_invite-IsSound :
    (peer_id key_id : Bytes) (d : Db) → IsSound d → Allows IsSound (delete_invite peer_id key_id d)
unfolding delete_invite peer_of key_of
delete_invite-IsSound peer_id key_id d h =
    let after = record d { peer_invites = delete_where (invites peer_id key_id) d.peer_invites } in
    undeleted d after (invites peer_id key_id) d.peer_invites
      (λ i e w. same_rows d after i w w.peer w.key (w.has_peer) (w.has_key) refl refl) h

-- The statements about keys.
pub insert_key-IsSound : (k : ApiKey) (d : Db) → IsSound d → Allows IsSound (insert_key k d)
unfolding insert_key peer_of key_of
insert_key-IsSound k d h =
    let after = record d { api_keys = d.api_keys ++ k ∷ [] } in
    let kept : IsSound after =
      moved d after d.peer_invites
        (λ i w.
          same_rows d after i w w.peer w.key (w.has_peer)
            (find-append (is_key i.api_key_id) d.api_keys (k ∷ []) w.key w.has_key) refl refl)
        h in
    ground arith

pub update_key-IsSound :
    (id : Bytes) (f : ApiKey → ApiKey) (d : Db)
    → ((k : ApiKey) → (f k).id ≡ k.id)
    → ((k : ApiKey) → (f k).org_id ≡ k.org_id)
    → IsSound d
    → IsSound (record d { api_keys = update_where (is_key id) f d.api_keys })
unfolding peer_of key_of
update_key-IsSound id f d same within h =
    let after = record d { api_keys = update_where (is_key id) f d.api_keys } in
    moved d after d.peer_invites
      (λ i w.
        let (k, there, in_org) =
          updated (λ (k : ApiKey). k.id) (λ k. k.org_id) f id i.api_key_id d.api_keys w.key same
            within (w.has_key) in
        same_rows d after i w w.peer k (w.has_peer) (there) refl in_org)
      h

-- An invite for a peer and a key that were read and compared.
pub insert_invite-IsSound :
    (i : PeerInvite) (p : Peer) (k : ApiKey) (d : Db)
    → bytes_eq k.org_id p.org_id ≡ true
    → peer_of i.peer_id d ≡ some p
    → key_of i.api_key_id d ≡ some k
    → IsSound d
    → Allows IsSound (insert_invite i d)
unfolding insert_invite peer_of key_of
insert_invite-IsSound i p k d same there known h =
    let after = record d { peer_invites = d.peer_invites ++ i ∷ [] } in
    let old : All (IsWithinOrg after) d.peer_invites =
      moved d after d.peer_invites
        (λ j w. same_rows d after j w w.peer w.key (w.has_peer) (w.has_key) refl refl) h in
    let new : IsWithinOrg after i = record {
      peer = p;
      key = k;
      has_peer = there;
      has_key = known;
      same_org = sym ((bytes_eq_iff k.org_id p.org_id).0 same);
    } in
    let both : IsSound after =
      All-append (IsWithinOrg after) d.peer_invites (i ∷ []) old (new, tt) in
    ground arith
