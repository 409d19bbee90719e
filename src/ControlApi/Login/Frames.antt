-- ===== src/ControlApi/Login/Frames.antt =====
-- Which tables the transaction of OIDCCallback in apps/control-api/internal/handler/handler.go may
-- write.
use openserve.Prelude.{Bytes, List, [], ◌∷◌, ◌++◌, ℕ, Option, none, some, arith, false}
use openserve.ControlApi.Tables.{Db, Org, Member}
use openserve.ControlApi.Database.Keeps.{Keeps, Allows, Ensures-check}
use openserve.ControlApi.Database.Transactions.{TxKeeps-tx_exec, tx_rules, Keeps-begin}
use openserve.Identity.{Claims}
use openserve.ControlApi.Login.{upsert_org, upsert_found, sign_up, provision}
use openserve.ControlApi.Members

module _ {P : Db → Type 0}
    (keep_orgs : (d : Db) (rows : List Org) → P d → P (record d { orgs = rows }))
    (keep_members : (d : Db) (rows : List Member) → P d → P (record d { members = rows })) where
  upsert_found-Allows :
      (new_id domain : Bytes) (now : ℕ) (d : Db) (o : Option Org)
      → P d
      → Allows P (upsert_found new_id domain now d o)
  unfolding upsert_found
  upsert_found-Allows new_id domain now d (some o) h = h
  upsert_found-Allows new_id domain now d none h =
      let k =
        keep_orgs d
          (d.orgs
            ++ record { id = new_id; name = domain; google_domain = domain; created_at = now } ∷ [])
          h in
      ground arith

  upsert_org-Allows :
      (new_id domain : Bytes) (now : ℕ) (d : Db) → P d → Allows P (upsert_org new_id domain now d)
  unfolding upsert_org
  upsert_org-Allows new_id domain now d h = upsert_found-Allows new_id domain now d _ h

  member_found-Allows :
      (m : Member) (f : Member → Member) (d : Db) (old : Option Member)
      → P d
      → Allows P (Members.upsert_found m f d old)
  unfolding Members.upsert_found
  member_found-Allows m f d (some old) h = keep_members d _ h
  member_found-Allows m f d none h = let k = keep_members d (d.members ++ m ∷ []) h in ground arith

  sign_up-Allows :
      (new_id org_id email name role : Bytes) (now : ℕ) (d : Db)
      → P d
      → Allows P (sign_up new_id org_id email name role now d)
  unfolding sign_up Members.upsert_member
  sign_up-Allows new_id org_id email name role now d h = member_found-Allows _ _ d _ h

  pub provision-Keeps :
      (c : Claims) (domain new_org new_id : Bytes) (now : ℕ)
      → Keeps P (provision c domain new_org new_id now)
  unfolding provision
  provision-Keeps c domain new_org new_id now =
      Keeps-begin _ (search (tx_rules, TxKeeps-tx_exec, upsert_org-Allows, sign_up-Allows) depth 40)
        (Ensures-check false _ _ (λ d h. h) (λ e. absurd (cc)))
