-- ===== src/ControlApi/History.antt =====
-- What can become of the control API's database: the calls of its routes, the sign-ins, and what
-- the goroutines of apps/control-api/internal/handler/handler.go do between them.
use openserve.Prelude.{refl, Bytes, List, [], ◌∷◌, ◌++◌, ℕ, arith, false}
use openserve.Identity.{Claims}
use openserve.ControlApi.Tables.{Db, AuditEntry, AuditRow}
use openserve.ControlApi.Database.{State, Verdict, Job, exec, insert_audit}
use openserve.ControlApi.Database.Keeps.{Keeps, Allows, Keeps-exec}
use openserve.ControlApi.Login.{provision}
use openserve.ControlApi.Documents.{Embed, process_document}
use openserve.ControlApi.Frames.{
  serve_webhooks-Keeps, serve_org-Keeps, serve_templates-Keeps, serve_conversations-Keeps,
  serve_deployments-Keeps, serve_documents-Keeps, serve_lookups-Keeps,
}
use openserve.ControlApi.Members.Frames.{serve_members-Keeps}
use openserve.ControlApi.Peers.Within.{IsSound, framed}
use openserve.ControlApi.Peers.Invites.{serve_peers-IsSound, serve_keys-IsSound}
use openserve.ControlApi.Login.Frames.{provision-Keeps}
use openserve.ControlApi.Documents.Frames.{process_document-Keeps}
use openserve.ControlApi.Routes

-- One thing that happens: a call of a route, the transaction of a sign-in, an audit entry that is
-- written, a document that is cut and stored.
pub data Step (s : State) : State → Type 0 where
  served :
      (env : Routes.Env) (call : Routes.Call) (r : Routes.Route)
      → Step s (Routes.serve_route env call r s).1
  provisioned :
      (c : Claims) (domain new_org new_id : Bytes) (now : ℕ)
      → Step s (provision c domain new_org new_id now s).1
  logged : (id : ℕ) (e : AuditEntry) (now : ℕ) → Step s (exec (insert_audit id e now) s).1
  processed :
      (embed : Embed) (err : Bytes) (job : Job) → Step s (process_document embed err job s).1

abbrev pub empty_db : Db
empty_db = record {
  orgs = [];
  members = [];
  api_keys = [];
  audit_log = [];
  deployment_cache = [];
  peers = [];
  peer_invites = [];
  webhooks = [];
  conversations = [];
  conversation_messages = [];
  prompt_templates = [];
  knowledge_documents = [];
  knowledge_chunks = [];
  inference_events = [];
}

-- The states behind an empty database, whatever becomes of the statements.
abbrev pub new_state : List Verdict → State
new_state verdicts = record {
  db = empty_db;
  tx = empty_db;
  aborted = false;
  verdicts = verdicts;
  spawned = [];
  jobs = [];
}

pub data Reach : State → Type 0 where
  start : (verdicts : List Verdict) → Reach (new_state verdicts)
  then_step : {s s' : State} → Reach s → Step s s' → Reach s'

module _ {P : Db → Type 0}
    (keep : (d : Db) (rows : List AuditRow) → P d → P (record d { audit_log = rows })) where
  pub insert_audit-Allows :
      (id : ℕ) (e : AuditEntry) (now : ℕ) (d : Db) → P d → Allows P (insert_audit id e now d)
  unfolding insert_audit
  insert_audit-Allows id e now d h =
      let k = keep d (d.audit_log ++ record { id = id; entry = e; created_at = now } ∷ []) h in
      ground arith

serve_route-IsSound :
    (env : Routes.Env) (call : Routes.Call) (r : Routes.Route)
    → Keeps IsSound (Routes.serve_route env call r)
unfolding Routes.serve_route
serve_route-IsSound env call (Routes.of_peers r) = serve_peers-IsSound env call r
serve_route-IsSound env call (Routes.of_keys r) = serve_keys-IsSound env call r
serve_route-IsSound env call (Routes.of_members r) =
    serve_members-Keeps {P = IsSound} (λ d ms cs msgs ts xs k. framed d _ refl refl refl k) env call
      r
serve_route-IsSound env call (Routes.of_org r) =
    serve_org-Keeps {P = IsSound} (λ d rows k. framed d _ refl refl refl k) env call r
serve_route-IsSound env call (Routes.of_webhooks r) =
    serve_webhooks-Keeps {P = IsSound} (λ d rows k. framed d _ refl refl refl k) env call r
serve_route-IsSound env call (Routes.of_templates r) =
    serve_templates-Keeps {P = IsSound} (λ d rows k. framed d _ refl refl refl k) env call r
serve_route-IsSound env call (Routes.of_conversations r) =
    serve_conversations-Keeps {P = IsSound} (λ d rows msgs k. framed d _ refl refl refl k) env call
      r
serve_route-IsSound env call (Routes.of_deployments r) =
    serve_deployments-Keeps {P = IsSound} (λ d rows k. framed d _ refl refl refl k) env call r
serve_route-IsSound env call (Routes.of_documents r) =
    serve_documents-Keeps {P = IsSound} (λ d rows chunks k. framed d _ refl refl refl k) env call r
serve_route-IsSound env call (Routes.of_lookups r) = serve_lookups-Keeps {P = IsSound} env call r

Step-IsSound : {s s' : State} → IsSound s.db → Step s s' → IsSound s'.db
Step-IsSound {s} h (served env call r) = (serve_route-IsSound env call r).at s h
Step-IsSound {s} h (provisioned c domain new_org new_id now) =
    (provision-Keeps {P = IsSound} (λ d rows k. framed d _ refl refl refl k)
        (λ d rows k. framed d _ refl refl refl k) c domain new_org new_id now).at
      s h
Step-IsSound {s} h (logged id e now) =
    (Keeps-exec {P = IsSound} (insert_audit id e now)
        (insert_audit-Allows {P = IsSound} (λ d rows k. framed d _ refl refl refl k) id e now)).at
      s h
Step-IsSound {s} h (processed embed err job) =
    (process_document-Keeps {P = IsSound} (λ d rows chunks k. framed d _ refl refl refl k) embed err
        job).at
      s h

-- Whatever calls of the API, sign-ins, audit entries and documents come one after the other, and
-- whatever becomes of their statements: every invite names a peer and an API key that exist and
-- belong to the same org.
pub Reach-IsSound : {s : State} → Reach s → IsSound s.db
Reach-IsSound (start verdicts) = tt
Reach-IsSound (then_step r step) = Step-IsSound (Reach-IsSound r) step
