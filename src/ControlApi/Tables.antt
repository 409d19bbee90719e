-- ===== src/ControlApi/Tables.antt =====
-- The rows of the tables in apps/control-api/internal/db/migrations, and the selects that the
-- handlers of apps/control-api/internal/handler share. A timestamp is a number, a float32 its bit
-- pattern, an amount of money a number of hundredths of a cent. Columns that no statement of the
-- handlers writes or reads are left out.
mod Clauses
pub mod Rows
pub mod Sole
use mathlib.Core.Option
use openserve.Prelude.{
  ℕ, leb, Bytes, bytes_eq, not, select, Bool, true, false, List, [], ◌∷◌, Option, none, some, ◌||◌,
}
use openserve.Prelude.Words.{ℤ}
unfoldable pub use Clauses.*

pub record Org : Type 0 where
  pub id : Bytes
  pub name : Bytes
  pub google_domain : Bytes
  pub created_at : ℕ

pub record Member : Type 0 where
  pub id : Bytes
  pub org_id : Bytes
  pub email : Bytes
  pub name : Bytes
  pub role : Bytes
  pub joined_at : Option ℕ
  pub created_at : ℕ

pub record ApiKey : Type 0 where
  pub id : Bytes
  pub org_id : Bytes
  pub created_by : Bytes
  pub display_name : Bytes
  pub key_prefix : Bytes
  pub key_hash : Bytes
  pub role : Bytes
  pub rpm : ℕ
  pub tpm : ℕ
  pub expires_at : Option ℕ
  pub active : Bool
  pub created_at : ℕ
  pub last_used_at : Option ℕ

-- A column value on its way into JSON; `raw` is JSON text.
pub data Value : Type 0 where
  null : Value
  text : Bytes → Value
  number : ℕ → Value
  integer : ℤ → Value
  flag : Bool → Value
  texts : List Bytes → Value
  raw : Bytes → Value

abbrev pub Fields : Type 0
Fields = List (Bytes × Value)

pub record AuditEntry : Type 0 where
  pub org_id : Bytes
  pub actor_member_id : Bytes
  pub action : Bytes
  pub resource_type : Bytes
  pub resource_id : Bytes
  pub details : Option Fields

-- A row of `audit_log`.
pub record AuditRow : Type 0 where
  pub id : ℕ
  pub entry : AuditEntry
  pub created_at : ℕ

-- A row of `deployment_cache`.
pub record CachedDeployment : Type 0 where
  pub id : Bytes
  pub org_id : Bytes
  pub model_ref : Bytes
  pub gpu_class : Bytes
  pub phase : Bytes
  pub endpoint : Option Bytes
  pub today_usd_spend : ℕ
  pub budget_paused_at : Option ℕ
  pub updated_at : ℕ
  pub web_search_enabled : Bool

pub record Peer : Type 0 where
  pub id : Bytes
  pub org_id : Bytes
  pub name : Bytes
  pub owner_id : Bytes
  pub token_hash : Bytes
  pub models : List Bytes
  pub online : Bool
  pub last_seen : Option ℕ
  pub created_at : ℕ

pub record PeerInvite : Type 0 where
  pub id : Bytes
  pub peer_id : Bytes
  pub api_key_id : Bytes
  pub created_at : ℕ

pub record Webhook : Type 0 where
  pub id : Bytes
  pub org_id : Bytes
  pub url : Bytes
  pub secret : Bytes
  pub events : List Bytes
  pub enabled : Bool
  pub created_at : ℕ

pub record Conversation : Type 0 where
  pub id : Bytes
  pub org_id : Bytes
  pub member_id : Bytes
  pub deployment_id : Bytes
  pub title : Bytes
  pub created_at : ℕ
  pub updated_at : ℕ

pub record ConversationMessage : Type 0 where
  pub id : Bytes
  pub conversation_id : Bytes
  pub role : Bytes
  pub content : Bytes
  pub created_at : ℕ

pub record PromptTemplate : Type 0 where
  pub id : Bytes
  pub org_id : Bytes
  pub name : Bytes
  pub description : Bytes
  pub content : Bytes
  pub created_by : Option Bytes
  pub created_at : ℕ
  pub updated_at : ℕ

pub record KnowledgeDocument : Type 0 where
  pub id : Bytes
  pub org_id : Bytes
  pub name : Bytes
  pub file_type : Bytes
  pub file_size_bytes : ℕ
  pub chunk_count : ℕ
  pub status : Bytes
  pub error_message : Option Bytes
  pub created_by : Option Bytes
  pub created_at : ℕ

pub record KnowledgeChunk : Type 0 where
  pub document_id : Bytes
  pub org_id : Bytes
  pub chunk_index : ℕ
  pub content : Bytes
  pub embedding : Option (List ℕ)

pub record InferenceEvent : Type 0 where
  pub org_id : Bytes
  pub input_tokens : ℕ
  pub output_tokens : ℕ
  pub created_at : ℕ

pub record Db : Type 0 where
  pub orgs : List Org
  pub members : List Member
  pub api_keys : List ApiKey
  pub audit_log : List AuditRow
  pub deployment_cache : List CachedDeployment
  pub peers : List Peer
  pub peer_invites : List PeerInvite
  pub webhooks : List Webhook
  pub conversations : List Conversation
  pub conversation_messages : List ConversationMessage
  pub prompt_templates : List PromptTemplate
  pub knowledge_documents : List KnowledgeDocument
  pub knowledge_chunks : List KnowledgeChunk
  pub inference_events : List InferenceEvent

-- The rows that a statement names by their id, and the foreign keys that it must find.
abbrev pub is_org : Bytes → Org → Bool
is_org id o = bytes_eq o.id id

abbrev pub is_member : Bytes → Member → Bool
is_member id m = bytes_eq m.id id

abbrev pub is_key : Bytes → ApiKey → Bool
is_key id k = bytes_eq k.id id

abbrev pub is_peer : Bytes → Peer → Bool
is_peer id p = bytes_eq p.id id

-- `SELECT … FROM members WHERE id = $1`, and so for the other tables.
unfoldable pub member_of : Bytes → Db → Option Member
unfolding find
member_of id d = find (is_member id) d.members

-- `SELECT org_id FROM members WHERE id = $1`
unfoldable pub member_org : Bytes → Db → Option Bytes
unfolding member_of
member_org id d = Option.map (λ (m : Member). m.org_id) (member_of id d)

unfoldable pub key_of : Bytes → Db → Option ApiKey
unfolding find
key_of id d = find (is_key id) d.api_keys

unfoldable pub peer_of : Bytes → Db → Option Peer
unfolding find
peer_of id d = find (is_peer id) d.peers

unfoldable pub has_org : Bytes → Db → Bool
unfolding any
has_org id d = any (is_org id) d.orgs

unfoldable pub has_member : Bytes → Db → Bool
unfolding any
has_member id d = any (is_member id) d.members

unfoldable pub has_key : Bytes → Db → Bool
unfolding any
has_key id d = any (is_key id) d.api_keys

unfoldable pub has_peer : Bytes → Db → Bool
unfolding any
has_peer id d = any (is_peer id) d.peers

-- A text column, a nullable one, and a nullable time as values.
abbrev pub optional_text : Option Bytes → Value
optional_text none = null
optional_text (some t) = text t

abbrev pub optional_time : Option ℕ → Value
optional_time none = null
optional_time (some t) = number t

-- `SELECT org_id FROM api_keys WHERE id = $1`
unfoldable pub key_org : Bytes → Db → Option Bytes
unfolding key_of
key_org id d = Option.map (λ (k : ApiKey). k.org_id) (key_of id d)
