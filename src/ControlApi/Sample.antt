-- ===== src/ControlApi/Sample.antt =====
-- A small database of the control API (apps/control-api), and callers of it.
use openserve.Prelude.{ℕ, Bytes, codes, [], ◌∷◌, none, some, true}
use openserve.Keys.Sample.{sum_argon2}
use openserve.ControlApi.Tables.{
  Db, Member, ApiKey, Peer, Conversation, ConversationMessage, PromptTemplate, InferenceEvent,
}
use openserve.ControlApi.Database.{State}
use openserve.ControlApi.History.{new_state, empty_db}
use openserve.Identity.{Claims}
use openserve.ControlApi.Routes

abbrev pub acme : Bytes
acme = codes "acme"

abbrev pub ann : Bytes
ann = codes "ann"

abbrev pub bob : Bytes
bob = codes "bob"

abbrev pub member : Bytes → Bytes → Bytes → Member
member id org_id role = record {
  id = id;
  org_id = org_id;
  email = id;
  name = id;
  role = role;
  joined_at = none;
  created_at = 1;
}

abbrev pub box : Peer
box = record {
  id = codes "p1";
  org_id = acme;
  name = codes "box";
  owner_id = ann;
  token_hash = codes "h";
  models = [];
  online = true;
  last_seen = none;
  created_at = 2;
}

abbrev pub key : ApiKey
key = record {
  id = codes "k1";
  org_id = acme;
  created_by = ann;
  display_name = codes "ci";
  key_prefix = codes "osk";
  key_hash = codes "h";
  role = codes "developer";
  rpm = 60;
  tpm = 1000;
  expires_at = none;
  active = true;
  created_at = 3;
  last_used_at = none;
}

abbrev pub talk : Conversation
talk = record {
  id = codes "c1";
  org_id = acme;
  member_id = ann;
  deployment_id = codes "d1";
  title = codes "hello";
  created_at = 4;
  updated_at = 4;
}

abbrev pub message : ConversationMessage
message = record {
  id = codes "m1";
  conversation_id = codes "c1";
  role = codes "user";
  content = codes "hi";
  created_at = 5;
}

abbrev pub template : PromptTemplate
template = record {
  id = codes "t1";
  org_id = acme;
  name = codes "greet";
  description = [];
  content = codes "hi";
  created_by = some ann;
  created_at = 6;
  updated_at = 6;
}

abbrev pub event : ℕ → ℕ → InferenceEvent
event n t = record { org_id = acme; input_tokens = n; output_tokens = 1; created_at = t }

-- Ann is an admin of acme, who has a peer, a key, a conversation and a template; Bob develops at
-- another org.
abbrev pub sample_db : Db
sample_db = record empty_db {
  orgs =
      record { id = acme; name = acme; google_domain = acme; created_at = 0 }
      ∷ record { id = codes "other"; name = []; google_domain = []; created_at = 0 }
      ∷ [];
  members = member ann acme (codes "admin") ∷ member bob (codes "other") (codes "developer") ∷ [];
  api_keys = key ∷ [];
  peers = box ∷ [];
  conversations = talk ∷ [];
  conversation_messages = message ∷ [];
  prompt_templates = template ∷ [];
}

abbrev pub sample : State
sample = record (new_state []) { db = sample_db }

abbrev pub env : Routes.Env
env = record {
  argon2 = sum_argon2;
  k8s = none;
  scheme_of = λ url. some url;
  read_pdf = λ file. none;
  format_day = λ day. codes "day";
  month_of = λ t. t;
  models = none;
  jsonb = λ fields. [];
  read_bigint = λ n. none;
  brave = λ query count. none;
  brave_api_key = [];
  embed = none;
  nearest = λ v chunks. [];
}

abbrev pub call_of : Bytes → Routes.Call
call_of subject = record {
  caller = some subject;
  new_id = codes "n1";
  now = 9;
  random = some (1 ∷ 2 ∷ []);
  random_salt = some (3 ∷ 4 ∷ []);
  secret = codes "s";
  error_text = codes "e";
}

abbrev pub ann_claims : Claims
ann_claims = record { subject = ann; email = codes "ann@acme"; name = ann; email_verified = true }
