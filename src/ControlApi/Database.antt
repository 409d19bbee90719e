-- ===== src/ControlApi/Database.antt =====
-- How the handlers of apps/control-api/internal/handler run: statements against the database, any
-- of which may fail, early returns with a response, and audit entries that a goroutine writes later.
mod Replies
mod Statements
mod Commits
pub mod Keeps
pub mod Transactions
use openserve.Prelude.{
  ℕ, Bytes, codes, take, not, ◌||◌, Bool, true, false, List, [], ◌∷◌, ◌++◌, Option, none, some,
}
use openserve.ControlApi.Tables.{text, Fields, Db, AuditEntry, has_org, has_member}
unfoldable pub use Replies.*
unfoldable pub use Statements.*
unfoldable pub use Commits.*

-- `auth.UserFromContext`, with the 401 where there are no claims: the caller's subject.
unfoldable pub signed_in : Option Bytes → Action Bytes
unfolding some_or
signed_in caller = some_or unauthorized caller

-- `writeAuditLog`: a goroutine is started that inserts the entry.
unfoldable pub write_audit_log :
    (org_id subject action resource_type resource_id : Bytes) → Option Fields → Action (Unit {0})
write_audit_log org_id subject action resource_type resource_id details s = (
  next tt,
  record s {
    spawned =
        s.spawned
        ++ record {
          org_id = org_id;
          actor_member_id = subject;
          action = action;
          resource_type = resource_type;
          resource_id = resource_id;
          details = details;
        }
          ∷ [];
  },
)

-- The statement of that goroutine; its error is dropped. An entry needs its org and its actor; the
-- server gives its number and time.
unfoldable pub insert_audit : ℕ → AuditEntry → ℕ → Db → Change (Unit {0})
unfolding has_org has_member
insert_audit id e now d = elim (has_org e.org_id d) [
  | true ↦ elim (has_member e.actor_member_id d) [
    | true ↦ changed tt (record d {
      audit_log = d.audit_log ++ record { id = id; entry = e; created_at = now } ∷ [];
    })
    | false ↦ violation
  ]
  | false ↦ violation
]
