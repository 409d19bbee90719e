-- ===== src/ControlApi/Webhooks.antt =====
-- Webhooks: ListWebhooks, CreateWebhook and DeleteWebhook of
-- apps/control-api/internal/handler/handler.go.
use openserve.Prelude.{
  ℕ, Bytes, codes, bytes_eq, map, select, Bool, true, false, ◌&&◌, ◌||◌, List, [], ◌∷◌, ◌++◌,
  Option, none, some,
}
use openserve.Prelude.Hex.{hex_encode}
use openserve.ControlApi.Tables.{
  Db, Webhook, Fields, text, texts, flag, number, any, delete_where, order_desc, member_org,
  has_org,
}
use openserve.ControlApi.Database.{
  Action, Response, respond, array, http_error, write_json, no_content, Change, changed,
  unique_violation, violation, give, fetch_or, query_rows, must, some_or, check, signed_in, ◌>>=◌,
  ◌>>◌,
}

abbrev pub no_org : Response
no_org = http_error 500 (codes "failed to get org")

abbrev db_error : Response
db_error = http_error 500 (codes "db error")

abbrev pub of_org : Bytes → Webhook → Bool
of_org org_id w = bytes_eq w.org_id org_id

-- The secret is not among them.
abbrev webhook_fields : Webhook → Fields
webhook_fields w =
    (codes "id", text w.id)
    ∷ (codes "url", text w.url)
    ∷ (codes "events", texts w.events)
    ∷ (codes "enabled", flag w.enabled)
    ∷ (codes "createdAt", number w.created_at)
    ∷ []

webhooks_of : Bytes → Db → List Webhook
unfolding order_desc
webhooks_of org_id d =
    order_desc (λ (w : Webhook). w.created_at) (select (of_org org_id) d.webhooks)

unfoldable pub list_webhooks : Option Bytes → Action Response
unfolding webhooks_of member_org
list_webhooks caller = do
  subject ← signed_in caller
  org_id ← fetch_or no_org (member_org subject)
  rows ← query_rows (webhooks_of org_id)
  found ← some_or db_error rows
  give (respond 200 (array (map webhook_fields found)))

unfoldable pub insert_webhook : Webhook → Db → Change Bytes
unfolding any has_org
insert_webhook w d = elim (any (λ (x : Webhook). bytes_eq x.id w.id) d.webhooks) [
  | true ↦ unique_violation
  | false ↦ elim (has_org w.org_id d) [
    | true ↦ changed w.id (record d { webhooks = d.webhooks ++ w ∷ [] })
    | false ↦ violation
  ]
]

pub record WebhookRequest : Type 0 where
  pub url : Bytes
  pub events : List Bytes

is_web : Option Bytes → Bool
is_web none = false
is_web (some scheme) = bytes_eq scheme (codes "https") || bytes_eq scheme (codes "http")

-- `scheme_of` is the scheme that `url.Parse` gives; `secret` is what `rand.Read` leaves in the
-- 32 bytes, all zero where it fails.
unfoldable pub create_webhook :
    (Bytes → Option Bytes)
    → Option Bytes
    → Option WebhookRequest
    → (secret new_id : Bytes) → ℕ
    → Action Response
unfolding is_web insert_webhook member_org
create_webhook scheme_of caller body secret new_id now = do
  subject ← signed_in caller
  org_id ← fetch_or no_org (member_org subject)
  req ← some_or (http_error 400 (codes "invalid body")) body
  check (is_web (scheme_of req.url)) (http_error 400 (codes "webhook URL must be http or https"))
  id ← must db_error (
      insert_webhook (record {
        id = new_id;
        org_id = org_id;
        url = req.url;
        secret = hex_encode secret;
        events = req.events;
        enabled = true;
        created_at = now;
      }))
  give (write_json 201 ((codes "id", text id) ∷ []))

unfoldable pub delete_webhook_row : Bytes → Bytes → Db → Change (Unit {0})
unfolding delete_where
delete_webhook_row id org_id d = changed tt (record d {
  webhooks = delete_where (λ (w : Webhook). bytes_eq w.id id && of_org org_id w) d.webhooks;
})

unfoldable pub delete_webhook : Option Bytes → Bytes → Action Response
unfolding delete_webhook_row member_org
delete_webhook caller id = do
  subject ← signed_in caller
  org_id ← fetch_or no_org (member_org subject)
  must db_error (delete_webhook_row id org_id)
  give no_content
