-- ===== src/ControlApi/Usage.antt =====
-- The usage statistics: GetUsage of apps/control-api/internal/handler/handler.go.
pub mod Sums
use openserve.Prelude.{
  ℕ, ◌+◌, ◌/◌, ◌==◌, Bytes, codes, bytes_eq, map, select, length, leb, Bool, true, false, ◌&&◌,
  List, [], ◌∷◌, ◌++◌, Option, none, some, if◌then◌else◌,
}
use openserve.ControlApi.Tables.{
  Db, InferenceEvent, Fields, Value, text, number, order_asc, member_org,
}
use openserve.ControlApi.Database.{
  Action, Found, found, no_rows, query_failed, Response, respond, object_with, json_error, give,
  stop, query_row, query_rows, scanned, some_or, signed_in, ◌>>=◌, ◌>>◌,
}

-- A row of the result: the requests of one day and the sums of their tokens.
pub record DayStat : Type 0 where
  pub day : ℕ
  pub requests : ℕ
  pub input_tokens : ℕ
  pub output_tokens : ℕ

-- `DATE(created_at)`, with a timestamp in seconds.
abbrev pub day_of : ℕ → ℕ
day_of t = t / 86400

-- `NOW() - INTERVAL '30 days'`
abbrev pub thirty_days : ℕ
thirty_days = 2592000

-- The condition of the first statement.
abbrev pub is_recent_of : Bytes → ℕ → InferenceEvent → Bool
is_recent_of org_id now e = bytes_eq e.org_id org_id && leb now (e.created_at + thirty_days)

-- `GROUP BY day`: the event is counted in the row of its day.
add_event : InferenceEvent → List DayStat → List DayStat
add_event e [] =
    record {
      day = day_of e.created_at;
      requests = 1;
      input_tokens = e.input_tokens;
      output_tokens = e.output_tokens;
    }
    ∷ []
add_event e (s ∷ stats) =
    let others = s ∷ add_event e stats in
    let here =
      record s {
        requests = s.requests + 1;
        input_tokens = s.input_tokens + e.input_tokens;
        output_tokens = s.output_tokens + e.output_tokens;
      }
      ∷ stats in
    if s.day == day_of e.created_at then here else others

unfoldable pub group_by_day : List InferenceEvent → List DayStat
unfolding add_event
group_by_day [] = []
group_by_day (e ∷ es) = add_event e (group_by_day es)

unfoldable pub daily : Bytes → ℕ → List InferenceEvent → List DayStat
unfolding group_by_day order_asc
daily org_id now events =
    order_asc (λ (s : DayStat). s.day) (group_by_day (select (is_recent_of org_id now) events))

-- The loop over the rows adds up three totals.
pub record Totals : Type 0 where
  pub requests : ℕ
  pub input : ℕ
  pub output : ℕ

unfoldable pub add_up : Totals → List DayStat → Totals
add_up t [] = t
add_up t (s ∷ stats) =
    add_up
      (record {
        requests = t.requests + s.requests;
        input = t.input + s.input_tokens;
        output = t.output + s.output_tokens;
      })
      stats

abbrev pub no_totals : Totals
no_totals = record { requests = 0; input = 0; output = 0 }

-- `format` is `day.Format("2006-01-02")`.
abbrev day_fields : (ℕ → Bytes) → DayStat → Fields
day_fields format s =
    (codes "date", text (format s.day))
    ∷ (codes "requests", number s.requests)
    ∷ (codes "inputTokens", number s.input_tokens)
    ∷ (codes "outputTokens", number s.output_tokens)
    ∷ []

unfoldable pub usage_reply : (ℕ → Bytes) → List DayStat → ℕ → Response
unfolding add_up
usage_reply format stats this_month =
    let t = add_up no_totals stats in
    respond 200 (
      object_with
        ((codes "totalRequests", number t.requests)
          ∷ (codes "totalThisMonth", number this_month)
          ∷ (codes "totalInputTokens", number t.input)
          ∷ (codes "totalOutputTokens", number t.output)
          ∷ [])
        (codes "dailyRequests") (map (day_fields format) stats))

-- A caller without a row gets zeros.
unfoldable pub unless_member : (ℕ → Bytes) → Found Bytes → Action Bytes
unfolding usage_reply
unless_member format (found org_id) = give org_id
unless_member format no_rows = stop (usage_reply format [] 0)
unless_member format query_failed = stop (usage_reply format [] 0)

-- `month_of` is `DATE_TRUNC('month', …)`; `message` the text of the database's error.
unfoldable pub get_usage : (ℕ → Bytes) → (ℕ → ℕ) → Option Bytes → Bytes → ℕ → Action Response
unfolding unless_member daily usage_reply member_org
get_usage format month_of caller message now = do
  subject ← signed_in caller
  row ← query_row (member_org subject)
  org_id ← unless_member format row
  rows ← query_rows (λ d. daily org_id now d.inference_events)
  stats ← some_or (json_error message) rows
  count ← query_row (λ d. some (
      length (
        select
          (λ (e : InferenceEvent).
            bytes_eq e.org_id org_id && month_of e.created_at == month_of now)
          d.inference_events)))
  give (usage_reply format stats (scanned 0 count))
