-- ===== src/ControlApi/Lookups.antt =====
-- The handlers that only read: GetAuditLog, SearchWeb and RetrieveContext of
-- apps/control-api/internal/handler/handler.go, and Retrieve of
-- apps/control-api/internal/rag/retrieve.go.
use openserve.Prelude.{
  ℕ, ◌+◌, ◌-◌, ◌*◌, ◌==◌, Bytes, codes, bytes_eq, map, select, take, not, format_nat, ltb, leb,
  is_digit, if◌then◌else◌, Bool, true, false, ◌&&◌, ◌||◌, List, [], ◌∷◌, ◌++◌, Option, none, some,
  zero, suc,
}
use openserve.Prelude.Words.{ℤ, pos, negsuc, leb_ℤ, ltb_ℤ, sub_ℕ}
use openserve.ControlApi.Tables.{
  Db, AuditRow, KnowledgeChunk, Fields, Value, text, number, null, raw, order_desc, member_org,
}
use openserve.ControlApi.Database.{
  Verdict, answered, refused, lost, next_verdict, spend, next, Action, Response, respond,
  object_with, http_error, write_json, json_slice, give, fetch_or, query_row, query_rows, scanned,
  or_empty, some_or, check, signed_in, ◌>>=◌, ◌>>◌,
}
use openserve.ControlApi.Deployments.{recovered}
use openserve.ControlApi.Documents.{Embed}

-- `strconv.Atoi` without its error: 0 for what is no number, and the bound for a number that is out
-- of the range of an int64.
abbrev max_uint64 : ℕ
max_uint64 = 18446744073709551615

read_digits : ℕ → Bytes → Option ℕ
read_digits v [] = some v
read_digits v (c ∷ s) =
    let n = v * 10 + (c - b'0') in
    let more = read_digits n s in
    if is_digit c then if leb n max_uint64 then more else some max_uint64 else none

unsigned : Bytes → Option ℕ
unfolding read_digits
unsigned [] = none
unsigned (c ∷ s) = read_digits 0 (c ∷ s)

positive : Option ℕ → ℤ
positive none = pos 0
positive (some n) = if ltb n 9223372036854775808 then pos n else pos 9223372036854775807

negative : Option ℕ → ℤ
negative none = pos 0
negative (some n) = if ltb 9223372036854775808 n then negsuc 9223372036854775807 else sub_ℕ 0 n

unfoldable pub atoi : Bytes → ℤ
unfolding unsigned positive negative
atoi [] = pos 0
atoi (c ∷ s) =
    if c == b'-'
    then negative (unsigned s)
    else if c == b'+'
    then positive (unsigned s)
    else positive (unsigned (c ∷ s))

abbrev is_before : ℤ → AuditRow → Bool
is_before n r = ltb_ℤ (pos r.id) n

-- The rows that the statement gives, or its error: a negative limit, a number that the server cannot
-- read.
abbrev limited : ℤ → List AuditRow → Option (List AuditRow)
limited (pos n) rows = some (take n rows)
limited (negsuc n) rows = none

abbrev behind : Option (Option ℤ) → List AuditRow → Option (List AuditRow)
behind none rows = some rows
behind (some none) rows = none
behind (some (some n)) rows = some (select (is_before n) rows)

unfoldable pub audit_rows : Bytes → Option (Option ℤ) → ℤ → Db → List AuditRow
unfolding order_desc
audit_rows org_id before limit d =
    let rows = select (λ (r : AuditRow). bytes_eq r.entry.org_id org_id) d.audit_log in
    elim (behind before rows) [
      | none ↦ []
      | some kept ↦ or_empty (limited limit (order_desc (λ (r : AuditRow). r.created_at) kept))
    ]

-- `jsonb` is the text that the server keeps for a JSON object.
abbrev details_value : (Fields → Bytes) → Option Fields → Value
details_value jsonb none = null
details_value jsonb (some fields) = raw (jsonb fields)

abbrev audit_fields : (Fields → Bytes) → AuditRow → Fields
audit_fields jsonb r =
    (codes "id", number r.id)
    ∷ (codes "action", text r.entry.action)
    ∷ (codes "resourceType", text r.entry.resource_type)
    ∷ (codes "resourceId", text r.entry.resource_id)
    ∷ (codes "details", details_value jsonb r.entry.details)
    ∷ (codes "ipAddress", null)
    ∷ (codes "createdAt", number r.created_at)
    ∷ []

-- `limit` and `before` are the query's parameters, `read_bigint` how the server reads a number. An
-- error of the statement leaves the list empty.
unfoldable pub get_audit_log :
    (Fields → Bytes) → (Bytes → Option ℤ) → Option Bytes → (limit before : Bytes) → Action Response
unfolding atoi audit_rows member_org
get_audit_log jsonb read_bigint caller limit before = do
  subject ← signed_in caller
  org ← query_row (member_org subject)
  let org_id = scanned [] org
  let n = atoi (if bytes_eq limit [] then codes "50" else limit)
  let behind_id = if bytes_eq before [] then none else some (read_bigint before)
  rows ← query_rows (audit_rows org_id behind_id n)
  give (respond 200 (json_slice (map (audit_fields jsonb) (or_empty rows))))

pub record SearchResult : Type 0 where
  pub title : Bytes
  pub url : Bytes
  pub description : Bytes

abbrev search_fields : SearchResult → Fields
search_fields r =
    (codes "title", text r.title)
    ∷ (codes "url", text r.url)
    ∷ (codes "description", text r.description)
    ∷ []

abbrev error_reply : ℕ → Bytes → Response
error_reply status message = write_json status ((codes "error", text message) ∷ [])

-- The em dash is written in UTF-8.
abbrev not_configured : Bytes
not_configured =
    codes "web search not configured " ++ (226 ∷ 128 ∷ 148 ∷ codes " set BRAVE_API_KEY")

abbrev search_count : ℤ → ℤ
search_count n = if leb_ℤ n (pos 0) || ltb_ℤ (pos 10) n then pos 5 else n

-- `brave` is the search service: no answer, or a status with the results that are decoded from the
-- body. The request can always be built, since the query is escaped.
unfoldable pub search_web :
    (Bytes → ℤ → Option (ℕ × Option (List SearchResult)))
    → (api_key err : Bytes) → Option (Bytes × ℤ)
    → Action Response
search_web brave api_key err body = do
  check (not (bytes_eq api_key [])) (error_reply 503 not_configured)
  (query, count) ←
      some_or (http_error 400 (codes "body must be JSON with a non-empty 'query' field")) body
  check (not (bytes_eq query []))
      (http_error 400 (codes "body must be JSON with a non-empty 'query' field"))
  (status, decoded) ←
      some_or (error_reply 503 (codes "search request failed: " ++ err))
        (brave query (search_count count))
  check (status == 200) (error_reply 503 (codes "Brave Search returned " ++ format_nat status))
  results ← some_or (error_reply 500 (codes "failed to parse search response")) decoded
  give (
      respond 200 (
        object_with ((codes "query", text query) ∷ []) (codes "results")
          (map search_fields results)))

-- A query behind whose rows `rows.Err` is looked at.
unfoldable pub all_rows : {A : Type 0} → Verdict → List A → Option (List A)
all_rows answered rows = some rows
all_rows refused rows = none
all_rows (lost n) rows = none

unfoldable pub query_all : {A : Type 0} → (Db → List A) → Action (Option (List A))
unfolding all_rows
query_all f s = (next (all_rows (next_verdict s.verdicts) (f s.db)), spend s)

-- A chunk with its score, the bit pattern of a float64.
abbrev pub Scored : Type 0
Scored = KnowledgeChunk × ℕ

abbrev top_k : ℤ → ℕ
top_k (pos zero) = 5
top_k (pos (suc n)) = suc n
top_k (negsuc n) = 5

abbrev has_embedding : Option (List ℕ) → Bool
has_embedding none = false
has_embedding (some v) = true

-- `Retrieve`; `nearest` is the vector index: the chunks in the order of their distance.
unfoldable pub retrieve :
    (List ℕ → List KnowledgeChunk → List Scored)
    → Bytes
    → List ℕ
    → ℤ
    → Action (Option (List Scored))
unfolding query_all
retrieve nearest org_id query_embedding k = query_all λ d. take (top_k k) (
    nearest query_embedding (
      select (λ (c : KnowledgeChunk). bytes_eq c.org_id org_id && has_embedding c.embedding)
        d.knowledge_chunks))

abbrev scored_fields : Scored → Fields
scored_fields (c, score) =
    (codes "DocumentID", text c.document_id)
    ∷ (codes "ChunkIndex", number c.chunk_index)
    ∷ (codes "Content", text c.content)
    ∷ (codes "Score", number score)
    ∷ []

-- `vecs[0]`
abbrev first_vector : List (List ℕ) → Option (List ℕ)
first_vector [] = none
first_vector (v ∷ vs) = some v

-- A nil pointer or an index out of range is a panic, which is recovered.
unfoldable pub retrieve_context :
    (List ℕ → List KnowledgeChunk → List Scored)
    → Embed
    → Option Bytes
    → Option (Bytes × ℤ)
    → Bytes
    → Action Response
unfolding retrieve member_org
retrieve_context nearest client caller body err = do
  embed ← some_or (http_error 503 (codes "embedding not configured")) client
  subject ← some_or recovered caller
  org_id ← fetch_or (http_error 404 (codes "organization not found")) (member_org subject)
  (query, k) ← some_or (http_error 400 (codes "invalid request body")) body
  check (not (bytes_eq query [])) (http_error 400 (codes "query is required"))
  vecs ← some_or (http_error 500 (codes "failed to embed query: " ++ err)) (embed (query ∷ []))
  v ← some_or recovered (first_vector vecs)
  found ← retrieve nearest org_id v k
  chunks ← some_or (http_error 500 (codes "failed to retrieve context: " ++ err)) found
  give (respond 200 (json_slice (map scored_fields chunks)))
