-- ===== src/ControlApi/Documents.antt =====
-- Documents for retrieval: UploadDocument, processDocument, ListDocuments and DeleteDocument of
-- apps/control-api/internal/handler/handler.go.
mod Processing
pub mod Frames
pub mod Inserts
pub mod Storage
use mathlib.Core.Option
use mathlib.Core.List.{reverse}
use openserve.Prelude.{
  ℕ, ◌+◌, ◌==◌, Bytes, codes, bytes_eq, map, select, length, get_elem?, not, format_nat,
  if◌then◌else◌, Bool, true, false, ◌&&◌, ◌||◌, List, [], ◌∷◌, ◌++◌, Option, none, some,
}
use openserve.Prelude.Words.{pos}
use openserve.Gateway.Proxy.Forward.{lower}
use openserve.ControlApi.Tables.{
  Db, Member, KnowledgeDocument, KnowledgeChunk, Fields, Value, text, number, find, any,
  update_where, delete_where, order_desc, member_of, member_org, has_org, has_member,
}
use openserve.ControlApi.Database.{
  Action, State, Job, Response, respond, nothing, http_error, write_json, json_status, json_slice,
  Change, changed, unique_violation, violation, give, fetch, fetch_or, query_rows, exec, must,
  some_or, check, signed_in, next, begin, tx_exec, commit, ◌>>=◌, ◌>>◌,
}
use openserve.ControlApi.Chunk.{chunk}
unfoldable pub use Processing.*

pub record Upload : Type 0 where
  pub filename : Bytes
  pub size : ℕ
  pub content : Bytes

-- `strings.TrimPrefix(filepath.Ext(name), ".")`: what stands behind the last dot of the last
-- element of the path, read from its end.
behind_dot : Bytes → Bytes → Bytes
behind_dot suffix [] = []
behind_dot suffix (c ∷ reversed) =
    let rest = behind_dot (c ∷ suffix) reversed in
    if c == b'.' then suffix else if c == b'/' then [] else rest

unfoldable pub file_ext : Bytes → Bytes
unfolding behind_dot
file_ext filename = map lower (behind_dot [] (reverse filename))

abbrev is_text_file : Bytes → Bool
is_text_file ext = bytes_eq ext (codes "txt") || bytes_eq ext (codes "md")

-- `rag.ExtractText` and its error's text; `read_pdf` is the PDF library.
unfoldable pub extract_text : (Bytes → Option Bytes) → Upload → Option Bytes
unfolding file_ext
extract_text read_pdf u =
    let ext = file_ext u.filename in
    if is_text_file ext
    then some u.content
    else if bytes_eq ext (codes "pdf")
    then read_pdf u.content
    else none

unfoldable pub insert_document : KnowledgeDocument → Db → Change Bytes
unfolding any has_org
insert_document x d = elim (any (is_document x.id) d.knowledge_documents) [
  | true ↦ unique_violation
  | false ↦ elim (has_org x.org_id d) [
    | true ↦ changed x.id (record d { knowledge_documents = d.knowledge_documents ++ x ∷ [] })
    | false ↦ violation
  ]
]

-- `go h.processDocument(…)`
unfoldable pub start_job : Job → Action (Unit {0})
start_job job s = (next tt, record s { jobs = s.jobs ++ job ∷ [] })

-- A nil pointer is dereferenced where there are no claims, and the panic is recovered.
abbrev recovered : Response
recovered = respond 500 nothing

-- The form is `none` where it does not parse, its file where it has none.
unfoldable pub upload_document :
    (Bytes → Option Bytes)
    → Option Bytes
    → Option (Option Upload)
    → (err new_id : Bytes) → ℕ
    → Action Response
unfolding extract_text insert_document start_job member_of
upload_document read_pdf caller form err new_id now = do
  file ← some_or (http_error 400 (codes "file too large (max 50MB)")) form
  u ← some_or (http_error 400 (codes "missing file field")) file
  let ext = file_ext u.filename
  check (is_text_file ext || bytes_eq ext (codes "pdf"))
      (http_error 400 (codes "unsupported file type; use txt, md, or pdf"))
  subject ← some_or recovered caller
  m ← fetch_or (http_error 404 (codes "member not found")) (member_of subject)
  extracted ←
      some_or (http_error 422 (codes "text extraction failed: " ++ err)) (extract_text read_pdf u)
  id ← must (http_error 500 (codes "failed to create document record")) (
      insert_document (record {
        id = new_id;
        org_id = m.org_id;
        name = u.filename;
        file_type = ext;
        file_size_bytes = u.size;
        chunk_count = 0;
        status = codes "processing";
        error_message = none;
        created_by = some m.id;
        created_at = now;
      }))
  start_job (record { document_id = id; org_id = m.org_id; text = extracted })
  give (
      write_json 202
        ((codes "id", Value.text id) ∷ (codes "status", Value.text (codes "processing")) ∷ []))

abbrev with_message : Option Bytes → Fields
with_message none = []
with_message (some message) = (codes "errorMessage", text message) ∷ []

abbrev document_fields : KnowledgeDocument → Fields
document_fields x =
    (codes "id", text x.id)
    ∷ (codes "name", text x.name)
    ∷ (codes "fileType", text x.file_type)
    ∷ (codes "fileSizeBytes", number x.file_size_bytes)
    ∷ (codes "chunkCount", number x.chunk_count)
    ∷ (codes "status", text x.status)
    ∷ (codes "createdAt", number x.created_at)
    ∷ with_message x.error_message

documents_of : Bytes → Db → List KnowledgeDocument
unfolding order_desc
documents_of org_id d =
    order_desc (λ (x : KnowledgeDocument). x.created_at)
      (select (λ (x : KnowledgeDocument). bytes_eq x.org_id org_id) d.knowledge_documents)

unfoldable pub list_documents : Option Bytes → Action Response
unfolding documents_of member_org
list_documents caller = do
  subject ← signed_in caller
  org_id ← fetch_or (http_error 404 (codes "organization not found")) (member_org subject)
  rows ← query_rows (documents_of org_id)
  found ← some_or (http_error 500 (codes "failed to list documents")) rows
  give (respond 200 (json_slice (map document_fields found)))

-- `SELECT org_id FROM knowledge_documents WHERE id = $1`
unfoldable pub document_org : Bytes → Db → Option Bytes
unfolding find
document_org id d =
    Option.map (λ (x : KnowledgeDocument). x.org_id) (find (is_document id) d.knowledge_documents)

-- The chunks of a deleted document go with it.
unfoldable pub delete_document_row : Bytes → Db → Change ℕ
unfolding delete_where
delete_document_row id d =
    changed (length (select (is_document id) d.knowledge_documents)) (record d {
      knowledge_documents = delete_where (is_document id) d.knowledge_documents;
      knowledge_chunks =
          delete_where (λ (c : KnowledgeChunk). bytes_eq c.document_id id) d.knowledge_chunks;
    })

unfoldable pub delete_document : Option Bytes → Bytes → Action Response
unfolding delete_document_row document_org member_org
delete_document caller id = do
  org_id ←
      fetch (http_error 404 (codes "document not found"))
        (http_error 500 (codes "failed to verify ownership")) (document_org id)
  subject ← some_or recovered caller
  user_org ← fetch_or (http_error 403 (codes "unauthorized")) (member_org subject)
  check (bytes_eq user_org org_id) (http_error 403 (codes "unauthorized"))
  n ← must (http_error 500 (codes "failed to delete document")) (delete_document_row id)
  check (not (n == 0)) (http_error 404 (codes "document not found"))
  give (json_status 200 (codes "deleted"))
