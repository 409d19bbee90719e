-- ===== src/ControlApi/Documents/Processing.antt =====
-- How a document is cut and stored: processDocument of apps/control-api/internal/handler/handler.go.
use openserve.Prelude.{
  ℕ, ◌+◌, ◌==◌, Bytes, codes, bytes_eq, length, get_elem?, format_nat, if◌then◌else◌, Bool, true,
  false, ◌&&◌, List, [], ◌∷◌, ◌++◌, Option, none, some,
}
use openserve.Prelude.Words.{pos}
use openserve.ControlApi.Tables.{Db, KnowledgeDocument, KnowledgeChunk, any, update_where, has_org}
use openserve.ControlApi.Database.{
  Action, Job, Change, changed, violation, give, exec, begin, tx_exec, commit, ◌>>=◌, ◌>>◌,
}
use openserve.ControlApi.Chunk.{chunk}

abbrev pub is_document : Bytes → KnowledgeDocument → Bool
is_document id d = bytes_eq d.id id

abbrev pub error_rows : Bytes → Bytes → List KnowledgeDocument → List KnowledgeDocument
error_rows id message docs =
    update_where (is_document id)
      (λ x. record x { status = codes "error"; error_message = some message }) docs

abbrev pub ready_rows : Bytes → ℕ → List KnowledgeDocument → List KnowledgeDocument
ready_rows id chunk_count docs =
    update_where (is_document id)
      (λ x. record x { status = codes "ready"; chunk_count = chunk_count }) docs

unfoldable pub set_error : Bytes → Bytes → Db → Change (Unit {0})
unfolding update_where
set_error id message d =
    changed tt (record d { knowledge_documents = error_rows id message d.knowledge_documents })

unfoldable pub set_ready : Bytes → ℕ → Db → Change (Unit {0})
unfolding update_where
set_ready id chunk_count d =
    changed tt (record d { knowledge_documents = ready_rows id chunk_count d.knowledge_documents })

-- `vector(768)`
unfoldable pub fits_vector : Option (List ℕ) → Bool
fits_vector none = true
fits_vector (some v) = length v == 768

unfoldable pub insert_chunk : KnowledgeChunk → Db → Change (Unit {0})
unfolding any fits_vector has_org
insert_chunk c d =
    elim (fits_vector c.embedding
      && any (is_document c.document_id) d.knowledge_documents
      && has_org c.org_id d) [
        | true ↦ changed tt (record d { knowledge_chunks = d.knowledge_chunks ++ c ∷ [] })
        | false ↦ violation
      ]

abbrev pub chunk_row : Bytes → Bytes → List (List ℕ) → ℕ → Bytes → KnowledgeChunk
chunk_row id org_id vectors i content = record {
  document_id = id;
  org_id = org_id;
  chunk_index = i;
  content = content;
  embedding = get_elem? vectors i;
}

-- `err` is the text of the error at hand.
module _ (err : Bytes) where
  unfoldable pub fail_with : Bytes → Bytes → Action (Unit {0})
  unfolding set_error
  fail_with message id = do exec (set_error id message); give tt

  unfoldable pub insert_failed : ℕ → Bytes
  insert_failed i = codes "chunk " ++ (format_nat i ++ (codes " insert failed: " ++ err))

  unfoldable pub inserted : Bytes → ℕ → Option (Unit {0}) → Action Bool → Action Bool
  unfolding fail_with insert_failed
  inserted id i none rest = do fail_with (insert_failed i) id; give false
  inserted id i (some row) rest = rest

  -- The loop over the chunks: whether each was inserted.
  unfoldable pub insert_chunks : Bytes → Bytes → List (List ℕ) → ℕ → List Bytes → Action Bool
  unfolding insert_chunk inserted
  insert_chunks id org_id vectors i [] = give true
  insert_chunks id org_id vectors i (c ∷ cs) = do
    row ← tx_exec (insert_chunk (chunk_row id org_id vectors i c))
    inserted id i row (insert_chunks id org_id vectors (i + 1) cs)

  unfoldable pub close_tx : Bytes → Option (Unit {0}) → Action (Unit {0})
  unfolding fail_with
  close_tx id none = fail_with (codes "status update failed: " ++ err) id
  close_tx id (some row) = do
    committed ← commit
    if committed then give tt else fail_with (codes "commit failed: " ++ err) id

  unfoldable pub mark_ready : Bytes → ℕ → Bool → Action (Unit {0})
  unfolding close_tx set_ready
  mark_ready id n false = give tt
  mark_ready id n true = do row ← tx_exec (set_ready id n); close_tx id row

  unfoldable pub store_chunks :
      Bytes → Bytes → List (List ℕ) → List Bytes → Bool → Action (Unit {0})
  unfolding fail_with insert_chunks mark_ready
  store_chunks id org_id vectors chunks false = fail_with (codes "begin tx: " ++ err) id
  store_chunks id org_id vectors chunks true = do
    all ← insert_chunks id org_id vectors 0 chunks
    mark_ready id (length chunks) all

  unfoldable pub with_vectors :
      Bytes → Bytes → List Bytes → Option (List (List ℕ)) → Action (Unit {0})
  unfolding fail_with store_chunks
  with_vectors id org_id chunks none = fail_with (codes "embedding failed: " ++ err) id
  with_vectors id org_id chunks (some vectors) = do
    begun ← begin
    store_chunks id org_id vectors chunks begun

-- The client of the embedding service: the vectors of some texts, or an error. Without a client
-- no chunk has a vector.
abbrev pub Embed : Type 0
Embed = Option (List Bytes → Option (List (List ℕ)))

abbrev pub vectors_of : Embed → List Bytes → Option (List (List ℕ))
vectors_of none chunks = some []
vectors_of (some embed) chunks = embed chunks

unfoldable pub process_document : Embed → Bytes → Job → Action (Unit {0})
unfolding with_vectors chunk
process_document embed err job =
    let chunks = chunk job.text (pos 0) (pos 0) in
    with_vectors err job.document_id job.org_id chunks (vectors_of embed chunks)
