-- ===== src/ControlApi/Documents/Frames.antt =====
-- Which tables processDocument of apps/control-api/internal/handler/handler.go may write.
use openserve.Prelude.{
  Bytes, codes, length, List, [], ◌∷◌, ◌++◌, ℕ, ◌+◌, Option, none, some, arith, Bool, true, false,
  if◌then◌else◌,
}
use openserve.ControlApi.Tables.{Db, KnowledgeDocument, KnowledgeChunk}
use openserve.ControlApi.Database.{Action, Job, give}
use openserve.ControlApi.Database.Keeps.{Keeps, Allows, Keeps-exec, keeps_rules}
use openserve.ControlApi.Database.Transactions.{
  TxKeeps, TxKeeps-exec, TxKeeps-tx_exec, TxKeeps-bind, TxKeeps-give, TxKeeps-commit, tx_rules,
  Keeps-begin,
}
use openserve.ControlApi.Documents.{
  Embed, set_error, set_ready, insert_chunk, chunk_row, fail_with, inserted, insert_chunks,
  close_tx, mark_ready, store_chunks, with_vectors, process_document,
}

module _ {P : Db → Type 0}
    (keep : (d : Db) (rows : List KnowledgeDocument) (chunks : List KnowledgeChunk)
      → P d
      → P (record d { knowledge_documents = rows; knowledge_chunks = chunks })) where
  insert_chunk-Allows : (c : KnowledgeChunk) (d : Db) → P d → Allows P (insert_chunk c d)
  unfolding insert_chunk
  insert_chunk-Allows c d h =
      let k = keep d d.knowledge_documents (d.knowledge_chunks ++ c ∷ []) h in ground arith

  set_ready-Allows : (id : Bytes) (n : ℕ) (d : Db) → P d → Allows P (set_ready id n d)
  unfolding set_ready
  set_ready-Allows id n d h = keep d _ d.knowledge_chunks h

  module _ (err : Bytes) where
    fail_with-TxKeeps : (message id : Bytes) → TxKeeps P (fail_with err message id)
    unfolding fail_with set_error
    fail_with-TxKeeps message id = search (tx_rules, TxKeeps-exec)

    fail_with-Keeps : (message id : Bytes) → Keeps P (fail_with err message id)
    unfolding fail_with set_error
    fail_with-Keeps message id = search (keeps_rules, Keeps-exec)

    inserted-TxKeeps :
        (id : Bytes) (i : ℕ) (row : Option (Unit {0})) (rest : Action Bool)
        → TxKeeps P rest
        → TxKeeps P (inserted err id i row rest)
    unfolding inserted
    inserted-TxKeeps id i none rest k = search (tx_rules, fail_with-TxKeeps)
    inserted-TxKeeps id i (some row) rest k = k

    insert_chunks-TxKeeps :
        (id org_id : Bytes) (vectors : List (List ℕ)) (i : ℕ) (cs : List Bytes)
        → TxKeeps P (insert_chunks err id org_id vectors i cs)
    unfolding insert_chunks
    insert_chunks-TxKeeps id org_id vectors i [] = TxKeeps-give true
    insert_chunks-TxKeeps id org_id vectors i (c ∷ cs) =
        TxKeeps-bind _ _ (TxKeeps-tx_exec _ (insert_chunk-Allows (chunk_row id org_id vectors i c)))
          λ row. inserted-TxKeeps id i row _ (insert_chunks-TxKeeps id org_id vectors (i + 1) cs)

    finish-TxKeeps :
        (id : Bytes) (b : Bool)
        → TxKeeps P (if b then give tt else fail_with err (codes "commit failed: " ++ err) id)
    finish-TxKeeps id true = TxKeeps-give tt
    finish-TxKeeps id false = fail_with-TxKeeps _ id

    close_tx-TxKeeps : (id : Bytes) (row : Option (Unit {0})) → TxKeeps P (close_tx err id row)
    unfolding close_tx
    close_tx-TxKeeps id none = fail_with-TxKeeps _ id
    close_tx-TxKeeps id (some row) = TxKeeps-bind _ _ TxKeeps-commit (finish-TxKeeps id)

    mark_ready-TxKeeps : (id : Bytes) (n : ℕ) (b : Bool) → TxKeeps P (mark_ready err id n b)
    unfolding mark_ready
    mark_ready-TxKeeps id n false = TxKeeps-give tt
    mark_ready-TxKeeps id n true =
        TxKeeps-bind _ _ (TxKeeps-tx_exec _ (set_ready-Allows id n)) (close_tx-TxKeeps id)

    with_vectors-Keeps :
        (id org_id : Bytes) (chunks : List Bytes) (vectors : Option (List (List ℕ)))
        → Keeps P (with_vectors err id org_id chunks vectors)
    unfolding with_vectors store_chunks
    with_vectors-Keeps id org_id chunks none = fail_with-Keeps _ id
    with_vectors-Keeps id org_id chunks (some vectors) =
        Keeps-begin _
          (TxKeeps-bind _ _ (insert_chunks-TxKeeps id org_id vectors 0 chunks)
            (mark_ready-TxKeeps id (length chunks)))
          (fail_with-Keeps _ id)

  pub process_document-Keeps :
      (embed : Embed) (err : Bytes) (job : Job) → Keeps P (process_document embed err job)
  unfolding process_document
  process_document-Keeps embed err job = with_vectors-Keeps err job.document_id job.org_id _ _
