-- ===== src/ControlApi/Documents/Storage.antt =====
-- What processDocument of apps/control-api/internal/handler/handler.go leaves in the tables.
use openserve.Prelude.{
  Bytes, length, List, ◌++◌, ℕ, Option, none, some, Bool, true, false, ◌≡◌, ◌⊎◌, inl, inr, refl, ap,
  ◌∙◌, subst, if◌then◌else◌,
}
use openserve.Prelude.Words.{pos}
use openserve.ControlApi.Tables.{Db, KnowledgeDocument, KnowledgeChunk}
use openserve.ControlApi.Database.{
  Verdict, answered, refused, lost, State, Job, Outcome, next_verdict, next, replied, give, tx_exec,
  tx_change, after_tx, spend, ◌>>=◌, continue, commit, tx_committed, begin, tx_begun, is_answered,
}
use openserve.ControlApi.Chunk.{chunk}
use openserve.ControlApi.Documents.{
  Embed, vectors_of, set_ready, ready_rows, fail_with, insert_chunks, close_tx, mark_ready,
  store_chunks, with_vectors, process_document,
}
use openserve.ControlApi.Documents.Inserts.{
  rows_from, MayFail, IsUnstored, IsStored, fail_with-db, After, insert_chunks-After,
}

module _ (err id : Bytes) where
  -- Either nothing or everything has been stored.
  abbrev pub AllOrNothing : List KnowledgeChunk → ℕ → Db → Db → Type 0
  AllOrNothing rows n d d' = IsUnstored id d d' ⊎ IsStored id rows n d d'

  -- The transaction holds the chunks, and the documents marked or not.
  record Holds (d : Db) (rows : List KnowledgeChunk) (docs : List KnowledgeDocument) (s : State)
      : Type 0 where
    db : s.db ≡ d
    chunks : s.tx.knowledge_chunks ≡ d.knowledge_chunks ++ rows
    documents : s.tx.knowledge_documents ≡ docs

  failed-AllOrNothing :
      (message : Bytes) (s : State) (d : Db) (rows : List KnowledgeChunk) (n : ℕ)
      → s.db ≡ d
      → AllOrNothing rows n d (fail_with err message id s).1.db
  failed-AllOrNothing message s d rows n db = inl (
      subst (λ x. IsUnstored id x (fail_with err message id s).1.db) db
        (fail_with-db err id message s))

  committed-AllOrNothing :
      (message : Bytes) (s : State) (d : Db) (rows : List KnowledgeChunk) (n : ℕ)
      → s.db.knowledge_chunks ≡ d.knowledge_chunks ++ rows
      → s.db.knowledge_documents ≡ ready_rows id n d.knowledge_documents
      → AllOrNothing rows n d (fail_with err message id s).1.db
  committed-AllOrNothing message s d rows n chunks docs =
      let h = fail_with-db err id message s in
      inr (record {
        chunks = h.chunks ∙ chunks;
        documents =
            subst (λ x. MayFail id x (fail_with err message id s).1.db.knowledge_documents) docs
              h.documents;
      })

  -- What becomes of the commit and what is done behind it.
  closed-AllOrNothing :
      (message : Bytes) (b : Bool) (v : Verdict) (s : State) (d : Db) (rows : List KnowledgeChunk)
      (n : ℕ)
      → Holds d rows (ready_rows id n d.knowledge_documents) s
      → AllOrNothing rows n d
          (let (fine, s') = tx_committed b v s in
            (if fine then give tt else fail_with err message id) s').1.db
  unfolding tx_committed give
  closed-AllOrNothing message false answered s d rows n h =
      inr (record { chunks = h.chunks; documents = inl h.documents })
  closed-AllOrNothing message false refused s d rows n h =
      failed-AllOrNothing message s d rows n h.db
  closed-AllOrNothing message false (lost k) s d rows n h =
      committed-AllOrNothing message (record s { db = s.tx }) d rows n h.chunks h.documents
  closed-AllOrNothing message true v s d rows n h = failed-AllOrNothing message s d rows n h.db

  -- The statement that marks the document in the transaction, and the commit.
  marked-AllOrNothing :
      (b : Bool) (v : Verdict) (s : State) (d : Db) (rows : List KnowledgeChunk) (n : ℕ)
      → Holds d rows d.knowledge_documents s
      → AllOrNothing rows n d
          (let (row, s') = after_tx (tx_change b v (set_ready id n s.tx) s.tx) s in
            close_tx err id row s').1.db
  unfolding close_tx after_tx tx_change set_ready commit ◌>>=◌
  marked-AllOrNothing false answered s d rows n h =
      closed-AllOrNothing _ s.aborted (next_verdict s.verdicts)
        (spend (record s {
          tx = record s.tx { knowledge_documents = ready_rows id n s.tx.knowledge_documents };
        }))
        d rows n
        (record { db = h.db; chunks = h.chunks; documents = ap (ready_rows id n) h.documents })
  marked-AllOrNothing false refused s d rows n h =
      failed-AllOrNothing _ (record s { aborted = true }) d rows n h.db
  marked-AllOrNothing false (lost k) s d rows n h =
      failed-AllOrNothing _ (record s { aborted = true }) d rows n h.db
  marked-AllOrNothing true v s d rows n h =
      failed-AllOrNothing _ (record s { aborted = true }) d rows n h.db

  mark_ready-AllOrNothing :
      (s : State) (rows : List KnowledgeChunk) (n : ℕ) (res : Outcome Bool × State)
      → s.tx ≡ s.db
      → After err id s rows res
      → AllOrNothing rows n s.db (let (o, s') = res in continue o (mark_ready err id n) s').1.db
  unfolding mark_ready continue tx_exec ◌>>=◌ give
  mark_ready-AllOrNothing s rows n (next true, s') eq (h, k, l) =
      marked-AllOrNothing s'.aborted (next_verdict s'.verdicts) (spend s') s.db rows n (record {
        db = h;
        chunks = k ∙ ap (λ (d : Db). d.knowledge_chunks ++ rows) eq;
        documents = l ∙ ap (λ (d : Db). d.knowledge_documents) eq;
      })
  mark_ready-AllOrNothing s rows n (next false, s') eq h = inl h
  mark_ready-AllOrNothing s rows n (replied r, s') eq h = inl h

  begun-AllOrNothing :
      (org_id : Bytes) (vectors : List (List ℕ)) (chunks : List Bytes) (v : Verdict) (s : State)
      → AllOrNothing
          (rows_from id org_id vectors 0 chunks)
          (length chunks)
          s.db
          (store_chunks err id org_id vectors chunks (is_answered v) (tx_begun v s)).1.db
  unfolding store_chunks is_answered tx_begun ◌>>=◌
  begun-AllOrNothing org_id vectors chunks answered s =
      let s0 : State = record s { tx = s.db; aborted = false } in
      mark_ready-AllOrNothing s0 (rows_from id org_id vectors 0 chunks) (length chunks)
        (insert_chunks err id org_id vectors 0 chunks s0) refl
        (insert_chunks-After err id org_id vectors 0 chunks s0)
  begun-AllOrNothing org_id vectors chunks refused s = failed-AllOrNothing _ s s.db _ _ refl
  begun-AllOrNothing org_id vectors chunks (lost n) s = failed-AllOrNothing _ s s.db _ _ refl

with_vectors-AllOrNothing :
    (err : Bytes) (job : Job) (chunks : List Bytes) (s : State) (found : Option (List (List ℕ)))
    → let d' = (with_vectors err job.document_id job.org_id chunks found s).1.db in
      IsUnstored job.document_id s.db d'
      ⊎ ((vectors : List (List ℕ)) × (found ≡ some vectors)
          × IsStored job.document_id
              (rows_from job.document_id job.org_id vectors 0 chunks)
              (length chunks)
              s.db
              d')
unfolding with_vectors begin ◌>>=◌
with_vectors-AllOrNothing err job chunks s none = inl (fail_with-db err job.document_id _ s)
with_vectors-AllOrNothing err job chunks s (some vectors) =
    elim (begun-AllOrNothing err job.document_id job.org_id vectors chunks (next_verdict s.verdicts)
      (spend s)) [ inl h ↦ inl h | inr h ↦ inr (vectors, refl, h) ]

-- Whatever becomes of its statements, processDocument stores either no chunk of the document, and
-- then no document is marked ready by it, or all chunks of its text in their order, each with its
-- index and its vector, and then the document is marked ready with their number (or with an error
-- behind that, where the commit was done but its answer lost); in both cases the other chunks stay
-- as they were.
pub process_document-AllOrNothing :
    (embed : Embed) (err : Bytes) (job : Job) (s : State)
    → let chunks = chunk job.text (pos 0) (pos 0) in
      let d' = (process_document embed err job s).1.db in
      IsUnstored job.document_id s.db d'
      ⊎ ((vectors : List (List ℕ)) × (vectors_of embed chunks ≡ some vectors)
          × IsStored job.document_id
              (rows_from job.document_id job.org_id vectors 0 chunks)
              (length chunks)
              s.db
              d')
unfolding process_document
process_document-AllOrNothing embed err job s =
    with_vectors-AllOrNothing err job (chunk job.text (pos 0) (pos 0)) s
      (vectors_of embed (chunk job.text (pos 0) (pos 0)))
