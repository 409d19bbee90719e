-- ===== src/ControlApi/Documents/Inserts.antt =====
-- What the loop over the chunks in processDocument of apps/control-api/internal/handler/handler.go leaves.
use openserve.Prelude.{
  Bytes, List, [], ◌∷◌, ◌++◌, ℕ, ◌+◌, arith, Bool, true, false, ◌≡◌, ◌⊎◌, inl, inr, refl, sym, ap,
  ◌∙◌, append_assoc, append-nil, subst,
}
use openserve.ControlApi.Tables.{Db, KnowledgeDocument, KnowledgeChunk}
use openserve.ControlApi.Database.{
  Verdict, answered, refused, lost, Action, State, Outcome, next_verdict, next, replied, Change,
  changed, unique_violation, violation, exec_db, give, tx_exec, tx_change, after_tx, spend, ◌>>=◌,
}
use openserve.ControlApi.Database.Keeps.{Allows}
use openserve.ControlApi.Documents.{
  set_error, error_rows, ready_rows, insert_chunk, chunk_row, fail_with, insert_failed, inserted,
  insert_chunks,
}

-- The rows that the loop is to insert.
abbrev pub rows_from : Bytes → Bytes → List (List ℕ) → ℕ → List Bytes → List KnowledgeChunk
rows_from id org_id vectors i [] = []
rows_from id org_id vectors i (c ∷ cs) =
    chunk_row id org_id vectors i c ∷ rows_from id org_id vectors (i + 1) cs

-- The documents are as they were, or one of them is marked with an error.
abbrev pub MayFail : Bytes → List KnowledgeDocument → List KnowledgeDocument → Type 0
MayFail id docs docs' = (docs' ≡ docs) ⊎ ((message : Bytes) × (docs' ≡ error_rows id message docs))

-- No chunk was stored, and no document is ready that was not.
pub record IsUnstored (id : Bytes) (d d' : Db) : Type 0 where
  pub chunks : d'.knowledge_chunks ≡ d.knowledge_chunks
  pub documents : MayFail id d.knowledge_documents d'.knowledge_documents

-- All chunks were stored behind those that there were, and the document is ready, or marked with
-- an error after it had been so.
pub record IsStored (id : Bytes) (rows : List KnowledgeChunk) (n : ℕ) (d d' : Db) : Type 0 where
  pub chunks : d'.knowledge_chunks ≡ d.knowledge_chunks ++ rows
  pub documents : MayFail id (ready_rows id n d.knowledge_documents) d'.knowledge_documents

pub unstored : (id : Bytes) (d : Db) → IsUnstored id d d
unstored id d = record { chunks = refl; documents = inl refl }

-- The statement that marks the document changes nothing else.
pub exec_db-error :
    (id message : Bytes) (v : Verdict) (d : Db)
    → IsUnstored id d (exec_db v (set_error id message d) d)
unfolding exec_db set_error
exec_db-error id message answered d = record { chunks = refl; documents = inr (message, refl) }
exec_db-error id message refused d = unstored id d
exec_db-error id message (lost n) d = record { chunks = refl; documents = inr (message, refl) }

pub fail_with-db :
    (err id message : Bytes) (s : State) → IsUnstored id s.db (fail_with err message id s).1.db
unfolding fail_with ◌>>=◌
fail_with-db err id message s = exec_db-error id message _ s.db

pub insert_chunk-rows :
    (c : KnowledgeChunk) (d : Db)
    → Allows
        (λ d'.
          (d'.knowledge_chunks ≡ d.knowledge_chunks ++ c ∷ [])
          × (d'.knowledge_documents ≡ d.knowledge_documents))
        (insert_chunk c d)
unfolding insert_chunk
insert_chunk-rows c d = ground arith

module _ (err id : Bytes) where
  -- What the loop over the chunks has done.
  abbrev pub After : State → List KnowledgeChunk → Outcome Bool × State → Type 0
  After s rows (next true, s') =
      (s'.db ≡ s.db)
      × (s'.tx.knowledge_chunks ≡ s.tx.knowledge_chunks ++ rows)
      × (s'.tx.knowledge_documents ≡ s.tx.knowledge_documents)
  After s rows (next false, s') = IsUnstored id s.db s'.db
  After s rows (replied r, s') = IsUnstored id s.db s'.db

  After-cons :
      (s s2 : State) (c : KnowledgeChunk) (rows : List KnowledgeChunk) (res : Outcome Bool × State)
      → s2.db ≡ s.db
      → s2.tx.knowledge_chunks ≡ s.tx.knowledge_chunks ++ c ∷ []
      → s2.tx.knowledge_documents ≡ s.tx.knowledge_documents
      → After s2 rows res
      → After s (c ∷ rows) res
  After-cons s s2 c rows (next true, s') db chunks docs (h, k, l) = (
    h ∙ db,
    k ∙ (ap (λ x. x ++ rows) chunks ∙ append_assoc s.tx.knowledge_chunks (c ∷ []) rows),
    l ∙ docs,
  )
  After-cons s s2 c rows (next false, s') db chunks docs h = subst (λ d. IsUnstored id d s'.db) db h
  After-cons s s2 c rows (replied r, s') db chunks docs h = subst (λ d. IsUnstored id d s'.db) db h

  insert-stops :
      (i : ℕ) (s : State)
      → IsUnstored id s.db
          (fail_with err (insert_failed err i) id (record s { aborted = true })).1.db
  insert-stops i s = fail_with-db err id (insert_failed err i) (record s { aborted = true })

  inserted-After :
      (b : Bool) (v : Verdict) (change : Change (Unit {0})) (i : ℕ) (s : State) (c : KnowledgeChunk)
      (rows : List KnowledgeChunk) (rest : Action Bool)
      → Allows
          (λ d'.
            (d'.knowledge_chunks ≡ s.tx.knowledge_chunks ++ c ∷ [])
            × (d'.knowledge_documents ≡ s.tx.knowledge_documents))
          change
      → ((s2 : State) → After s2 rows (rest s2))
      → let (row, s') = after_tx (tx_change b v change s.tx) s in
        After s (c ∷ rows) (inserted err id i row rest s')
  unfolding inserted after_tx tx_change ◌>>=◌
  inserted-After false answered (changed a d) i s c rows rest (chunks, docs) ih =
      After-cons s (record s { tx = d }) c rows (rest (record s { tx = d })) refl chunks docs (ih _)
  inserted-After false answered unique_violation i s c rows rest allowed ih = insert-stops i s
  inserted-After false answered violation i s c rows rest allowed ih = insert-stops i s
  inserted-After false refused change i s c rows rest allowed ih = insert-stops i s
  inserted-After false (lost n) change i s c rows rest allowed ih = insert-stops i s
  inserted-After true v change i s c rows rest allowed ih = insert-stops i s

  pub insert_chunks-After :
      (org_id : Bytes) (vectors : List (List ℕ)) (i : ℕ) (chunks : List Bytes) (s : State)
      → After s
          (rows_from id org_id vectors i chunks)
          (insert_chunks err id org_id vectors i chunks s)
  unfolding insert_chunks tx_exec ◌>>=◌ give
  insert_chunks-After org_id vectors i [] s = (refl, sym (append-nil s.tx.knowledge_chunks), refl)
  insert_chunks-After org_id vectors i (c ∷ cs) s =
      inserted-After s.aborted (next_verdict s.verdicts)
        (insert_chunk (chunk_row id org_id vectors i c) s.tx) i (spend s)
        (chunk_row id org_id vectors i c) (rows_from id org_id vectors (i + 1) cs)
        (insert_chunks err id org_id vectors (i + 1) cs)
        (insert_chunk-rows (chunk_row id org_id vectors i c) s.tx)
        (insert_chunks-After org_id vectors (i + 1) cs)
