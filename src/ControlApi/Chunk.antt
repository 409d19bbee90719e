-- ===== src/ControlApi/Chunk.antt =====
-- How a document's text is cut into chunks: apps/control-api/internal/rag/chunk.go.
use Prim.Native.Nat.{ℕ}
use openserve.Prelude.{
  ◌+◌, ◌-◌, ◌*◌, Bytes, drop, length, leb, ltb, trim_space, if◌then◌else◌, ◌==◌, Bool, ◌&&◌, List,
  [], ◌∷◌, ◌++◌, zero, suc,
}
use openserve.Prelude.Words.{ℤ, pos, negsuc}

-- `strings.Split(text, "\n\n")`
add_byte : ℕ → List Bytes → List Bytes
add_byte c [] = (c ∷ []) ∷ []
add_byte c (p ∷ ps) = (c ∷ p) ∷ ps

unfoldable pub split_paragraphs : Bytes → List Bytes
unfolding add_byte
split_paragraphs [] = [] ∷ []
split_paragraphs (c ∷ []) = (c ∷ []) ∷ []
split_paragraphs (c ∷ d ∷ s) =
    let behind = split_paragraphs s in
    let rest = split_paragraphs (d ∷ s) in
    if c == 10 && d == 10 then [] ∷ behind else add_byte c rest

-- `utf8.RuneCountInString` of valid UTF-8: the bytes that continue no rune.
unfoldable pub rune_count : Bytes → ℕ
rune_count [] = 0
rune_count (c ∷ s) = (if leb 128 c && ltb c 192 then 0 else 1) + rune_count s

-- `tail[len(tail)-overlap:]`, the whole text if it is no longer.
unfoldable pub overlap_tail : ℕ → Bytes → Bytes
overlap_tail overlap current =
    if ltb overlap (length current) then drop (length current - overlap) current else current

abbrev pub chunk_size : ℤ → ℕ
chunk_size (pos zero) = 512 * 4
chunk_size (pos (suc n)) = suc n
chunk_size (negsuc n) = 512 * 4

abbrev pub chunk_overlap : ℤ → ℕ
chunk_overlap (pos zero) = 64 * 4
chunk_overlap (pos (suc n)) = suc n
chunk_overlap (negsuc n) = 64 * 4

abbrev pub blank_line : Bytes
blank_line = 10 ∷ 10 ∷ []

-- `chunks` and `current`.
pub record Chunking : Type 0 where
  pub chunks : List Bytes
  pub current : Bytes

abbrev pub is_full : ℕ → Bytes → Bytes → Bool
is_full size current para = ltb size (length current + rune_count para) && ltb 0 (length current)

abbrev pub flush : ℕ → Chunking → Chunking
flush overlap c = record {
  chunks = c.chunks ++ trim_space c.current ∷ [];
  current = overlap_tail overlap c.current ++ b' ' ∷ [];
}

abbrev pub append_para : Bytes → Chunking → Chunking
append_para para c = record c { current = c.current ++ (para ++ blank_line) }

unfoldable pub add_para : ℕ → ℕ → Bytes → Chunking → Chunking
unfolding rune_count overlap_tail
add_para size overlap [] c = c
add_para size overlap (b ∷ para) c =
    append_para (b ∷ para) (if is_full size c.current (b ∷ para) then flush overlap c else c)

-- The loop over the paragraphs.
unfoldable pub add_paras : ℕ → ℕ → List Bytes → Chunking → Chunking
unfolding add_para
add_paras size overlap [] c = c
add_paras size overlap (p ∷ ps) c =
    add_paras size overlap ps (add_para size overlap (trim_space p) c)

abbrev pub finish : Chunking → List Bytes
finish c = if ltb 0 (length c.current) then c.chunks ++ trim_space c.current ∷ [] else c.chunks

abbrev pub no_chunks : Chunking
no_chunks = record { chunks = []; current = [] }

-- `Chunk`
unfoldable pub chunk : Bytes → ℤ → ℤ → List Bytes
unfolding split_paragraphs add_paras
chunk text size overlap =
    finish (add_paras (chunk_size size) (chunk_overlap overlap) (split_paragraphs text) no_chunks)
