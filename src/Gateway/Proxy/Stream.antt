-- ===== src/Gateway/Proxy/Stream.antt =====
-- Streaming the upstream's answer to the client and reading the token usage out of its
-- server-sent events: the read loop of `ServeHTTP` in apps/gateway/internal/proxy/proxy.go.
pub mod Laws
use openserve.Prelude.{
  ℕ, Bytes, codes, bytes_eq, has_prefix, trim_prefix, trim_space, split, Bool, true, false, ◌||◌,
  List, [], ◌∷◌, ◌++◌, Option, none, some, if◌then◌else◌, ◌==◌,
}
use openserve.Prelude.Words.{ℤ, pos, ◌+ℤ◌, to_int32}

-- `inputTokens` and `outputTokens`.
pub record Usage : Type 0 where
  pub input_tokens : ℤ
  pub output_tokens : ℤ

abbrev pub no_usage : Usage
no_usage = record { input_tokens = pos 0; output_tokens = pos 0 }

-- One `Read`: the bytes that it gave, and whether it returned an error (`io.EOF` or another).
pub record ReadResult : Type 0 where
  pub bytes : Bytes
  pub failed : Bool

-- The variables of the loop and what was written to the client.
pub record StreamState : Type 0 where
  pub usage : Usage
  pub leftover : Bytes
  pub written : Bytes

abbrev pub newline : ℕ
newline = 10

abbrev pub data_prefix : Bytes
data_prefix = codes "data: "

-- `strings.HasSuffix(s, "\n")`
unfoldable pub ends_line : Bytes → Bool
ends_line [] = false
ends_line (c ∷ []) = c == newline
ends_line (c ∷ d ∷ s) = ends_line (d ∷ s)

-- `unmarshal` is `json.Unmarshal` into the chunk: the two counts, where the text is valid JSON
-- and its `usage` is not null.
module _ (unmarshal : Bytes → Option Usage) where
  read_usage : Usage → Option Usage → Usage
  read_usage u none = u
  read_usage u (some v) = v

  unfoldable pub scan_line : Usage → Bytes → Usage
  unfolding read_usage
  scan_line u line =
      let text = trim_space (trim_prefix data_prefix line) in
      if has_prefix data_prefix line
      then if bytes_eq text (codes "[DONE]") || bytes_eq text []
        then u
        else read_usage u (unmarshal text)
      else u

  -- The loop over the lines of a chunk: the last one is kept if the chunk does not end a line.
  unfoldable pub scan_lines : Bool → List Bytes → Usage → Usage × Bytes
  scan_lines ended [] u = (u, [])
  scan_lines ended (line ∷ []) u = if ended then (scan_line u line, []) else (u, line)
  scan_lines ended (line ∷ next ∷ lines) u = scan_lines ended (next ∷ lines) (scan_line u line)

  -- The loop's body for a `Read` that gave bytes.
  unfoldable pub take_chunk : StreamState → Bytes → StreamState
  take_chunk s buf =
      let chunk = s.leftover ++ buf in
      let (u, rest) = scan_lines (ends_line chunk) (split newline chunk) s.usage in
      record { usage = u; leftover = rest; written = s.written ++ buf }

  read_step : StreamState → Bytes → StreamState
  read_step s [] = s
  read_step s (c ∷ buf) = take_chunk s (c ∷ buf)

  -- The loop ends at the first `Read` that returns an error.
  unfoldable pub copy_loop : List ReadResult → StreamState → StreamState
  unfolding read_step
  copy_loop [] s = s
  copy_loop (r ∷ rs) s =
      let rest = copy_loop rs (read_step s r.bytes) in
      if r.failed then read_step s r.bytes else rest

  unfoldable pub copy_stream : List ReadResult → StreamState
  copy_stream reads = copy_loop reads (record { usage = no_usage; leftover = []; written = [] })

-- `totalTokens := int32(inputTokens + outputTokens)`
unfoldable pub total_tokens : Usage → ℤ
total_tokens u = to_int32 (u.input_tokens +ℤ u.output_tokens)
