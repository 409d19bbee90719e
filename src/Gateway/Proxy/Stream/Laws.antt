-- ===== src/Gateway/Proxy/Stream/Laws.antt =====
-- About the read loop of `ServeHTTP` in apps/gateway/internal/proxy/proxy.go: what is written and
-- which usage is read.
use openserve.Prelude.{
  ℕ, Bytes, has_prefix, split, split_sep, split_other, split-eq-cons, split_of_Lacks, Lacks, ◌≡◌,
  refl, sym, ap, ◌∙◌, ◌≢◌, true, false, List, [], ◌∷◌, ◌++◌, append-nil, append_assoc, Option, All,
  All-append, arith, if◌then◌else◌, ◌==◌, Bool-cases, inl, inr,
}
use openserve.Gateway.Proxy.Stream.{
  Usage, no_usage, ReadResult, StreamState, newline, ends_line, scan_line, scan_lines, take_chunk,
  read_step, copy_loop, copy_stream,
}

-- The bytes that the reads give up to the first one that fails.
unfoldable pub body : List ReadResult → Bytes
body [] = []
body (r ∷ rs) = let rest = body rs in if r.failed then r.bytes else r.bytes ++ rest

-- The text in front of the first line is continued.
abbrev extend : Bytes → List Bytes → List Bytes
extend cur [] = []
extend cur (p ∷ ps) = (cur ++ p) ∷ ps

extend_nil : (ps : List Bytes) → extend [] ps ≡ ps
extend_nil [] = refl
extend_nil (p ∷ ps) = refl

module _ (unmarshal : Bytes → Option Usage) where
  -- Reading the body byte by byte, with the usage so far and the unfinished line.
  by_byte : Usage → Bytes → Bytes → Usage × Bytes
  by_byte u cur [] = (u, cur)
  by_byte u cur (c ∷ s) = elim (c == newline) [
    | true ↦ by_byte (scan_line unmarshal u cur) [] s
    | false ↦ by_byte u (cur ++ c ∷ []) s
  ]

  by_byte-append :
      (u : Usage) (cur s t : Bytes)
      → by_byte u cur (s ++ t) ≡ by_byte (by_byte u cur s).0 (by_byte u cur s).1 t
  unfolding by_byte
  by_byte-append u cur [] t = refl
  by_byte-append u cur (c ∷ s) t = ground (
    arith,
    by_byte-append (scan_line unmarshal u cur) [] s t,
    by_byte-append u (cur ++ c ∷ []) s t,
  )

  scan_line_empty : (u : Usage) → scan_line unmarshal u [] ≡ u
  unfolding scan_line has_prefix
  scan_line_empty u = refl

  by_byte-newline :
      (u : Usage) (cur : Bytes) (c : ℕ) (s : Bytes)
      → c ≡ newline
      → by_byte u cur (c ∷ s) ≡ by_byte (scan_line unmarshal u cur) [] s
  unfolding by_byte
  by_byte-newline u cur c s e = ground arith

  by_byte_other :
      (u : Usage) (cur : Bytes) (c : ℕ) (s : Bytes)
      → c ≢ newline
      → by_byte u cur (c ∷ s) ≡ by_byte u (cur ++ c ∷ []) s
  unfolding by_byte
  by_byte_other u cur c s e = ground arith

  -- One chunk, cut into lines, is the chunk byte by byte.
  scan_lines-split :
      (u : Usage) (cur s : Bytes)
      → scan_lines unmarshal (ends_line s) (extend cur (split newline s)) u ≡ by_byte u cur s
  unfolding scan_lines ends_line
  scan_lines-split u cur [] = unfold by_byte in rw (split_of_Lacks newline [] tt, append-nil)
  scan_lines-split u cur (c ∷ []) = elim (Bool-cases (c == newline)) [
    | inl e ↦
        rw (split_sep newline c [] (ground arith), split_of_Lacks newline [] tt)
          (rw (by_byte-newline u cur c [] (ground arith), append-nil)
            (unfold by_byte in ground (arith, scan_line_empty (scan_line unmarshal u cur))))
    | inr e ↦
        rw (split_other newline c [] [] [] (ground arith) (split_of_Lacks newline [] tt))
          (rw (by_byte_other u cur c [] (ground arith)) (unfold by_byte in ground arith))
  ]
  scan_lines-split u cur (c ∷ d ∷ s) =
      let (p, ps, f) = split-eq-cons newline (d ∷ s) in
      elim (Bool-cases (c == newline)) [
        | inl e ↦
            let ih = scan_lines-split (scan_line unmarshal u cur) [] (d ∷ s) in
            rw (split_sep newline c (d ∷ s) (ground arith), f)
              (rw (by_byte-newline u cur c (d ∷ s) (ground arith), append-nil) (rw f at ih))
        | inr e ↦
            let ih = scan_lines-split u (cur ++ c ∷ []) (d ∷ s) in
            rw (split_other newline c (d ∷ s) p ps (ground arith) f) (
              rw (by_byte_other u cur c (d ∷ s) (ground arith))
                (rw (append_assoc cur (c ∷ []) p) at (rw f at ih)))
      ]

  by_byte_of_Lacks : (u : Usage) (cur s : Bytes) → Lacks newline s → by_byte u cur s ≡ (u, cur ++ s)
  unfolding by_byte
  by_byte_of_Lacks u cur [] _ = rw append-nil
  by_byte_of_Lacks u cur (c ∷ s) (h, k) =
      ground (arith, by_byte_of_Lacks u (cur ++ c ∷ []) s k, append_assoc cur (c ∷ []) s)

  by_byte-Lacks :
      (u : Usage) (cur s : Bytes) → Lacks newline cur → Lacks newline (by_byte u cur s).1
  unfolding by_byte
  by_byte-Lacks u cur [] h = h
  by_byte-Lacks u cur (c ∷ s) h = elim (Bool-cases (c == newline)) [
    | inl e ↦ rw (e, by_byte) (by_byte-Lacks (scan_line unmarshal u cur) [] s tt)
    | inr e ↦
        rw (e, by_byte)
          (by_byte-Lacks u (cur ++ c ∷ []) s
            (All-append (λ b. b ≢ newline) cur (c ∷ []) h (ground arith, tt)))
  ]

  scan_chunk :
      (u : Usage) (cur buf : Bytes)
      → Lacks newline cur
      → scan_lines unmarshal (ends_line (cur ++ buf)) (split newline (cur ++ buf)) u
        ≡ by_byte u cur buf
  scan_chunk u cur buf h = rw (extend_nil (split newline (cur ++ buf))) at (
      scan_lines-split u [] (cur ++ buf)
      ∙ by_byte-append u [] cur buf
      ∙ ap (λ (r : Usage × Bytes). by_byte r.0 r.1 buf) (by_byte_of_Lacks u [] cur h))

  -- The state that the loop must have reached after the bytes `s`.
  abbrev Follows : StreamState → Usage × Bytes → Bytes → Type 0
  Follows s r out = (s.usage ≡ r.0) × (s.leftover ≡ r.1) × (s.written ≡ out)

  read_step-Follows :
      (s : StreamState) (buf : Bytes)
      → Lacks newline s.leftover
      → Follows (read_step unmarshal s buf) (by_byte s.usage s.leftover buf) (s.written ++ buf)
  unfolding read_step take_chunk
  read_step-Follows s [] h = unfold by_byte in (refl, refl, sym (append-nil s.written))
  read_step-Follows s (c ∷ buf) h =
      let e = scan_chunk s.usage s.leftover (c ∷ buf) h in
      (ap (λ (r : Usage × Bytes). r.0) e, ap (λ (r : Usage × Bytes). r.1) e, refl)

  copy_loop-Follows :
      (reads : List ReadResult) (s : StreamState)
      → Lacks newline s.leftover
      → Follows
          (copy_loop unmarshal reads s)
          (by_byte s.usage s.leftover (body reads))
          (s.written ++ body reads)
  unfolding copy_loop body
  copy_loop-Follows [] s h = unfold by_byte in (refl, refl, sym (append-nil s.written))
  copy_loop-Follows (r ∷ rs) s h = elim (Bool-cases r.failed) [
    | inl e ↦ rw e (read_step-Follows s r.bytes h)
    | inr e ↦
        let (u, l, w) = read_step-Follows s r.bytes h in
        let keeps = by_byte-Lacks s.usage s.leftover r.bytes h in
        let (u', l', w') =
          copy_loop-Follows rs (read_step unmarshal s r.bytes) (rw (← l) at keeps) in
        let split_body = by_byte-append s.usage s.leftover r.bytes (body rs) in
        rw e (
          u' ∙ cc (u, l, split_body),
          l' ∙ cc (u, l, split_body),
          w' ∙ cc (w, append_assoc s.written r.bytes (body rs)),
        )
  ]

  -- Each line ended by a newline, then a last line that is not.
  unfoldable pub unlines : List Bytes → Bytes → Bytes
  unlines [] rest = rest
  unlines (line ∷ lines) rest = line ++ newline ∷ unlines lines rest

  unfoldable pub scan_all : List Bytes → Usage → Usage
  scan_all [] u = u
  scan_all (line ∷ lines) u = scan_all lines (scan_line unmarshal u line)

  by_byte-unlines :
      (lines : List Bytes) (rest : Bytes) (u : Usage)
      → All (Lacks newline) lines
      → Lacks newline rest
      → by_byte u [] (unlines lines rest) ≡ (scan_all lines u, rest)
  unfolding unlines scan_all
  by_byte-unlines [] rest u _ k = by_byte_of_Lacks u [] rest k
  by_byte-unlines (line ∷ lines) rest u (h, hs) k =
      by_byte-append u [] line (newline ∷ unlines lines rest)
      ∙ ap (λ (r : Usage × Bytes). by_byte r.0 r.1 (newline ∷ unlines lines rest))
          (by_byte_of_Lacks u [] line h)
      ∙ by_byte-newline u line newline (unlines lines rest) refl
      ∙ by_byte-unlines lines rest (scan_line unmarshal u line) hs k

  -- However the upstream's body is cut into reads, the client receives exactly the bytes that
  -- were read, in order.
  pub copy_stream_written :
      (reads : List ReadResult) → (copy_stream unmarshal reads).written ≡ body reads
  unfolding copy_stream
  copy_stream_written reads =
      (copy_loop-Follows reads (record { usage = no_usage; leftover = []; written = [] }) tt).2

  -- However the upstream's body is cut into reads, the usage is that of its complete lines, each
  -- scanned once and in order, wherever a read splits them; a last line without a newline
  -- contributes nothing.
  pub copy_stream_usage :
      (reads : List ReadResult) (lines : List Bytes) (rest : Bytes)
      → All (Lacks newline) lines
      → Lacks newline rest
      → body reads ≡ unlines lines rest
      → ((copy_stream unmarshal reads).usage ≡ scan_all lines no_usage)
        × ((copy_stream unmarshal reads).leftover ≡ rest)
  unfolding copy_stream
  copy_stream_usage reads lines rest h k e =
      let (u, l, w) =
        copy_loop-Follows reads (record { usage = no_usage; leftover = []; written = [] }) tt in
      let spelled = by_byte-unlines lines rest no_usage h k in
      (cc (u, e, spelled), cc (l, e, spelled))
