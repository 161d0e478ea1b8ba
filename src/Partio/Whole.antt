-- ===== src/Partio/Whole.antt =====
-- partio/streamer.go: a served file and a writer that takes everything.
use mathlib.Core.List.{append_assoc, append-nil}
use native.Mathlib.Decide.{dec_le}
use native.Mathlib.Nat.{add-zero}
use tgcontrib.Base.{
  ℕ, zero, suc, ◌+◌, ◌-◌, ◌≤◌, ◌<◌, ◌≡◌, ◌⊎◌, sym, ap, ◌∙◌, inl, inr, true, false, [], ◌++◌, Option,
  none, some, arith, leb, if◌then◌else◌, length, take, drop, replicate, length-drop,
  length-replicate, Bytes,
}
use tgcontrib.Base.Slices.{drop-drop, drop_past_end, take_all, window-append-drop}
use tgcontrib.Base.Int.{pos}
use tgcontrib.Partio.{
  Error, eof, Context, ChunkSource, Written, State, Outcome, returned, panicked, GetFile,
  nearest_offset, write_chunk, after_read, stream_loop, stream_at, copy, file_chunk,
}
use tgcontrib.Partio.Chunk.{
  IsSink, Serves, length-copy, nearest_offset_lem, available, safe_read-file, write_chunk_sink,
  slice-chunk,
}

module _ {W : Type 0} (write : W → Bytes → Written W) (view : W → Bytes)
    (sink : IsSink write view) where
  module _ (ctx : Context) (open_ : (n : ℕ) → ctx n ≡ none) where
    module _ (api : ℕ → ℕ → GetFile) (file : Bytes) (serves : Serves api file) (align : ℕ)
        (pos_align : 0 < align) where
      abbrev pub source : ChunkSource
      source = file_chunk api (length file)

      Streams : State W → Outcome (State W × Option Error) → Bytes → Type 0
      Streams st o b =
          (st' : State W) × (o ≡ returned (st', none)) × (view st'.writer ≡ view st.writer ++ b)

      abbrev count : ℕ → Bytes → ℕ
      count offset buf = available api file serves offset buf

      abbrev filled : ℕ → Bytes → Bytes
      filled offset buf = copy buf (take (length buf) (drop offset file))

      -- One round of the loop.
      stream_loop_round :
          (f : ℕ) (st : State W) (buf : Bytes) (offset skip : ℕ)
          → stream_loop write ctx source align (suc f) st buf offset skip
            ≡ after_read write ctx source align
                (record st { polls = st.polls + 1 })
                skip
                (if leb (length file) (offset + count offset buf) then some eof else none)
                (pos (count offset buf))
                (filled offset buf)
                (λ s. stream_loop write ctx source align f s (filled offset buf) (offset + align) 0)
      unfolding stream_loop
      stream_loop_round f st buf offset skip =
          rw (open_ st.polls, stream_loop) (rw (safe_read-file api file serves offset buf))

      -- A chunk at or past the end of the file: nothing is written.
      stream_loop_past :
          (f : ℕ) (st : State W) (buf : Bytes) (offset skip : ℕ)
          → length file ≤ offset
          → Streams st (stream_loop write ctx source align (suc f) st buf offset skip) []
      unfolding after_read write_chunk Streams
      stream_loop_past f st buf offset skip h =
          let e : count offset buf ≡ 0 = omega arith in
          (
            record st { polls = st.polls + 1 },
            stream_loop_round f st buf offset skip ∙ rw e (ground arith),
            sym (append-nil _),
          )

      -- The last chunk: the rest of the file is written.
      stream_loop_last :
          (f : ℕ) (st : State W) (buf : Bytes) (offset skip : ℕ)
          → length buf ≡ align
          → offset + skip ≤ length file
          → length file ≤ offset + align
          → Streams st
              (stream_loop write ctx source align (suc f) st buf offset skip)
              (drop (offset + skip) file)
      unfolding after_read Streams
      stream_loop_last f st buf offset skip hb h last =
          let e : leb (length file) (offset + count offset buf) ≡ true = ground arith in
          let polled : State W = record st { polls = st.polls + 1 } in
          let (st', step, seen) =
            write_chunk_sink write view sink ctx open_ source align polled (filled offset buf) skip
              (count offset buf) (λ s. returned (s, none)) (omega arith)
              (omega (arith, length-copy buf (take (length buf) (drop offset file)))) in
          (
            st',
            stream_loop_round f st buf offset skip ∙ rw e step,
            seen
                ∙ ap (λ s. view st.writer ++ s)
                    (slice-chunk write view sink ctx open_ api file serves align pos_align offset
                        skip buf hb
                      ∙ ap (drop skip) (
                          take_all align (drop offset file)
                            (omega (arith, length-drop offset file)))
                      ∙ drop-drop skip offset file),
          )

      -- A chunk with more behind it: its bytes are written, and the loop goes on.
      stream_loop_more :
          (f : ℕ) (st : State W) (buf : Bytes) (offset skip : ℕ)
          → length buf ≡ align
          → skip ≤ align
          → offset + align < length file
          → ((s : State W)
              → Streams s
                  (stream_loop write ctx source align f s (filled offset buf) (offset + align) 0)
                  (drop (offset + align + 0) file))
          → Streams st
              (stream_loop write ctx source align (suc f) st buf offset skip)
              (drop (offset + skip) file)
      unfolding after_read Streams
      stream_loop_more f st buf offset skip hb hs more ih =
          let e : leb (length file) (offset + count offset buf) ≡ false = ground arith in
          let polled : State W = record st { polls = st.polls + 1 } in
          let next = λ (s : State W).
            stream_loop write ctx source align f s (filled offset buf) (offset + align) 0 in
          let (st1, step, seen) =
            write_chunk_sink write view sink ctx open_ source align polled (filled offset buf) skip
              (count offset buf) next (omega arith)
              (omega (arith, length-copy buf (take (length buf) (drop offset file)))) in
          let (st2, rest, seen') = ih st1 in
          (
            st2,
            stream_loop_round f st buf offset skip ∙ rw e step ∙ rest,
            seen'
                ∙ rw
                    (
                      seen,
                      slice-chunk write view sink ctx open_ api file serves align pos_align offset
                          skip buf hb,
                      add-zero,
                    )
                    (append_assoc (view st.writer) _ _
                      ∙ ap (λ s. view st.writer ++ s)
                          (ap (λ s. drop skip (take align (drop offset file)) ++ s)
                              (sym (drop-drop align offset file))
                            ∙ window-append-drop skip align (drop offset file) hs
                            ∙ drop-drop skip offset file)),
          )

      stream_loop_whole :
          (f : ℕ) (st : State W) (buf : Bytes) (offset skip : ℕ)
          → length buf ≡ align
          → length file - offset < f
          → skip ≤ align
          → (offset + skip ≤ length file) ⊎ (length file ≤ offset)
          → Streams st
              (stream_loop write ctx source align f st buf offset skip)
              (drop (offset + skip) file)
      stream_loop_whole zero st buf offset skip hb hf hs hin = absurd (omega arith)
      stream_loop_whole (suc f) st buf offset skip hb hf hs hin =
          elim (dec_le (length file) offset) [
            | yes past ↦
                rw (drop_past_end (offset + skip) file (omega arith))
                  (stream_loop_past f st buf offset skip past)
            | no within ↦ elim (dec_le (length file) (offset + align)) [
              | yes last ↦ stream_loop_last f st buf offset skip hb (omega arith) last
              | no more ↦ stream_loop_more f st buf offset skip hb hs (omega arith) (λ s.
                  stream_loop_whole f s (filled offset buf) (offset + align) 0
                    (omega (arith, length-copy buf (take (length buf) (drop offset file))))
                    (omega arith) (omega arith) (inl (omega arith)))
            ]
          ]

      -- Over the chunks of a file that the API serves, with a positive chunk size, a context
      -- that stays open, a writer that takes every byte and more rounds than the file has
      -- bytes: from an offset inside the file, or in a chunk past it, StreamAt returns with no
      -- error and has written exactly the bytes of the file from that offset on, in order.
      pub stream_at-whole :
          (rounds : ℕ) (st : State W) (skip : ℕ)
          → length file < rounds
          → (skip ≤ length file) ⊎ (length file ≤ nearest_offset align skip)
          → (st' : State W) × (stream_at write ctx source align rounds st skip
              ≡ returned (st', none))
            × (view st'.writer ≡ view st.writer ++ drop skip file)
      unfolding stream_at Streams
      stream_at-whole rounds st skip enough inside =
          let (aligned, below, near) = nearest_offset_lem align skip pos_align in
          let o = nearest_offset align skip in
          let e : o + (skip - o) ≡ skip = omega arith in
          let result =
            stream_loop_whole rounds st (replicate align 0) o (skip - o) (length-replicate align 0)
              (omega arith) (omega arith)
              (elim inside [ inl h ↦ inl (omega arith) | inr h ↦ inr h ]) in
          rw e at result

      -- Over the chunks of a file that the API serves, with a positive chunk size and a context
      -- that stays open, a skipped offset behind the end of the file, in a chunk that begins
      -- inside it, is a panic: the lower bound of the slice is above its upper bound.
      pub stream_at_panics :
          (rounds : ℕ) (st : State W) (skip : ℕ)
          → 0 < rounds
          → length file < skip
          → nearest_offset align skip < length file
          → stream_at write ctx source align rounds st skip ≡ panicked
      unfolding stream_at after_read write_chunk
      stream_at_panics zero st skip some_round past inside = absurd (omega arith)
      stream_at_panics (suc f) st skip some_round past inside =
          let (aligned, below, near) = nearest_offset_lem align skip pos_align in
          let o = nearest_offset align skip in
          let buf = replicate align 0 in
          let n : count o buf ≡ length file - o = omega (arith, length-replicate align (zero)) in
          stream_loop_round f st buf o (skip - o) ∙ rw n (ground arith)
