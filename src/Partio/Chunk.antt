-- ===== src/Partio/Chunk.antt =====
-- partio/streamer.go: one chunk of a served file and a writer that takes everything.
use Prim.Native.Nat.{min}
use mathlib.Core.List.{append-nil}
use native.Mathlib.Nat.{div-add-mod, mod-lt, mod-le, mul-mod_right}
use tgcontrib.Base.{
  ℕ, suc, ◌+◌, ◌-◌, ◌%◌, ◌/◌, ◌*◌, ◌≤◌, ◌<◌, ◌≡◌, refl, sym, ap, ◌∙◌, Bool-cases, inl, inr, [], ◌∷◌,
  ◌++◌, Option, none, some, arith, leb, ◌==◌, if◌then◌else◌, length, take, drop, length-take,
  length-drop, Bytes,
}
use tgcontrib.Base.Slices.{drop_past_end, take_all}
use tgcontrib.Base.Int.{pos}
use tgcontrib.Partio.{
  Error, eof, Context, ChunkSource, Written, State, Outcome, returned, GetFile, upload_file,
  nearest_offset, check_count, safe_read, slice, write_loop, write_full, write_chunk, copy,
  file_chunk,
}

-- A writer that takes every byte; `view` is what it has received.
pub record IsSink {W : Type 0} (write : W → Bytes → Written W) (view : W → Bytes) : Type 0 where
  pub whole : (w : W) (b : Bytes) → (write w b).count ≡ pos (length b)
  pub no_error : (w : W) (b : Bytes) → (write w b).error ≡ none
  pub appends : (w : W) (b : Bytes) → view (write w b).writer ≡ view w ++ b

-- `upload.getFile` answers with the bytes of the file from the offset, up to the limit.
abbrev pub Serves : (ℕ → ℕ → GetFile) → Bytes → Type 0
Serves api file =
    (offset limit : ℕ) → api offset limit ≡ upload_file (take limit (drop offset file))

pub length-copy : (b s : Bytes) → length (copy b s) ≡ length b
length-copy [] s = refl
length-copy (x ∷ b) [] = refl
length-copy (x ∷ b) (y ∷ s) = ap suc (length-copy b s)

take-copy : (b s : Bytes) → take (min (length b) (length s)) (copy b s) ≡ take (length b) s
take-copy [] s = ground arith
take-copy (x ∷ b) [] = ground arith
take-copy (x ∷ b) (y ∷ s) = ground (arith, take-copy b s)

-- The nearest offset is the multiple of the alignment at or below the offset.
pub nearest_offset_lem :
    (align offset : ℕ)
    → 0 < align
    → (nearest_offset align offset % align ≡ 0)
      × (nearest_offset align offset ≤ offset)
      × (offset < nearest_offset align offset + align)
unfolding nearest_offset
nearest_offset_lem align offset h =
    let product : offset - offset % align ≡ align * (offset / align) =
      omega (arith, div-add-mod offset align) in
    (
      ground (arith, product, mul-mod_right align (offset / align)),
      ground (arith, mod-lt offset {m = align} h),
      ground (arith, mod-le offset align, mod-lt offset {m = align} h),
    )

-- A chunk of a served file: its count, its error and its bytes.
module _ (api : ℕ → ℕ → GetFile) (file : Bytes) (serves : Serves api file) where
  abbrev chunk : ChunkSource
  chunk = file_chunk api (length file)

  abbrev pub available : ℕ → Bytes → ℕ
  available offset b = min (length b) (length file - offset)

  file_chunk_lem :
      (offset : ℕ) (b : Bytes)
      → chunk offset b ≡ record {
        count = pos (available offset b);
        error = if leb (length file) (offset + available offset b) then some eof else none;
        buf = copy b (take (length b) (drop offset file));
      }
  unfolding file_chunk
  file_chunk_lem offset b =
      rw (serves offset (length b), file_chunk)
        (let e : min (length b) (length (take (length b) (drop offset file))) ≡ available offset b =
            omega (arith, length-take (length b) (drop offset file), length-drop offset file) in
          rw e)

  pub safe_read-file :
      (offset : ℕ) (b : Bytes)
      → safe_read chunk offset b ≡ record {
        count = pos (available offset b);
        error = if leb (length file) (offset + available offset b) then some eof else none;
        buf = copy b (take (length b) (drop offset file));
      }
  unfolding safe_read check_count
  safe_read-file offset b = rw (file_chunk_lem offset b) (ground arith)

-- A written part, and what is written behind it.
module _ {W : Type 0} (write : W → Bytes → Written W) (view : W → Bytes)
    (sink : IsSink write view) where
  module _ (ctx : Context) (open_ : (n : ℕ) → ctx n ≡ none) where
    write_full_sink :
        (st : State W) (buf : Bytes)
        → (st' : State W) × (write_full write ctx st buf ≡ returned (st', length buf, none))
          × (view st'.writer ≡ view st.writer ++ buf)
    unfolding write_full
    write_full_sink st [] =
        (record st { polls = st.polls + 1 }, rw (open_ st.polls, write_loop), sym (append-nil _))
    write_full_sink st (c ∷ buf) =
        let b = c ∷ buf in
        let st' : State W = record {
          polls = st.polls + 1 + 1;
          writer = (write st.writer b).writer;
        } in
        (
          st',
          ground (
            arith,
            open_ st.polls,
            open_ (st.polls + 1),
            sink.whole st.writer b,
            sink.no_error st.writer b,
          ),
          sink.appends st.writer b,
        )

    -- One chunk that holds the bytes to write behind `skip` others.
    pub write_chunk_sink :
        (source : ChunkSource) (align : ℕ) (st : State W) (buf : Bytes) (skip nr : ℕ)
        (next : State W → Outcome (State W × Option Error))
        → skip ≤ nr
        → nr ≤ length buf
        → (st' : State W) × (write_chunk write ctx source align st buf skip (pos nr) next
            ≡ next st')
          × (view st'.writer ≡ view st.writer ++ slice buf skip nr)
    unfolding write_chunk
    write_chunk_sink source align st buf skip nr next h fits = elim (Bool-cases (nr == 0)) [
      | inl z ↦ (
        st,
        rw z,
        rw (drop_past_end skip (take nr buf) (ground (arith, length-take nr buf)), append-nil),
      )
      | inr p ↦
          let (st', done, seen) = write_full_sink st (slice buf skip nr) in
          (st', ground (arith, done), seen)
    ]

    module _ (api : ℕ → ℕ → GetFile) (file : Bytes) (serves : Serves api file) (align : ℕ)
        (pos_align : 0 < align) where
      abbrev pub source : ChunkSource
      source = file_chunk api (length file)

      -- The bytes of the chunk at `offset`, behind the first `skip`.
      pub slice-chunk :
          (offset skip : ℕ) (buf : Bytes)
          → length buf ≡ align
          → slice
              (copy buf (take (length buf) (drop offset file)))
              skip
              (available api file serves offset buf)
            ≡ drop skip (take align (drop offset file))
      slice-chunk offset skip buf h = ap (drop skip) (
          let e : available api file serves offset buf
              ≡ min (length buf) (length (take (length buf) (drop offset file))) =
            omega (arith, length-take (length buf) (drop offset file), length-drop offset file) in
          rw e (
            take-copy buf (take (length buf) (drop offset file))
            ∙ take_all (length buf) _ (omega (arith, length-take (length buf) (drop offset file)))
            ∙ ap (λ n. take n (drop offset file)) h))
