-- ===== src/Partio.antt =====
-- partio/streamer.go and tg_io/download.go: a stream made of aligned chunks.
-- Offsets are natural numbers: a caller that skips a negative number of bytes is not modelled.
-- The context is asked in numbered polls, the writer and the source are parameters.
pub mod Chunk
pub mod Full
pub mod Whole
use tgcontrib.Base.{
  ℕ, zero, suc, ◌+◌, ◌-◌, ◌%◌, Bool, true, false, ◌||◌, List, [], ◌∷◌, Option, none, some, ltb, leb,
  ◌==◌, if◌then◌else◌, length, take, drop, replicate, Bytes,
}
use Prim.Native.Nat.{min}
use tgcontrib.Base.Int.{ℤ, pos, negsuc}

-- The sentinel errors, and those of the source, the writer and the context by a number.
pub data Error : Type 0 where
  eof short_write invalid_write unexpected_type : Error
  invalid_chunk : ℤ → Error
  other : ℕ → Error

-- `ctx.Err()` at each poll: `none` while the context is not done
abbrev pub Context : Type 0
Context = ℕ → Option Error

-- What `Chunk` returns, with the buffer as it leaves it.
pub record Read : Type 0 where
  pub count : ℤ
  pub error : Option Error
  pub buf : Bytes

abbrev pub ChunkSource : Type 0
ChunkSource = ℕ → Bytes → Read

-- What `Write` returns, with the writer as it leaves it.
pub record Written (W : Type 0) : Type 0 where
  pub writer : W
  pub count : ℤ
  pub error : Option Error

pub record State (W : Type 0) : Type 0 where
  pub polls : ℕ
  pub writer : W

pub data Outcome (A : Type 0) : Type 0 where
  returned : A → Outcome A
  panicked out_of_fuel : Outcome A

unfoldable pub nearest_offset : ℕ → ℕ → ℕ
nearest_offset align offset =
    if align == 0 then offset else if offset == 0 then 0 else offset - offset % align

-- the test on the count of a chunk that was read with no error
check_count : ℤ → Option Error → Bytes → Bytes → Read
check_count (negsuc n) none b buf = record {
  count = negsuc n;
  error = some (invalid_chunk (negsuc n));
  buf = buf;
}
check_count (pos n) none b buf =
    if ltb (length b) n
    then record { count = pos n; error = some (invalid_chunk (pos n)); buf = buf }
    else record { count = pos n; error = none; buf = buf }
check_count n (some e) b buf = record { count = n; error = some e; buf = buf }

unfoldable pub safe_read : ChunkSource → ℕ → Bytes → Read
unfolding check_count
safe_read chunk offset b = let r = chunk offset b in check_count r.count r.error b r.buf

-- `buf[lo:hi]`, where the bounds are in order
abbrev pub slice : Bytes → ℕ → ℕ → Bytes
slice buf lo hi = drop lo (take hi buf)

-- The count of a write, and its error: an impossible count is 0 and an error.
sane_count : ℕ → ℤ → Option Error → ℕ × Option Error
sane_count nr (negsuc n) none = (0, some invalid_write)
sane_count nr (negsuc n) (some e) = (0, some e)
sane_count nr (pos n) none = if ltb nr n then (0, some invalid_write) else (n, none)
sane_count nr (pos n) (some e) = (if ltb nr n then 0 else n, some e)

-- The three `break`s behind a write; `none` is the next round.
after_write : ℕ → ℕ × Option Error → Option Error
after_write nr (nw, some e) = some e
after_write nr (nw, none) = if nr == nw then none else some short_write

module _ {W : Type 0} (write : W → Bytes → Written W) (ctx : Context) where
  abbrev WriteFull : Type 0
  WriteFull = Outcome (State W × ℕ × Option Error)

  write_loop : ℕ → State W → Bytes → ℕ → WriteFull
  write_loop zero st buf written = out_of_fuel
  write_loop (suc f) st buf written =
      let polled = record st { polls = st.polls + 1 } in
      let r = write st.writer (drop written buf) in
      let nw = sane_count (length buf) r.count r.error in
      let st' = record polled { writer = r.writer } in
      elim (ctx st.polls) [
        | some e ↦ returned (polled, written, some e)
        | none ↦ elim (written == length buf) [
          | true ↦ returned (polled, written, none)
          | false ↦ elim (after_write (length buf) nw) [
            | some e ↦ returned (st', written + nw.0, some e)
            | none ↦ write_loop f st' buf (written + nw.0)
          ]
        ]
      ]

  -- The second round of the loop never writes, so two rounds are enough.
  unfoldable pub write_full : State W → Bytes → WriteFull
  unfolding write_loop after_write sane_count
  write_full st buf = write_loop 2 st buf 0

  module _ (chunk : ChunkSource) (align : ℕ) where
    abbrev pub Stream : Type 0
    Stream = Outcome (State W × Option Error)

    -- `if nr > 0`: the write of one chunk, with what follows it. The slice panics out of bounds.
    pub write_chunk : State W → Bytes → ℕ → ℤ → (State W → Stream) → Stream
    write_chunk st buf skip (negsuc n) next = next st
    write_chunk st buf skip (pos nr) next =
        if nr == 0
        then next st
        else if ltb nr skip || ltb (length buf) nr
        then panicked
        else elim (write_full st (slice buf skip nr)) [
          | panicked ↦ panicked
          | out_of_fuel ↦ out_of_fuel
          | returned (st', n, some e) ↦ returned (st', some e)
          | returned (st', n, none) ↦ next st'
        ]

    -- the rest of a round, behind the read; `next` is the following round
    after_read : State W → ℕ → Option Error → ℤ → Bytes → (State W → Stream) → Stream
    after_read st skip none n buf next = write_chunk st buf skip n next
    after_read st skip (some eof) n buf next = write_chunk st buf skip n (λ s. returned (s, none))
    after_read st skip (some e) n buf next = returned (st, some e)

    stream_loop : ℕ → State W → Bytes → ℕ → ℕ → Stream
    stream_loop zero st buf offset skip = out_of_fuel
    stream_loop (suc f) st buf offset skip =
        let polled = record st { polls = st.polls + 1 } in
        let r = safe_read chunk offset buf in
        elim (ctx st.polls) [
          | some e ↦ returned (polled, some e)
          | none ↦
              after_read polled skip r.error r.count r.buf
                (λ s. stream_loop f s r.buf (offset + align) 0)
        ]

    -- `StreamAt`, with `rounds` rounds at most
    unfoldable pub stream_at : ℕ → State W → ℕ → Stream
    unfolding stream_loop after_read write_chunk write_full nearest_offset safe_read
    stream_at rounds st skip =
        let offset = nearest_offset align skip in
        stream_loop rounds st (replicate align 0) offset (skip - offset)

    unfoldable pub stream : ℕ → State W → Stream
    unfolding stream_at
    stream rounds st = stream_at rounds st 0

-- `NewStreamer`: a chunk size that is not positive is a panic.
unfoldable pub new_streamer : ChunkSource → ℤ → Option (ChunkSource × ℕ)
new_streamer r (negsuc n) = none
new_streamer r (pos n) = if n == 0 then none else some (r, n)

-- `context.WithTimeout`: the earlier of the two deadlines, where none is no deadline.
earlier : Option ℕ → ℕ → ℕ
earlier none t = t
earlier (some d) t = min d t

-- `TimedChunkSource.Chunk`: the source that is wrapped takes the deadline of its context.
unfoldable pub timed_chunk : (Option ℕ → ChunkSource) → ℕ → ℕ → Option ℕ → ChunkSource
unfolding earlier
timed_chunk source timeout now deadline = source (some (earlier deadline (now + timeout)))

-- What `upload.getFile` may answer.
pub data GetFile : Type 0 where
  upload_file : Bytes → GetFile
  cdn_redirect : GetFile
  failed : Error → GetFile

-- the built-in `copy`, on the destination
abbrev pub copy : Bytes → Bytes → Bytes
copy [] s = []
copy (x ∷ b) [] = x ∷ b
copy (x ∷ b) (y ∷ s) = y ∷ copy b s

-- `chunkSource.Chunk` of tg_io; `api` is the call of `UploadGetFile` with an offset and a limit.
unfoldable pub file_chunk : (ℕ → ℕ → GetFile) → ℕ → ChunkSource
file_chunk api size offset b = elim (api offset (length b)) [
  | failed e ↦ record { count = pos 0; error = some e; buf = b }
  | cdn_redirect ↦ record { count = pos 0; error = some unexpected_type; buf = b }
  | upload_file s ↦
      let n = min (length b) (length s) in
      record {
        count = pos n;
        error = if leb size (offset + n) then some eof else none;
        buf = copy b s;
      }
]
