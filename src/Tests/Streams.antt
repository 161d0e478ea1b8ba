-- ===== src/Tests/Streams.antt =====
-- partio/streamer.go and tg_io/download.go at a concrete file.
use tgcontrib.Base.{
  ℕ, ◌+◌, ◌%◌, ◌≤◌, ◌<◌, ◌≡◌, inl, refl, [], ◌++◌, none, arith, length, take, drop, Bytes,
}
use tgcontrib.Base.Int.{pos}
use tgcontrib.Base.Text.{codes}
use tgcontrib.Partio.{
  Context, Written, State, returned, panicked, GetFile, upload_file, nearest_offset, write_full,
  stream_at, file_chunk,
}
use tgcontrib.Partio.Full.{Writes, write_full-Writes}
use tgcontrib.Partio.Chunk.{IsSink, nearest_offset_lem}
use tgcontrib.Partio.Whole.{stream_at-whole, stream_at_panics}

abbrev file : Bytes
file = codes "abcdefgh"

abbrev api : ℕ → ℕ → GetFile
api offset limit = upload_file (take limit (drop offset file))

abbrev write : Bytes → Bytes → Written Bytes
write w b = record { writer = w ++ b; count = pos (length b); error = none }

abbrev same : Bytes → Bytes
same w = w

sink : IsSink write same
sink = record { whole = λ w b. refl; no_error = λ w b. refl; appends = λ w b. refl }

abbrev open_ctx : Context
open_ctx = λ n. none

abbrev start : State Bytes
start = record { polls = 0; writer = [] }

nearest_offset_lem_example :
    (nearest_offset 3 7 % 3 ≡ 0) × (nearest_offset 3 7 ≤ 7) × (7 < nearest_offset 3 7 + 3)
nearest_offset_lem_example = nearest_offset_lem 3 7 (omega arith)

stream_at-whole_example :
    (st' : State Bytes) × (stream_at write open_ctx (file_chunk api 8) 3 9 start 4
      ≡ returned (st', none))
    × (st'.writer ≡ [] ++ drop 4 file)
stream_at-whole_example =
    stream_at-whole write same sink open_ctx (λ n. refl) api file (λ o l. refl) 3 (omega arith) 9
      start 4 (omega arith) (inl (omega arith))

in_chunk : nearest_offset 5 9 < 8
unfolding nearest_offset
in_chunk = omega arith

stream_at_panics_run : stream_at write open_ctx (file_chunk api 8) 5 9 start 9 ≡ panicked
stream_at_panics_run =
    stream_at_panics write same sink open_ctx (λ n. refl) api file (λ o l. refl) 5 (omega arith) 9
      start 9 (omega arith) (omega arith) in_chunk

-- a writer that takes one byte of each write
abbrev short : Bytes → Bytes → Written Bytes
short w b = record { writer = w ++ take 1 b; count = pos 1; error = none }

write_full-Writes_example : Writes 2 (write_full short open_ctx start (codes "ab"))
write_full-Writes_example = write_full-Writes short open_ctx start (codes "ab")
