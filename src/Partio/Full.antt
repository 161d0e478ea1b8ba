-- ===== src/Partio/Full.antt =====
-- partio/streamer.go: the loop of `writeFull`.
use tgcontrib.Base.{
  ℕ, suc, ◌≡◌, Bool-cases, inl, inr, Option, none, some, Option-cases, arith, ◌==◌, ==_iff, length,
  Bytes,
}
use tgcontrib.Partio.{
  Error, Context, Written, State, Outcome, returned, panicked, out_of_fuel, write_full, write_loop,
  after_write, sane_count,
}

-- The call has returned, and with no error only if `n` bytes were written.
abbrev pub Writes : {W : Type 0} → ℕ → Outcome (State W × ℕ × Option Error) → Type 0
Writes n (returned (st, written, none)) = written ≡ n
Writes n (returned (st, written, some e)) = Unit
Writes n panicked = ⊥
Writes n out_of_fuel = ⊥

module _ {W : Type 0} (write : W → Bytes → Written W) (ctx : Context) where
  write_loop-Writes_again :
      (f : ℕ) (st : State W) (buf : Bytes) (written : ℕ)
      → written ≡ length buf
      → Writes (length buf) (write_loop write ctx (suc f) st buf written)
  unfolding write_loop
  write_loop-Writes_again f st buf written h = elim (Option-cases (ctx st.polls)) [
    | inl e ↦ rw (e, write_loop) (rw ((==_iff written (length buf)).1 h, write_loop) h)
    | inr (x, e) ↦ rw (e, write_loop) tt
  ]

  -- A count that leads to another round is the length of the buffer.
  after_write_sound : (nr : ℕ) (p : ℕ × Option Error) → after_write nr p ≡ none → p.0 ≡ nr
  unfolding after_write
  after_write_sound nr (nw, none) h = ground arith
  after_write_sound nr (nw, some e) h = cc

  -- writeFull returns, whatever the writer and the context do, and reports success only if the
  -- whole buffer was written.
  pub write_full-Writes :
      (st : State W) (buf : Bytes) → Writes (length buf) (write_full write ctx st buf)
  unfolding write_full
  write_full-Writes st buf =
      let r = write st.writer buf in
      let nw = sane_count (length buf) r.count r.error in
      elim (Option-cases (ctx st.polls)) [
        | inr (x, e) ↦ rw (e, write_loop) tt
        | inl e ↦ elim (Bool-cases (0 == length buf)) [
          | inl z ↦ rw (e, write_loop) (rw (z, write_loop) ((==_iff 0 (length buf)).0 z))
          | inr z ↦ elim (Option-cases (after_write (length buf) nw)) [
            | inr (x, w) ↦ rw (e, write_loop) (rw (z, write_loop) (rw (w, write_loop) tt))
            | inl w ↦
                rw (e, write_loop)
                  (rw (z, write_loop)
                    (rw (w, write_loop)
                      (write_loop-Writes_again 0 _ buf _
                        (ground (arith, after_write_sound (length buf) nw w)))))
          ]
        ]
      ]
