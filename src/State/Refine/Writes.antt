-- ===== src/State/Refine/Writes.antt =====
-- bbolt/state_storage.go: the writes of `State` one by one against the specification.
use tgcontrib.Base.{◌≡◌, refl, ap, true, ◌&&◌, [], ◌∷◌, none, some, Bytes}
use tgcontrib.Base.Int.{ℤ}
use tgcontrib.Base.Decimal.{IsInt64}
use tgcontrib.Base.Text.{equal}
use tgcontrib.State.Words.{i2b, i642b}
use tgcontrib.State.Tree.{equal_place, Tree, IsTree}
use tgcontrib.State.Calls.{
  Call, state_set, pts_set, qts_set, date_set, seq_set, date_seq_set, channel_set, run, InRange,
}
use tgcontrib.State.Ops.{
  UpdatesState, Failure, ◌>>=◌, state_place, channels_place, pts_name, qts_name, date_name,
  seq_name, put_int, set_state, set_pts, set_qts, set_date, set_seq, set_date_seq, set_channel_pts,
  channels_bucket,
}
use tgcontrib.State.Ops.Views.{ValidPuts, IsStates, Saved, Wrote, Wrote-IsStates}
use tgcontrib.State.Ops.Steps.{
  Nobody, Only, state_puts, Wrote_trans, put_int-Wrote, channels_bucket-Wrote, set_state-Wrote,
  >>=-eq-stepped,
}
use tgcontrib.State.Ops.Fields.{InRangeState, new_state, new_pts, same_state, same_pts}
use tgcontrib.State.Ops.Commits.{update-none, update-some}
use tgcontrib.State.Refine.{and_false, number, Refines, Field, on_Field}

module _ {D T : Type 0} (tree : Tree D T) (content : D → T) (laws : IsTree tree content) where
  pts-Field :
      (u n : ℤ)
      → IsInt64 n
      → Field tree u (put_int tree (state_place u) pts_name n) (λ s. record s { pts = n })
  pts-Field u n h = record {
    puts = (pts_name, i2b n) ∷ [];
    valid = number u pts_name n h;
    changes = λ s r. (refl, refl, refl, refl, (h, r.1, r.2, r.3));
    writes = λ t t'. put_int-Wrote tree content laws t t' (state_place u) pts_name n Nobody;
  }

  qts-Field :
      (u n : ℤ)
      → IsInt64 n
      → Field tree u (put_int tree (state_place u) qts_name n) (λ s. record s { qts = n })
  qts-Field u n h = record {
    puts = (qts_name, i2b n) ∷ [];
    valid = number u qts_name n h;
    changes = λ s r. (refl, refl, refl, refl, (r.0, h, r.2, r.3));
    writes = λ t t'. put_int-Wrote tree content laws t t' (state_place u) qts_name n Nobody;
  }

  date-Field :
      (u n : ℤ)
      → IsInt64 n
      → Field tree u (put_int tree (state_place u) date_name n) (λ s. record s { date = n })
  date-Field u n h = record {
    puts = (date_name, i2b n) ∷ [];
    valid = number u date_name n h;
    changes = λ s r. (refl, refl, refl, refl, (r.0, r.1, h, r.3));
    writes = λ t t'. put_int-Wrote tree content laws t t' (state_place u) date_name n Nobody;
  }

  seq-Field :
      (u n : ℤ)
      → IsInt64 n
      → Field tree u (put_int tree (state_place u) seq_name n) (λ s. record s { seq = n })
  seq-Field u n h = record {
    puts = (seq_name, i2b n) ∷ [];
    valid = number u seq_name n h;
    changes = λ s r. (refl, refl, refl, refl, (r.0, r.1, r.2, h));
    writes = λ t t'. put_int-Wrote tree content laws t t' (state_place u) seq_name n Nobody;
  }

  date_seq-Field :
      (u m n : ℤ)
      → IsInt64 m
      → IsInt64 n
      → Field tree u
          (λ t.
            put_int tree (state_place u) date_name m t >>= put_int tree (state_place u) seq_name n)
          (λ s. record s { date = m; seq = n })
  date_seq-Field u m n hm hn = record {
    puts = (date_name, i2b m) ∷ (seq_name, i2b n) ∷ [];
    valid = let (v, k, _) = number u date_name m hm in (v, k, number u seq_name n hn);
    changes = λ s r. (refl, refl, refl, refl, (r.0, r.1, hm, hn));
    writes = λ t t' h.
        let (t1, first, rest) = >>=-eq-stepped (put_int tree (state_place u) date_name m t) _ h in
        Wrote_trans tree content laws t t1 t' (state_place u) ((date_name, i2b m) ∷ []) _ Nobody
          (put_int-Wrote tree content laws t t1 (state_place u) date_name m Nobody first)
          (put_int-Wrote tree content laws t1 t' (state_place u) seq_name n Nobody rest);
  }

  own_key :
      (u c : ℤ) (n : ℤ)
      → IsInt64 c
      → IsInt64 n
      → ValidPuts (channels_place u) ((i642b c, i2b n) ∷ [])
  own_key u c n hc hn = ((n, hn, refl), λ w e. (c, hc, refl), tt)

  channel-Refines :
      (u c n : ℤ) (d : D)
      → InRange (channel_set u c n)
      → IsStates tree (content d)
      → (set_channel_pts tree u c n d).1 ≡ none
      → Refines tree (channel_set u c n) (content d) (content (set_channel_pts tree u c n d).0)
  unfolding set_channel_pts
  channel-Refines u c n d (hu, hc, hn) s h =
      let (t', made, same) = update-none tree content laws _ d h in
      let (t1, first, rest) = >>=-eq-stepped (channels_bucket tree u (content d)) _ made in
      let x =
        Wrote_trans tree content laws (content d) t1 t' (channels_place u) []
          ((i642b c, i2b n) ∷ []) Nobody
          (channels_bucket-Wrote tree content laws u (content d) t1 first)
          (put_int-Wrote tree content laws t1 t' (channels_place u) (i642b c) n Nobody rest) in
      rw same (record {
        shape =
            Wrote-IsStates tree (content d) t' (channels_place u) _ Nobody x (own_key u c n hc hn) s
              (λ w m. absurd m);
        states = λ w hw.
            same_state tree content laws (content d) t' (channels_place u) _ Nobody x w
              (and_false (equal (i642b u) (i642b w)));
        channels = λ w e hw he.
            new_pts tree content laws (content d) t' u c n w e Nobody (hu, hc, hn) hw he x;
      })

  state_valid :
      (u : ℤ) (s : UpdatesState) → InRangeState s → ValidPuts (state_place u) (state_puts s)
  state_valid u s (a, b, c, d) =
      let (v, k, _) = number u pts_name s.pts a in
      let (v', k', _) = number u qts_name s.qts b in
      let (w, j, _) = number u date_name s.date c in
      (v, k, (v', k', (w, j, number u seq_name s.seq d)))

  state-Saved :
      (u w : ℤ) (s : UpdatesState) (t t' : T)
      → InRangeState s
      → Wrote tree t t' (state_place u) (state_puts s) (Only u)
      → Only u w
      → Saved tree t' w
  state-Saved u w s t t' (a, b, c, d) x own =
      let here : equal_place (state_place u) (state_place w) ≡ true = ap (λ e. e && true) own in
      let value = λ (k : Bytes). x.reads (state_place w) k in
      (
        (i2b s.pts, rw (value pts_name, here) refl, (s.pts, a, refl)),
        (i2b s.qts, rw (value qts_name, here) refl, (s.qts, b, refl)),
        (i2b s.date, rw (value date_name, here) refl, (s.date, c, refl)),
        (i2b s.seq, rw (value seq_name, here) refl, (s.seq, d, refl)),
      )

  state-Refines :
      (u : ℤ) (s : UpdatesState) (d : D)
      → InRange (state_set u s)
      → IsStates tree (content d)
      → (set_state tree u s d).1 ≡ none
      → Refines tree (state_set u s) (content d) (content (set_state tree u s d).0)
  unfolding set_state
  state-Refines u s d (hu, a, b, c, e) i h =
      let (t', made, same) = update-none tree content laws _ d h in
      let x = set_state-Wrote tree content laws u s (content d) t' made in
      rw same (record {
        shape =
            Wrote-IsStates tree (content d) t' (state_place u) (state_puts s) (Only u) x
              (state_valid u s (a, b, c, e)) i
              (λ w. state-Saved u w s (content d) t' (a, b, c, e) x);
        states =
            λ w hw. new_state tree content laws (content d) t' u w s (Only u) hu hw (a, b, c, e) x;
        channels = λ w c' hw hc.
            same_pts tree content laws (content d) t' (state_place u) (state_puts s) (Only u) x w c'
              (and_false (equal (i642b u) (i642b w)));
      })

  -- A write that reports no error does to the states and the channels what the specification says,
  -- and keeps the shape of the tree.
  pub run-Refines :
      (c : Call) (d : D)
      → InRange c
      → IsStates tree (content d)
      → (run tree c d).1 ≡ none
      → Refines tree c (content d) (content (run tree c d).0)
  unfolding run set_pts set_qts set_date set_seq set_date_seq
  run-Refines (state_set u s) d r i h = state-Refines u s d r i h
  run-Refines (pts_set u n) d (hu, hn) i h =
      let (a, b, c) = on_Field tree content laws u _ _ d (pts-Field u n hn) hu i h in
      record { shape = a; states = b; channels = λ w e _ _. c w e }
  run-Refines (qts_set u n) d (hu, hn) i h =
      let (a, b, c) = on_Field tree content laws u _ _ d (qts-Field u n hn) hu i h in
      record { shape = a; states = b; channels = λ w e _ _. c w e }
  run-Refines (date_set u n) d (hu, hn) i h =
      let (a, b, c) = on_Field tree content laws u _ _ d (date-Field u n hn) hu i h in
      record { shape = a; states = b; channels = λ w e _ _. c w e }
  run-Refines (seq_set u n) d (hu, hn) i h =
      let (a, b, c) = on_Field tree content laws u _ _ d (seq-Field u n hn) hu i h in
      record { shape = a; states = b; channels = λ w e _ _. c w e }
  run-Refines (date_seq_set u m n) d (hu, hm, hn) i h =
      let (a, b, c) = on_Field tree content laws u _ _ d (date_seq-Field u m n hm hn) hu i h in
      record { shape = a; states = b; channels = λ w e _ _. c w e }
  run-Refines (channel_set u c n) d r i h = channel-Refines u c n d r i h

  -- A write that reports an error leaves the tree as it was.
  pub run_aborts :
      (c : Call) (d : D) (e : Failure)
      → (run tree c d).1 ≡ some e
      → content (run tree c d).0 ≡ content d
  unfolding run set_state set_pts set_qts set_date set_seq set_date_seq set_channel_pts
  run_aborts (state_set u s) d e h = update-some tree content laws _ d e h
  run_aborts (pts_set u n) d e h = update-some tree content laws _ d e h
  run_aborts (qts_set u n) d e h = update-some tree content laws _ d e h
  run_aborts (date_set u n) d e h = update-some tree content laws _ d e h
  run_aborts (seq_set u n) d e h = update-some tree content laws _ d e h
  run_aborts (date_seq_set u m n) d e h = update-some tree content laws _ d e h
  run_aborts (channel_set u c n) d e h = update-some tree content laws _ d e h
