-- ===== src/Storage/Iterate/Strict.antt =====
-- pebble/peer_storage.go, bbolt/peer_storage.go, redis/peer_storage.go: the iterators of pebble and of redis.
use tgcontrib.Base.{
  ℕ, suc, ◌≡◌, inl, inr, refl, sym, true, false, List, [], ◌∷◌, Option, none, some, Bool-cases,
  Option-cases, arith, if◌then◌else◌, length, Bytes,
}
use mathlib.Core.Option
use mathlib.Core.Path.{subst}
use tgcontrib.Base.Text.{has_prefix}
use tgcontrib.Storage.Key.{peer_key_prefix}
use tgcontrib.Storage.Store.{
  Error, unmarshal_failed, outdated, database, Found, found, missing, broken,
}
use tgcontrib.Storage.Iterate.{
  Ending, read, must_invalidate, malformed, for_each, Iter, Scan, Entry, errors, pebble_iterator,
  redis_iterator, pebble_read, pebble_next, redis_read, redis_next, redis_got, stop, redis_stop,
  scan_errors,
}
use tgcontrib.Storage.Iterate.Loops.{Peers, cons_peer, over, Nexts, gives, ends, for_each-over}
use tgcontrib.Storage.Iterate.Backends.{Read-cases, Found-cases, skip}

-- The texts of the entries with the prefix.
unfoldable pub entry_texts : List Entry → List Bytes
entry_texts [] = []
entry_texts ((k, v) ∷ r) =
    let rest = entry_texts r in if has_prefix k peer_key_prefix then v ∷ rest else rest

module _ {P : Type 0} (into : P → Bytes → P × Ending) where
  strict_text : (P → Peers P) → P × Ending → Peers P
  strict_text rest (p, read) = cons_peer p (rest p)
  strict_text rest (p, must_invalidate) = ([], some outdated)
  strict_text rest (p, malformed) = ([], some unmarshal_failed)

  -- The texts read one behind the other, each into what the one before it has left, up to one that
  -- is outdated or no peer.
  unfoldable pub read_strict : List Bytes → P → Peers P
  unfolding strict_text
  read_strict [] p = ([], none)
  read_strict (v ∷ vs) p = strict_text (read_strict vs) (into p v)

  abbrev pebble_view : Iter Entry P → Peers P
  pebble_view i = read_strict (entry_texts i.rest) i.last

  abbrev PebbleNexts : Iter Entry P → Type 0
  PebbleNexts =
      Nexts (pebble_iterator into) pebble_view (λ i. length i.rest) (λ i. i.last_err ≡ none)

  abbrev pebble_at : List Entry → P → Iter Entry P
  pebble_at r p = record { rest = r; last_err = none; last = p }

  abbrev pebble_stopped : List Entry → P → Error → Iter Entry P
  pebble_stopped r p e = record { rest = r; last_err = some e; last = p }

  pebble_step : (r : List Entry) (p : P) → PebbleNexts (pebble_at r p)
  unfolding pebble_iterator pebble_next pebble_read read_strict entry_texts stop
  pebble_step [] p = ends (pebble_at [] p) none refl refl refl
  pebble_step ((k, v) ∷ r) p = elim (Bool-cases (has_prefix k peer_key_prefix)) [
    | inr e ↦ skip _ _ _ _ _ (pebble_at r p) (rw e refl) (rw e refl) (omega arith) (pebble_step r p)
    | inl e ↦ elim (Read-cases (into p v)) [
      | inl (q, d) ↦
          gives (pebble_at r q) q (pebble_view (pebble_at r q)).0 (pebble_view (pebble_at r q)).1
            (rw (e, d) refl) (rw (e, d) refl) refl refl (omega arith) refl
      | inr (inl (q, d)) ↦
          ends (pebble_stopped ((k, v) ∷ r) q outdated) (some outdated) (rw (e, d) refl)
            (rw (e, d) refl) refl
      | inr (inr (q, d)) ↦
          ends (pebble_stopped ((k, v) ∷ r) q unmarshal_failed) (some unmarshal_failed)
            (rw (e, d) refl) (rw (e, d) refl) refl
    ]
  ]

  -- On pebble, ForEach ends behind at most one turn for each entry of the iterator, and calls
  -- the callback, until the callback fails, on the peers that the texts of the entries with the
  -- prefix are read as in their order, each into what the one before it has left in the
  -- iterator's peer. Outdated data and data that cannot be read end the loop with an error.
  pub for_each-pebble_peers :
      {W : Type 0} (cb : P → W → W × Option ℕ) (r : List Entry) (p : P) (w : W)
      → for_each
          (pebble_iterator into)
          cb
          (suc (length r))
          (record { rest = r; last_err = none; last = p })
          w
        ≡ some (over cb (read_strict (entry_texts r) p).0 (read_strict (entry_texts r) p).1 w)
  for_each-pebble_peers cb r p w =
      for_each-over (pebble_iterator into) pebble_view (λ i. length i.rest) (λ i. i.last_err ≡ none)
        cb
        (λ i e.
          subst (λ x. PebbleNexts (record { rest = i.rest; last_err = x; last = i.last })) (sym e)
            (pebble_step i.rest i.last))
        (suc (length r)) (pebble_at r p) w refl (omega arith)

  module _ (get : Bytes → Found) (nil : ℕ) (scan_err : Option ℕ) where
    redis_got_peers : (P → Peers P) → P → Found → Peers P
    unfolding strict_text
    redis_got_peers rest p (found v) = strict_text rest (into p v)
    redis_got_peers rest p missing = ([], some (database nil))
    redis_got_peers rest p (broken x) = ([], some (database x))

    -- The peers that the keys of the scan read, up to one that does not give a peer.
    unfoldable pub redis_peers : List Bytes → P → Peers P
    unfolding redis_got_peers
    redis_peers [] p = ([], Option.map database scan_err)
    redis_peers (k ∷ r) p = redis_got_peers (redis_peers r) p (get k)

    abbrev redis_view : Scan P → Peers P
    redis_view i = redis_peers i.keys i.peer

    abbrev RedisNexts : Scan P → Type 0
    RedisNexts =
        Nexts (redis_iterator into get nil scan_err) redis_view (λ i. length i.keys)
          (λ i. (i.failed ≡ none) × (i.ended ≡ false))

    abbrev redis_at : List Bytes → P → Scan P
    redis_at r p = record { keys = r; ended = false; failed = none; peer = p }

    abbrev redis_broken : List Bytes → P → Error → Scan P
    redis_broken r p e = record { keys = r; ended = false; failed = some e; peer = p }

    scan_ended :
        scan_errors into get nil scan_err true scan_err ≡ errors (Option.map database scan_err)
    unfolding scan_errors
    scan_ended = elim (Option-cases scan_err) [ inl e ↦ rw e refl | inr (x, e) ↦ rw e refl ]

    redis_step : (r : List Bytes) (p : P) → RedisNexts (redis_at r p)
    unfolding redis_iterator redis_next redis_got redis_read redis_stop redis_peers scan_errors
    redis_step [] p =
        ends (record { keys = []; ended = true; failed = none; peer = p })
          (Option.map database scan_err) refl refl scan_ended
    redis_step (k ∷ r) p = elim (Found-cases (get k)) [
      | inr (inl g) ↦
          ends (redis_broken r p (database nil)) (some (database nil)) (rw g refl) (rw g refl) refl
      | inr (inr (x, g)) ↦
          ends (redis_broken r p (database x)) (some (database x)) (rw g refl) (rw g refl) refl
      | inl (v, g) ↦ elim (Read-cases (into p v)) [
        | inl (q, d) ↦
            gives (redis_at r q) q (redis_view (redis_at r q)).0 (redis_view (redis_at r q)).1
              (rw (g, d) refl) (rw (g, d) refl) refl refl (omega arith) (refl, refl)
        | inr (inl (q, d)) ↦
            ends (redis_broken r q outdated) (some outdated) (rw (g, d) refl) (rw (g, d) refl) refl
        | inr (inr (q, d)) ↦
            ends (redis_broken r q unmarshal_failed) (some unmarshal_failed) (rw (g, d) refl)
              (rw (g, d) refl) refl
      ]
    ]

    -- On redis, `ForEach` calls the callback on what the keys of the scan read, in the order of the
    -- scan; a key that is gone, data that is outdated or cannot be read, and an error of the
    -- database end the loop with an error.
    pub for_each-redis_peers :
        {W : Type 0} (cb : P → W → W × Option ℕ) (r : List Bytes) (p : P) (w : W)
        → for_each
            (redis_iterator into get nil scan_err)
            cb
            (suc (length r))
            (record { keys = r; ended = false; failed = none; peer = p })
            w
          ≡ some (over cb (redis_peers r p).0 (redis_peers r p).1 w)
    for_each-redis_peers cb r p w =
        for_each-over (redis_iterator into get nil scan_err) redis_view (λ i. length i.keys)
          (λ i. (i.failed ≡ none) × (i.ended ≡ false)) cb
          (λ i (e, b).
            subst
              (λ x.
                RedisNexts (record { keys = i.keys; ended = x; failed = i.failed; peer = i.peer }))
              (sym b)
              (subst
                (λ x.
                  RedisNexts (record { keys = i.keys; ended = false; failed = x; peer = i.peer }))
                (sym e) (redis_step i.keys i.peer)))
          (suc (length r)) (redis_at r p) w (refl, refl) (omega arith)
