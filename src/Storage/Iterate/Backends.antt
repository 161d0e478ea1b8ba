-- ===== src/Storage/Iterate/Backends.antt =====
-- pebble/peer_storage.go, bbolt/peer_storage.go, redis/peer_storage.go: the iterator of bbolt, and what the three share.
use tgcontrib.Base.{
  ℕ, suc, ◌<◌, ◌≡◌, ◌⊎◌, inl, inr, refl, sym, ◌∙◌, List, [], ◌∷◌, Option, none, some, Bool-cases,
  arith, if◌then◌else◌, length, Bytes,
}
use mathlib.Core.Path.{subst}
use tgcontrib.Base.Text.{has_prefix}
use tgcontrib.Storage.Key.{peer_key_prefix}
use tgcontrib.Storage.Store.{unmarshal_failed, Found, found, missing, broken}
use tgcontrib.Storage.Iterate.{
  Ending, read, must_invalidate, malformed, PeerIterator, for_each, Iter, Item, bbolt_iterator,
  bbolt_next, stop,
}
use tgcontrib.Storage.Iterate.Loops.{Peers, cons_peer, over, Nexts, gives, ends, for_each-over}

pub Read-cases :
    {P : Type 0} (x : P × Ending)
    → ((p : P) × (x ≡ (p, read)))
      ⊎ (((p : P) × (x ≡ (p, must_invalidate))) ⊎ ((p : P) × (x ≡ (p, malformed))))
Read-cases (p, read) = inl (p, refl)
Read-cases (p, must_invalidate) = inr (inl (p, refl))
Read-cases (p, malformed) = inr (inr (p, refl))

pub Found-cases :
    (r : Found) → ((v : Bytes) × (r ≡ found v)) ⊎ ((r ≡ missing) ⊎ ((x : ℕ) × (r ≡ broken x)))
Found-cases (found v) = inl (v, refl)
Found-cases missing = inr (inl refl)
Found-cases (broken x) = inr (inr (x, refl))

-- A call of `Next` that passes over an entry.
pub skip :
    {I P : Type 0} (iterator : PeerIterator I P) (view : I → Peers P) (size : I → ℕ)
    (Fine : I → Type 0) (i j : I)
    → iterator.next i ≡ iterator.next j
    → view i ≡ view j
    → size j < size i
    → Nexts iterator view size Fine j
    → Nexts iterator view size Fine i
skip iterator view size Fine i j n v lt (gives i' p l x n' v' w val lt' fine) =
    gives i' p l x (n ∙ n') (v ∙ v') w val (omega arith) fine
skip iterator view size Fine i j n v lt (ends i' x n' v' e) = ends i' x (n ∙ n') (v ∙ v') e

-- The texts of the entries with the prefix, up to an entry without a value.
unfoldable pub item_texts : List Item → List Bytes
item_texts [] = []
item_texts ((k, none) ∷ r) = []
item_texts ((k, some v) ∷ r) =
    let rest = item_texts r in if has_prefix k peer_key_prefix then v ∷ rest else rest

module _ {P : Type 0} (into : P → Bytes → P × Ending) where
  over_text : (P → Peers P) → P × Ending → Peers P
  over_text rest (p, read) = cons_peer p (rest p)
  over_text rest (p, must_invalidate) = rest p
  over_text rest (p, malformed) = ([], some unmarshal_failed)

  -- The texts read one behind the other, each into what the one before it has left, with outdated
  -- ones passed over.
  unfoldable pub read_over : List Bytes → P → Peers P
  unfolding over_text
  read_over [] p = ([], none)
  read_over (v ∷ vs) p = over_text (read_over vs) (into p v)

  abbrev bbolt_view : Iter Item P → Peers P
  bbolt_view i = read_over (item_texts i.rest) i.last

  abbrev BboltNexts : Iter Item P → Type 0
  BboltNexts = Nexts (bbolt_iterator into) bbolt_view (λ i. length i.rest) (λ i. i.last_err ≡ none)

  abbrev bbolt_at : List Item → P → Iter Item P
  bbolt_at r p = record { rest = r; last_err = none; last = p }

  bbolt_step : (r : List Item) (p : P) → BboltNexts (bbolt_at r p)
  unfolding bbolt_iterator bbolt_next read_over item_texts stop
  bbolt_step [] p = ends (bbolt_at [] p) none refl refl refl
  bbolt_step ((k, none) ∷ r) p = ends (bbolt_at r p) none refl refl refl
  bbolt_step ((k, some v) ∷ r) p = elim (Bool-cases (has_prefix k peer_key_prefix)) [
    | inr e ↦ skip _ _ _ _ _ (bbolt_at r p) (rw e refl) (rw e refl) (omega arith) (bbolt_step r p)
    | inl e ↦ elim (Read-cases (into p v)) [
      | inl (q, d) ↦
          gives (bbolt_at r q) q (bbolt_view (bbolt_at r q)).0 (bbolt_view (bbolt_at r q)).1
            (rw (e, d) refl) (rw (e, d) refl) refl refl (omega arith) refl
      | inr (inl (q, d)) ↦
          skip _ _ _ _ _ (bbolt_at r q) (rw (e, d) refl) (rw (e, d) refl) (omega arith)
            (bbolt_step r q)
      | inr (inr (q, d)) ↦
          ends (record { rest = r; last_err = some unmarshal_failed; last = q })
            (some unmarshal_failed) (rw (e, d) refl) (rw (e, d) refl) refl
    ]
  ]

  -- On bbolt, ForEach ends behind at most one turn for each entry of the cursor, and calls the
  -- callback, until the callback fails, on the peers that the texts of the entries with the
  -- prefix are read as in their order, each into what the one before it has left in the
  -- iterator's peer. Outdated data is passed over, data that cannot be read ends the loop with
  -- its error, and an entry without a value ends it.
  pub for_each-bbolt_peers :
      {W : Type 0} (cb : P → W → W × Option ℕ) (r : List Item) (p : P) (w : W)
      → for_each
          (bbolt_iterator into)
          cb
          (suc (length r))
          (record { rest = r; last_err = none; last = p })
          w
        ≡ some (over cb (read_over (item_texts r) p).0 (read_over (item_texts r) p).1 w)
  for_each-bbolt_peers cb r p w =
      for_each-over (bbolt_iterator into) bbolt_view (λ i. length i.rest) (λ i. i.last_err ≡ none)
        cb
        (λ i e.
          subst (λ x. BboltNexts (record { rest = i.rest; last_err = x; last = i.last })) (sym e)
            (bbolt_step i.rest i.last))
        (suc (length r)) (bbolt_at r p) w refl (omega arith)
