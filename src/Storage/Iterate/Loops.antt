-- ===== src/Storage/Iterate/Loops.antt =====
-- pebble/peer_storage.go, bbolt/peer_storage.go, redis/peer_storage.go: `ForEach` over the iterators.
use tgcontrib.Base.{
  ℕ, zero, suc, ◌<◌, ◌≡◌, refl, ap, ◌∙◌, true, false, List, [], ◌∷◌, Option, none, some, arith,
}
use tgcontrib.Storage.Store.{Error}
use tgcontrib.Storage.Iterate.{
  PeerIterator, Failed, after_call, turn, callback_failed, fail_of, for_each, errors,
}

-- What an iteration gives: the peers in their order, and the error at its end.
abbrev pub Peers : Type 0 → Type 0
Peers P = List P × Option Error

abbrev pub cons_peer : {P : Type 0} → P → Peers P → Peers P
cons_peer p (l, e) = (p ∷ l, e)

abbrev over_next : {W : Type 0} → (W → W × Failed) → W × Option ℕ → W × Failed
over_next again (w, none) = again w
over_next again (w, some e) = (w, some (callback_failed e))

-- The callback on a list of peers, and what `ForEach` returns then.
unfoldable pub over :
    {P W : Type 0} → (P → W → W × Option ℕ) → List P → Option Error → W → W × Failed
over cb [] e w = (w, fail_of (errors e))
over cb (p ∷ l) e w = over_next (over cb l e) (cb p w)

-- What a call of `Next` does, for an iterator of which `view` says what it has still to give: it
-- gives the first peer, or ends with the error.
pub data Nexts {I P : Type 0} (iterator : PeerIterator I P) (view : I → Peers P) (size : I → ℕ)
    (Fine : I → Type 0) (i : I) : Type 0 where
  gives :
      (i' : I) (p : P) (l : List P) (x : Option Error)
      → iterator.next i ≡ (i', true)
      → view i ≡ (p ∷ l, x)
      → view i' ≡ (l, x)
      → iterator.value i' ≡ p
      → size i' < size i
      → Fine i'
      → Nexts iterator view size Fine i
  ends :
      (i' : I) (x : Option Error)
      → iterator.next i ≡ (i', false)
      → view i ≡ ([], x)
      → iterator.err i' ≡ errors x
      → Nexts iterator view size Fine i

module _ {I P W : Type 0} (iterator : PeerIterator I P) (view : I → Peers P) (size : I → ℕ)
    (Fine : I → Type 0) (cb : P → W → W × Option ℕ) where
  next_over :
      (again : I → W → Option (W × Failed)) (l : List P) (x : Option Error) (i : I)
      → ((w : W) → again i w ≡ some (over cb l x w))
      → (r : W × Option ℕ) → after_call iterator cb again i r ≡ some (over_next (over cb l x) r)
  unfolding after_call
  next_over again l x i h (w, none) = h w
  next_over again l x i h (w, some e) = refl

  -- `ForEach` ends, and calls the callback on the peers of the view in their order.
  pub for_each-over :
      ((i : I) → Fine i → Nexts iterator view size Fine i)
      → (f : ℕ) (i : I) (w : W) → Fine i
      → size i < f
      → for_each iterator cb f i w ≡ some (over cb (view i).0 (view i).1 w)
  unfolding for_each turn over
  for_each-over step zero i w fine h = absurd (omega arith)
  for_each-over step (suc f) i w fine h = elim (step i fine) [
    | ends i' x n v e ↦ ap (turn iterator cb (for_each iterator cb f) w) n ∙ rw (v, e) refl
    | gives i' p l x n v v' val lt fine' ↦
        let rest : (w' : W) → for_each iterator cb f i' w' ≡ some (over cb l x w') = λ w'.
          for_each-over step f i' w' fine' (omega arith)
          ∙ ap (λ (z : Peers P). some (over cb z.0 z.1 w')) v' in
        ap (turn iterator cb (for_each iterator cb f) w) n
        ∙ rw (v, val) (next_over (for_each iterator cb f) l x i' rest (cb p w))
  ]
