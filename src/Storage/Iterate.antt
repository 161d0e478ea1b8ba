-- ===== src/Storage/Iterate.antt =====
-- The iterators of pebble/peer_storage.go, bbolt/peer_storage.go and redis/peer_storage.go, and
-- `ForEach` of storage/find.go.
-- What the cursor of a database still has to give is a parameter: the entries in its order. For
-- pebble these are the ones within the bounds of Prefix; for bbolt the ones from the first key that
-- is not below the prefix on, which is where `Seek` and `Prev` lead when a key stands before it.
pub mod Loops
pub mod Backends
pub mod Strict
use tgcontrib.Base.{
  ℕ, zero, suc, Bool, true, false, List, [], ◌∷◌, ◌++◌, Option, none, some, if◌then◌else◌, Bytes,
}
use tgcontrib.Base.Text.{codes, has_prefix}
use tgcontrib.Storage.Key.{peer_key_prefix}
use tgcontrib.Storage.Store.{
  Error, no_bucket, unmarshal_failed, outdated, database, Result, ok, err, Found, found, missing,
  broken,
}

-- How `json.Unmarshal` into a peer ends; `must_invalidate` wraps ErrPeerUnmarshalMustInvalidate.
pub data Ending : Type 0 where
  read must_invalidate malformed : Ending

-- `PeerIterator`, on its state `I`
pub record PeerIterator (I P : Type 0) : Type 0 where
  pub next : I → I × Bool
  -- no error, or the errors that are joined
  pub err : I → List Error
  pub value : I → P

pub data Failure : Type 0 where
  callback_failed : ℕ → Failure
  iterator_failed : Error → List Error → Failure

abbrev pub Failed : Type 0
Failed = Option Failure

abbrev pub fail_of : List Error → Failed
fail_of [] = none
fail_of (e ∷ es) = some (iterator_failed e es)

abbrev pub errors : Option Error → List Error
errors none = []
errors (some e) = e ∷ []

module _ {I P W : Type 0} (iterator : PeerIterator I P) (cb : P → W → W × Option ℕ) where
  pub after_call : (I → W → Option (W × Failed)) → I → W × Option ℕ → Option (W × Failed)
  after_call again i (w, none) = again i w
  after_call again i (w, some e) = some (w, some (callback_failed e))

  pub turn : (I → W → Option (W × Failed)) → W → I × Bool → Option (W × Failed)
  unfolding after_call
  turn again w (i, false) = some (w, fail_of (iterator.err i))
  turn again w (i, true) = after_call again i (cb (iterator.value i) w)

  -- `ForEach`; `none` means that the fuel ran out. `w` is what the callback keeps.
  unfoldable pub for_each : ℕ → I → W → Option (W × Failed)
  unfolding turn
  for_each zero i w = none
  for_each (suc f) i w = turn (for_each f) w (iterator.next i)

-- The state of an iterator: `rest` is what the cursor has still to give.
pub record Iter (E P : Type 0) : Type 0 where
  pub rest : List E
  pub last_err : Option Error
  pub last : P

-- The state of the iterator of redis: the keys that the scan has still to give, and whether it has
-- ended.
pub record Scan (P : Type 0) : Type 0 where
  pub keys : List Bytes
  pub ended : Bool
  pub failed : Option Error
  pub peer : P

abbrev pub Entry : Type 0
Entry = Bytes × Bytes

-- In bbolt a nested bucket is an entry without a value.
abbrev pub Item : Type 0
Item = Bytes × Option Bytes

module _ {P : Type 0} (into : P → Bytes → P × Ending) where
  pub stop : {E : Type 0} → List E → P → Error → Iter E P × Bool
  stop r p e = (record { rest = r; last_err = some e; last = p }, false)

  -- the end of `Next` of pebble at a key with the prefix: the cursor moves on if the peer is read
  pub pebble_read : Entry → List Entry → Option Error → P × Ending → Iter Entry P × Bool
  unfolding stop
  pebble_read x r e (p, read) = (record { rest = r; last_err = e; last = p }, true)
  pebble_read x r e (p, must_invalidate) = stop (x ∷ r) p outdated
  pebble_read x r e (p, malformed) = stop (x ∷ r) p unmarshal_failed

  pub pebble_next : List Entry → Option Error → P → Iter Entry P × Bool
  unfolding pebble_read
  pebble_next [] e p = (record { rest = []; last_err = e; last = p }, false)
  pebble_next ((k, v) ∷ r) e p =
      let skipped = pebble_next r e p in
      if has_prefix k peer_key_prefix then pebble_read (k, v) r e (into p v) else skipped

  unfoldable pub pebble_iterator : PeerIterator (Iter Entry P) P
  unfolding pebble_next
  pebble_iterator = record {
    next = λ i. pebble_next i.rest i.last_err i.last;
    err = λ i. errors i.last_err;
    value = λ i. i.last;
  }

  -- the end of `Next` of bbolt: `again` is the jump to its start
  pub bbolt_read :
      (P → Iter Item P × Bool) → List Item → Option Error → P × Ending → Iter Item P × Bool
  unfolding stop
  bbolt_read again r e (p, read) = (record { rest = r; last_err = e; last = p }, true)
  bbolt_read again r e (p, must_invalidate) = again p
  bbolt_read again r e (p, malformed) = stop r p unmarshal_failed

  pub bbolt_next : List Item → Option Error → P → Iter Item P × Bool
  unfolding bbolt_read
  bbolt_next [] e p = (record { rest = []; last_err = e; last = p }, false)
  bbolt_next ((k, none) ∷ r) e p = (record { rest = r; last_err = e; last = p }, false)
  bbolt_next ((k, some v) ∷ r) e p =
      let skipped = bbolt_next r e p in
      if has_prefix k peer_key_prefix then bbolt_read (bbolt_next r e) r e (into p v) else skipped

  unfoldable pub bbolt_iterator : PeerIterator (Iter Item P) P
  unfolding bbolt_next
  bbolt_iterator = record {
    next = λ i. bbolt_next i.rest i.last_err i.last;
    err = λ i. errors i.last_err;
    value = λ i. i.last;
  }

  -- `Iterate` of bbolt. `begin` is a read transaction or its error, `bucket` its bucket, and
  -- `cursor` what a cursor of the bucket gives behind `Seek` to the prefix and `Prev`; `fresh` is
  -- the zero peer.
  unfoldable pub bbolt_iterate :
      {D B : Type 0}
      → (D → Option ℕ)
      → (D → Option B)
      → (B → Bytes → List Item)
      → P
      → D
      → Result (Iter Item P)
  bbolt_iterate begin bucket cursor fresh d = elim (begin d) [
    | some e ↦ err (database e)
    | none ↦ elim (bucket d) [
      | none ↦ err no_bucket
      | some b ↦ ok (record { rest = cursor b peer_key_prefix; last_err = none; last = fresh })
    ]
  ]

  -- `Iterate` of pebble: `scan` is what an iterator of a snapshot gives within the bounds of the
  -- prefix, or its error.
  unfoldable pub pebble_iterate :
      {D : Type 0} → (D → Bytes → Result (List Entry)) → P → D → Result (Iter Entry P)
  pebble_iterate scan fresh d = elim (scan d peer_key_prefix) [
    | err e ↦ err e
    | ok l ↦ ok (record { rest = l; last_err = none; last = fresh })
  ]

  -- redis: the scan gives keys, and `get` reads their values; `nil` is the error of a key that is
  -- gone, and `scan_err` the error that ends the scan.
  module _ (get : Bytes → Found) (nil : ℕ) (scan_err : Option ℕ) where
    pub redis_stop : List Bytes → P → Error → Scan P × Bool
    redis_stop r p e = (record { keys = r; ended = false; failed = some e; peer = p }, false)

    pub redis_read : List Bytes → Option Error → P × Ending → Scan P × Bool
    unfolding redis_stop
    redis_read r e (p, read) = (record { keys = r; ended = false; failed = e; peer = p }, true)
    redis_read r e (p, must_invalidate) = redis_stop r p outdated
    redis_read r e (p, malformed) = redis_stop r p unmarshal_failed

    pub redis_got : List Bytes → Option Error → P → Found → Scan P × Bool
    unfolding redis_stop redis_read
    redis_got r e p missing = redis_stop r p (database nil)
    redis_got r e p (broken x) = redis_stop r p (database x)
    redis_got r e p (found v) = redis_read r e (into p v)

    pub redis_next : List Bytes → Option Error → P → Scan P × Bool
    unfolding redis_got
    redis_next [] e p = (record { keys = []; ended = true; failed = e; peer = p }, false)
    redis_next (k ∷ r) e p = redis_got r e p (get k)

    -- the error of the scan shows once it has ended
    pub scan_errors : Bool → Option ℕ → List Error
    scan_errors true (some x) = database x ∷ []
    scan_errors _ _ = []

    unfoldable pub redis_iterator : PeerIterator (Scan P) P
    unfolding redis_next scan_errors
    redis_iterator = record {
      next = λ i. redis_next i.keys i.failed i.peer;
      err = λ i. errors i.failed ++ scan_errors i.ended scan_err;
      value = λ i. i.peer;
    }
