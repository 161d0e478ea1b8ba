-- ===== src/Storage/Written.antt =====
-- The reads behind a batch that stores a peer, for pebble, redis and bbolt.
use tgcontrib.Base.{
  ◌≡◌, ◌≢◌, refl, ◌∙◌, Bool-cases, inl, inr, true, false, List, [], ◌∷◌, ◌++◌, map, some, Bytes,
}
use tgcontrib.Base.Text.{equal, equal_iff}
use tgcontrib.Storage.Key.{bytes}
use tgcontrib.Storage.Store.{Codec, Found, found, Batch, entries, written}

-- None of the keys is `k`.
abbrev pub Absent : Bytes → List Bytes → Type 0
Absent k [] = Unit
Absent k (j ∷ ks) = (j ≢ k) × Absent k ks

pub Absent-concat :
    (k : Bytes) (ks : List Bytes) (j : Bytes) → Absent k ks → j ≢ k → Absent k (ks ++ j ∷ [])
Absent-concat k [] j h n = (n, tt)
Absent-concat k (i ∷ ks) j h n = (h.0, Absent-concat k ks j h.1 n)

pub equal_self : (s : Bytes) → equal s s ≡ true
equal_self s = (equal_iff s s).1 refl

equal-ne : (s t : Bytes) → s ≢ t → equal s t ≡ false
equal-ne s t n = elim (Bool-cases (equal s t)) [
  | inl e ↦ absurd (n ((equal_iff s t).0 e))
  | inr e ↦ e
]

abbrev links : Bytes → List Bytes → Batch
links id ks = map (λ k. (k, id)) ks

links-Absent :
    (id k : Bytes) (ks : List Bytes) (g : Found) → Absent k ks → written (links id ks) k g ≡ g
links-Absent id k [] g h = refl
links-Absent id k (j ∷ ks) g h = rw (equal-ne j k h.0, written) (links-Absent id k ks g h.1)

links_keep : (id k : Bytes) (ks : List Bytes) → written (links id ks) k (found id) ≡ found id
links_keep id k [] = refl
links_keep id k (j ∷ ks) = elim (Bool-cases (equal j k)) [
  | inl e ↦ rw (e, written) (links_keep id k ks)
  | inr e ↦ rw (e, written) (links_keep id k ks)
]

links-append :
    (id k : Bytes) (front back : List Bytes) (g : Found)
    → written (links id (front ++ k ∷ back)) k g ≡ found id
links-append id k [] back g = rw (equal_self k, written) (links_keep id k back)
links-append id k (j ∷ front) back g = links-append id k front back _

-- The id reads its data, where no associated key is the id.
pub entries_id :
    (id text : Bytes) (ks : List Bytes) (g : Found)
    → Absent id ks
    → written (entries id text ks) id g ≡ found text
entries_id id text ks g h = rw (equal_self id, written) (links-Absent id id ks (found text) h)

-- An associated key reads the id.
pub entries_link :
    (id text k : Bytes) (front back : List Bytes) (g : Found)
    → written (entries id text (front ++ k ∷ back)) k g ≡ found id
entries_link id text k front back g = links-append id k front back _

-- Every other key reads what it did.
pub entries-Absent :
    (id text k : Bytes) (ks : List Bytes) (g : Found)
    → id ≢ k
    → Absent k ks
    → written (entries id text ks) k g ≡ g
entries-Absent id text k ks g n h = rw (equal-ne id k n, written) (links-Absent id k ks g h)

module _ {P : Type 0} (codec : Codec P) where
  abbrev pub id_of : P → Bytes
  id_of p = bytes (codec.key p) []

  -- Reads before and after a peer is stored with its associated keys.
  pub record Stored (ks : List Bytes) (p : P) (before after : Bytes → Found) : Type 0 where
    pub text : Bytes
    pub marshaled : codec.marshal p ≡ some text
    pub reads : (k : Bytes) → after k ≡ written (entries (id_of p) text ks) k (before k)

  pub Stored-id :
      (ks : List Bytes) (p : P) (before after : Bytes → Found) (s : Stored ks p before after)
      → Absent (id_of p) ks
      → after (id_of p) ≡ found s.text
  Stored-id ks p before after s a =
      s.reads (id_of p) ∙ entries_id (id_of p) s.text ks (before (id_of p)) a

  pub Stored-link :
      (front back : List Bytes) (k : Bytes) (p : P) (before after : Bytes → Found)
      → Stored (front ++ k ∷ back) p before after
      → after k ≡ found (id_of p)
  Stored-link front back k p before after s =
      s.reads k ∙ entries_link (id_of p) s.text k front back (before k)

  pub Stored-other :
      (ks : List Bytes) (k : Bytes) (p : P) (before after : Bytes → Found)
      → Stored ks p before after
      → id_of p ≢ k
      → Absent k ks
      → after k ≡ before k
  Stored-other ks k p before after s n a =
      s.reads k ∙ entries-Absent (id_of p) s.text k ks (before k) n a
