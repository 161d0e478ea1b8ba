-- ===== src/State/Ops/Channels.antt =====
-- bbolt/state_storage.go: `ForEachChannels` against `GetChannelPts`.
use tgcontrib.Base.{
  ◌≡◌, ◌↔◌, inl, inr, refl, sym, ap, ◌∙◌, true, false, List, [], ◌∷◌, map, none, some, Bool,
  Option-cases, if◌then◌else◌, Bytes,
}
use mathlib.Core.List.{Mem, mem-map_of_mem}
use mathlib.Core.Path.{subst}
use tgcontrib.Base.Int.{ℤ}
use tgcontrib.Base.Decimal.{IsInt64}
use tgcontrib.State.Words.{i2b, i642b, i2b-cons}
use tgcontrib.State.Tree.{Place, equal_place, Tree, IsTree, Distinct}
use tgcontrib.State.Ops.{
  Got, value, absent, state_place, pts_name, qts_name, date_name, seq_name, channels_place,
  read_pts, state_at, pts_at,
}
use tgcontrib.State.Ops.Views.{IsInt, IsKey, IsStates, Wrote, state_at-read_state, pts_at-read_pts}
use tgcontrib.State.Ops.Fields.{read_pts-i2b}
use tgcontrib.State.Ops.Each.{
  entry, AllInts, OncePerChannel, entries-map, Distinct-OncePerChannel, Mem-AllInts, Mem-entry,
}

-- The list holds each channel that has a pts, with it, and once.
pub record Lists (l : List (ℤ × ℤ)) (pts : ℤ → Got ℤ) : Type 0 where
  pub once : OncePerChannel l
  pub exact : (c n : ℤ) → IsInt64 c → Mem (c, n) l ↔ (pts c ≡ value n)

absent-ne-value : {n : ℤ} → absent ≡ value n → ⊥
absent-ne-value h = cc

value_injective : {m n : ℤ} → value m ≡ value n → m ≡ n
value_injective h = cc

if_same : {A : Type 0} (b : Bool) (x : A) → (if b then x else x) ≡ x
if_same true x = refl
if_same false x = refl

module _ {D T : Type 0} (tree : Tree D T) (content : D → T) (laws : IsTree tree content) where
  -- An entry of the channels is a number under a channel.
  keyed_entry :
      (t : T) (u : ℤ) (k v : Bytes)
      → IsStates tree t
      → Mem (k, v) (tree.entries t (channels_place u))
      → IsKey k × IsInt v
  keyed_entry t u k [] i m = elim (laws.visits_nil t (channels_place u) k m) [
    | inl e ↦ i.keyed u k [] e
    | inr e ↦ cc (i.flat u k)
  ]
  keyed_entry t u k (c ∷ v) i m = i.keyed u k (c ∷ v) ((laws.visits t (channels_place u) k c v).1 m)

  -- A number is read where it is an entry.
  entry-get :
      (t : T) (u : ℤ) (k : Bytes) (n : ℤ)
      → (tree.get t (channels_place u) k ≡ some (i2b n))
        ↔ Mem (k, i2b n) (tree.entries t (channels_place u))
  entry-get t u k n = let (c, v, e) = i2b-cons n in rw e (laws.visits t (channels_place u) k c v)

  read_pts-none : {n : ℤ} → read_pts none ≡ value n → ⊥
  unfolding read_pts
  read_pts-none h = absent-ne-value h

  pts-Mem :
      (t : T) (u c n : ℤ) (l : List (ℤ × ℤ))
      → IsStates tree t
      → tree.entries t (channels_place u) ≡ map entry l
      → AllInts l
      → IsInt64 c
      → pts_at tree u c t ≡ value n
      → Mem (c, n) l
  pts-Mem t u c n l i e r hc h =
      let read = sym (pts_at-read_pts tree content laws u c t) ∙ h in
      elim (Option-cases (tree.get t (channels_place u) (i642b c))) [
        | inl g ↦ absurd (read_pts-none (rw g at read))
        | inr (v, g) ↦
            let (key, (m, hm, em)) = i.keyed u (i642b c) v g in
            let same =
              value_injective (sym (read_pts-i2b tree content laws m hm) ∙ (rw (g, em) at read)) in
            let got = (entry-get t u (i642b c) m).0 (g ∙ ap some em) in
            Mem-entry l c n r hc (subst IsInt64 same hm) (
              subst (λ z. Mem (i642b c, i2b z) (map entry l)) same
                (subst (Mem (i642b c, i2b m)) e got))
      ]

  Mem-pts :
      (t : T) (u c n : ℤ) (l : List (ℤ × ℤ))
      → tree.entries t (channels_place u) ≡ map entry l
      → AllInts l
      → Mem (c, n) l
      → pts_at tree u c t ≡ value n
  Mem-pts t u c n l e r m =
      let there = subst (Mem (i642b c, i2b n)) (sym e) (mem-map_of_mem entry m) in
      rw (pts_at-read_pts tree content laws u c t, (entry-get t u (i642b c) n).1 there)
        (read_pts-i2b tree content laws n (Mem-AllInts l c n r m))

  -- The entries of the channels of a user, as channels.
  pub listed :
      (t : T) (u : ℤ)
      → IsStates tree t
      → (l : List (ℤ × ℤ)) × (tree.entries t (channels_place u) ≡ map entry l)
        × AllInts l
        × Lists l (λ c. pts_at tree u c t)
  listed t u i =
      let (l, e, r) =
        entries-map (tree.entries t (channels_place u)) (λ k v. keyed_entry t u k v i) in
      (
        l,
        e,
        r,
        record {
          once = Distinct-OncePerChannel l (subst Distinct e (laws.distinct t (channels_place u)));
          exact = λ c n hc. (Mem-pts t u c n l e r, pts-Mem t u c n l i e r hc);
        },
      )

  pub unwritten :
      (t t' : T) (p : Place) (M : ℤ → Type 0)
      → Wrote tree t t' p [] M
      → ((w : ℤ) → state_at tree w t' ≡ state_at tree w t)
        × ((w c : ℤ) → pts_at tree w c t' ≡ pts_at tree w c t)
  unwritten t t' p M x =
      let same =
        λ (q : Place) (k : Bytes). x.reads q k ∙ if_same (equal_place p q) (tree.get t q k) in
      (
        λ w.
            rw
              (
                state_at-read_state tree content laws w t',
                state_at-read_state tree content laws w t,
                same (state_place w) pts_name,
                same (state_place w) qts_name,
                same (state_place w) date_name,
                same (state_place w) seq_name,
              )
              refl,
        λ w c.
            rw
              (
                pts_at-read_pts tree content laws w c t',
                pts_at-read_pts tree content laws w c t,
                same (channels_place w) (i642b c),
              )
              refl,
      )
