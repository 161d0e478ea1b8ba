-- ===== src/Tests/Trees.antt =====
-- A tree of buckets in memory, two levels deep, for the tests of the updates state.
use tgcontrib.Base.{
  ℕ, ◌≡◌, inl, inr, refl, sym, ap, ◌∙◌, Bool, true, false, ◌&&◌, ◌||◌, List, [], ◌∷◌, Option, none,
  some, if◌then◌else◌, Bool-cases, Bytes,
}
use mathlib.Core.Logic.Or
use mathlib.Core.HLevel.{⊥_prop}
use native.Mathlib.Decide.{ℕ_discrete}
use mathlib.Core.List.{
  Mem, Mem-prop, mem-cons_self, mem-cons_of_mem, mem-cast, not-mem-nil, eq-or-mem_of_mem-cons,
}
use tgcontrib.Base.Text.{equal, equal_iff}
use tgcontrib.Storage.Bbolt.{Tried, done, refused}
use tgcontrib.State.Tree.{Place, equal_place, Distinct}

abbrev pub Entries : Type 0
Entries = List (Bytes × Bytes)

abbrev pub find : Bytes → Entries → Option Bytes
find k [] = none
find k ((j, v) ∷ es) = if equal j k then some v else find k es

abbrev drop_key : Bytes → Entries → Entries
drop_key k [] = []
drop_key k ((j, v) ∷ es) = if equal j k then drop_key k es else (j, v) ∷ drop_key k es

abbrev pub dedup : Entries → Entries
dedup [] = []
dedup ((k, v) ∷ es) = (k, v) ∷ drop_key k (dedup es)

equal_self : (s : Bytes) → equal s s ≡ true
equal_self s = (equal_iff s s).1 refl

equal_sym_false : (s t : Bytes) → equal s t ≡ false → equal t s ≡ false
equal_sym_false s t h = elim (Bool-cases (equal t s)) [
  | inr e ↦ e
  | inl e ↦ cc (rw (← (equal_iff t s).0 e, equal_self t) at h)
]

Mem-drop_key : (k j v : Bytes) (es : Entries) → Mem (j, v) (drop_key k es) → equal j k ≡ true → ⊥
Mem-drop_key k j v [] m e = not-mem-nil m
Mem-drop_key k j v ((i, w) ∷ es) m e = elim (Bool-cases (equal i k)) [
  | inl f ↦ Mem-drop_key k j v es (rw f at m) e
  | inr f ↦
      Or.elim ⊥_prop (eq-or-mem_of_mem-cons (rw f at m))
        (λ same. cc (f, e, ap (λ x. equal x.0 k) same)) (λ m'. Mem-drop_key k j v es m' e)
]

Mem-undropped : (k j v : Bytes) (es : Entries) → Mem (j, v) (drop_key k es) → Mem (j, v) es
Mem-undropped k j v [] m = m
Mem-undropped k j v ((i, w) ∷ es) m = elim (Bool-cases (equal i k)) [
  | inl f ↦ mem-cons_of_mem _ (Mem-undropped k j v es (rw f at m))
  | inr f ↦
      Or.elim Mem-prop (eq-or-mem_of_mem-cons (rw f at m)) (λ same. mem-cast same mem-cons_self)
        (λ m'. mem-cons_of_mem _ (Mem-undropped k j v es m'))
]

Mem-kept :
    (k j v : Bytes) (es : Entries) → equal j k ≡ false → Mem (j, v) es → Mem (j, v) (drop_key k es)
Mem-kept k j v [] n m = m
Mem-kept k j v ((i, w) ∷ es) n m =
    Or.elim Mem-prop (eq-or-mem_of_mem-cons m)
      (λ same.
        let e : equal i k ≡ false = ap (λ x. equal x.0 k) (sym same) ∙ n in
        rw e (mem-cast same mem-cons_self))
      (λ m'. elim (Bool-cases (equal i k)) [
        | inl f ↦ rw f (Mem-kept k j v es n m')
        | inr f ↦ rw f (mem-cons_of_mem _ (Mem-kept k j v es n m'))
      ])

drop_key-Distinct : (k : Bytes) (es : Entries) → Distinct es → Distinct (drop_key k es)
drop_key-Distinct k [] h = h
drop_key-Distinct k ((j, v) ∷ es) (h, r) = elim (Bool-cases (equal j k)) [
  | inl e ↦ rw e (drop_key-Distinct k es r)
  | inr e ↦ rw e ((λ w m. h w (Mem-undropped k j w es m)), drop_key-Distinct k es r)
]

pub dedup-Distinct : (es : Entries) → Distinct (dedup es)
dedup-Distinct [] = tt
dedup-Distinct ((k, v) ∷ es) = (
  λ w m. Mem-drop_key k k w (dedup es) m (equal_self k),
  drop_key-Distinct k (dedup es) (dedup-Distinct es),
)

pub find-dedup : (k v : Bytes) (es : Entries) → find k es ≡ some v → Mem (k, v) (dedup es)
find-dedup k v [] h = cc
find-dedup k v ((j, w) ∷ es) h = elim (Bool-cases (equal j k)) [
  | inl e ↦
      let same : (k, v) ≡ (j, w) = cc ((equal_iff j k).0 e, rw e at h) in
      mem-cast same mem-cons_self
  | inr e ↦
      mem-cons_of_mem _
        (Mem-kept j k v (dedup es) (equal_sym_false j k e) (find-dedup k v es (rw e at h)))
]

option_set : IsSet (Option Bytes)
option_set = hlevel ℕ_discrete

pub dedup-find : (k v : Bytes) (es : Entries) → Mem (k, v) (dedup es) → find k es ≡ some v
dedup-find k v [] m = absurd (not-mem-nil m)
dedup-find k v ((j, w) ∷ es) m = elim (Bool-cases (equal j k)) [
  | inl e ↦
      Or.elim (option_set _ _) (eq-or-mem_of_mem-cons m)
        (λ same. rw e (ap (λ x. some x.1) (sym same)))
        (λ m'.
          absurd (Mem-drop_key j k v (dedup es) m' (rw (← (equal_iff j k).0 e) (equal_self j))))
  | inr e ↦
      Or.elim (option_set _ _) (eq-or-mem_of_mem-cons m)
        (λ same. cc (e, ap (λ x. equal j x.0) same, equal_self j))
        (λ m'. rw e (dedup-find k v es (Mem-undropped j k v (dedup es) m')))
]

pub record Buckets : Type 0 where
  pub users : Bytes → Bool
  pub subs : Bytes → Bytes → Bool
  pub vals : Place → Entries

abbrev pub there : Buckets → Place → Bool
there t [] = true
there t (u ∷ []) = t.users u
there t (u ∷ n ∷ []) = t.users u && t.subs u n
there t (u ∷ n ∷ m ∷ p) = false

pub done_injective : {a b : Buckets} → done a ≡ done b → a ≡ b
done_injective h = cc

pub refused-ne-done : {e : ℕ} {b : Buckets} → refused e ≡ done b → ⊥
refused-ne-done h = cc

abbrev pub vals_of : Buckets → Place → Entries
vals_of t p = if there t p then t.vals p else []

abbrev pub add_user : Buckets → Bytes → Buckets
add_user t n = record {
  users = λ u. equal n u || t.users u;
  subs = λ u m. t.users u && t.subs u m;
  vals = vals_of t;
}

abbrev pub add_sub : Buckets → Bytes → Bytes → Buckets
add_sub t u n = record {
  users = t.users;
  subs = λ v m. (equal u v && equal n m) || t.subs v m;
  vals = vals_of t;
}

abbrev pub add_bucket : Buckets → Place → Bytes → Tried Buckets
add_bucket t [] n = done (add_user t n)
add_bucket t (u ∷ []) n = if t.users u then done (add_sub t u n) else refused 1
add_bucket t (u ∷ m ∷ p) n = refused 2

abbrev pub with_value : Buckets → Place → Bytes → Bytes → Buckets
with_value t p k v = record {
  users = t.users;
  subs = t.subs;
  vals = λ q. if equal_place p q then (k, v) ∷ t.vals q else t.vals q;
}

abbrev pub put_value : Buckets → Place → Bytes → Bytes → Tried Buckets
put_value t p k v = if there t p then done (with_value t p k v) else refused 3
