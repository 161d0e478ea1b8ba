-- ===== src/Flood/Heap/Ops.antt =====
-- `Push`, `Pop` and `Init` on a heap.
use mathlib.Core.List.{Perm, Mem, perm_middle, append-nil, mem-cons, not-mem-nil}
use mathlib.Core.List.Perm
use mathlib.Core.Logic.Or
use native.Mathlib.Bridge.{le_prop}
use tgcontrib.Base.{
  ℕ, zero, suc, ◌-◌, ◌≤◌, ◌<◌, ◌≡◌, ◌∙◌, sym, ap, refl, List, [], ◌∷◌, ◌++◌, some, arith, length,
  get_elem?, length-append,
}
use tgcontrib.Flood.Heap.{parent, swap, key_at, key_of, down, init, push, pop, split_last}
use tgcontrib.Flood.Heap.Swap.{length-swap, get_elem?-swap, swap-perm}
use tgcontrib.Flood.Heap.Up.{key_at-swap, IsHeap, up-Mends}
use tgcontrib.Flood.Heap.Down.{Mended, Sinks, down-Mended, init-Mended}

module _ {ℓ} {A : Type ℓ} where
  concat-perm : (a : List A) (x : A) → Perm (a ++ x ∷ []) (x ∷ a)
  concat-perm a x = rw (append-nil a) at (perm_middle {a = x} a [])

  get_elem?-append : (a b : List A) (i : ℕ) → i < length a → get_elem? (a ++ b) i ≡ get_elem? a i
  get_elem?-append [] b i h = absurd (omega arith)
  get_elem?-append (x ∷ a) b zero h = refl
  get_elem?-append (x ∷ a) b (suc i) h = get_elem?-append a b i (omega arith)

  get_elem?-last : (a : List A) (x : A) → get_elem? (a ++ x ∷ []) (length a) ≡ some x
  get_elem?-last [] x = refl
  get_elem?-last (y ∷ a) x = get_elem?-last a x

  split_last-append :
      (x : A) (a : List A)
      → (b : List A) × (z : A) × (split_last (x ∷ a) ≡ some (b, z)) × (b ++ z ∷ [] ≡ x ∷ a)
  unfolding split_last
  split_last-append x [] = ([], x, refl, refl)
  split_last-append x (y ∷ a) =
      let (b, z, e, h) = split_last-append y a in (x ∷ b, z, rw (e, split_last), ap (◌∷◌ x) h)

  split_last-pos :
      (a : List A)
      → 0 < length a
      → (b : List A) × (z : A) × (split_last a ≡ some (b, z)) × (b ++ z ∷ [] ≡ a)
  split_last-pos [] h = absurd (omega arith)
  split_last-pos (x ∷ a) h = split_last-append x a

module _ {ℓ} {A : Type ℓ} (key : A → ℕ) where
  -- `Push` keeps the heap, and adds one entry.
  pub push-IsHeap :
      (a : List A) (x : A) → IsHeap key a → IsHeap key (push key a x) × Perm (push key a x) (x ∷ a)
  unfolding push
  push-IsHeap a x h =
      let b = a ++ x ∷ [] in
      let size = length-append a (x ∷ []) in
      let (ordered, same) = up-Mends key (length b) b (length b - 1) (omega (arith, size)) (record {
        inside = omega (arith, size);
        others = λ c p q t. ground (
          arith,
          size,
          h c,
          get_elem?-append a (x ∷ []) c,
          get_elem?-append a (x ∷ []) (parent c),
        );
        across = λ c p q t u. absurd (omega (arith, size));
      }) in
      (ordered, Perm.trans same (concat-perm a x))

  root_least_below :
      (f : ℕ) (a : List A) (i : ℕ)
      → IsHeap key a
      → i < f
      → i < length a
      → key_at key a 0 ≤ key_at key a i
  root_least_below zero a i h p q = absurd (omega arith)
  root_least_below (suc f) a zero h p q = omega arith
  root_least_below (suc f) a (suc i) h p q = omega (
    arith,
    h (suc i) (omega arith) q (omega arith),
    root_least_below f a (parent (suc i)) h (omega arith) (omega arith),
  )

  -- No entry is below `m`.
  abbrev pub AtLeast : ℕ → List A → Type ℓ
  AtLeast m l = (y : A) → Mem y l → m ≤ key y

  AtLeast-of_index :
      (m : ℕ) (l : List A) → ((i : ℕ) → i < length l → m ≤ key_at key l i) → AtLeast m l
  AtLeast-of_index m [] h y t = absurd (not-mem-nil t)
  AtLeast-of_index m (x ∷ l) h y t =
      Or.elim le_prop (mem-cons.0 t) (λ e. rw e (h 0 (omega arith)))
        (AtLeast-of_index m l (λ i p. h (suc i) (omega arith)) y)

  pub record Popped (a b : List A) (x : A) : Type ℓ where
    pub heap : IsHeap key b
    pub same : Perm (x ∷ b) a
    pub least : AtLeast (key x) a
    pub size : length a ≡ suc (length b)
    pub root : key_at key a 0 ≡ key x

  swapped-Sinks :
      (a : List A)
      → IsHeap key a
      → 0 < length a
      → Sinks key 0 (length a - 1) (swap a 0 (length a - 1)) 0
  swapped-Sinks a h pos =
      let n = length a - 1 in
      let at = λ (c : ℕ). key_at-swap key a 0 n c pos (omega arith) in
      record {
        bound = omega (arith, length-swap a 0 n);
        others = λ c p q l t. ground (arith, at c, at (parent c), h c);
        across = λ c p q e u l. absurd (omega arith);
      }

  -- The entries of a popped heap, once the last one is cut off.
  Popped-split :
      (a d b : List A) (z : A)
      → IsHeap key a
      → 0 < length a
      → Mended key 0 (length a - 1) (swap a 0 (length a - 1)) d
      → b ++ z ∷ [] ≡ d
      → Popped a b z
  Popped-split a d b z h pos m e =
      let n = length a - 1 in
      let last : n < length a = omega arith in
      let size : length b ≡ n =
        omega (arith, ap length e, length-append b (z ∷ []), m.size, length-swap a 0 n) in
      let root : get_elem? a 0 ≡ some z =
        ground (arith, get_elem?-last b z, m.rest n, get_elem?-swap a 0 n pos last n) in
      let at = λ (c : ℕ) (p : c < length b).
        ap (key_of key) (sym (get_elem?-append b (z ∷ []) c p) ∙ ap (λ l. get_elem? l c) e) in
      record {
        heap = λ c p q l. ground (arith, m.ordered c, at c, at (parent c));
        same =
            Perm.trans (Perm.symm (concat-perm b z))
              (rw e (Perm.trans m.same (swap-perm a 0 n pos last)));
        least =
            AtLeast-of_index (key z) a
              (λ i p. rw (← ap (key_of key) root) (root_least_below (suc i) a i h (omega arith) p));
        size = omega (arith, size);
        root = ap (key_of key) root;
      }

  -- `Pop` of a heap with an entry gives an entry of the least key and a heap of all the others.
  pub pop-Popped :
      (a : List A)
      → IsHeap key a
      → 0 < length a
      → (b : List A) × (x : A) × (pop key a ≡ some (b, x)) × Popped a b x
  unfolding pop
  pop-Popped a h pos =
      let n = length a - 1 in
      let s = swap a 0 n in
      let m = down-Mended key (suc n) 0 n s 0 (omega arith) (swapped-Sinks a h pos) in
      let (b, z, e, parts) =
        split_last-pos (down key (suc n) s 0 n) (omega (arith, m.size, length-swap a 0 n)) in
      (b, z, e, Popped-split a _ b z h pos m parts)

  pub init-Mends : (a : List A) → IsHeap key (init key a) × Perm (init key a) a
  init-Mends a = let m = init-Mended key a in (rw m.size m.ordered, m.same)

  pub AtLeast-perm : {l l' : List A} (m : ℕ) → Perm l l' → AtLeast m l' → AtLeast m l
  AtLeast-perm m p h y t = h y ((Perm.mem_iff p).0 t)
