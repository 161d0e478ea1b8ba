-- ===== src/State/Ops/Each.antt =====
-- bbolt/state_storage.go: `ForEachChannels`.
use tgcontrib.Base.{ℕ, ◌≡◌, refl, sym, ap, ◌∙◌, List, [], ◌∷◌, map, Option, none, some, Bytes}
use mathlib.Core.List.{
  Mem, mem-cons_self, mem-cons_of_mem, mem-map_of_mem, mem-cast, Mem-prop, not-mem-nil,
  eq-or-mem_of_mem-cons,
}
use mathlib.Core.Logic.Or
use native.Mathlib.Bridge.{le_prop}
use mathlib.Core.Path.{subst}
use tgcontrib.Base.Int.{ℤ, pos, negsuc}
use tgcontrib.Base.Decimal.{IsInt64}
use tgcontrib.State.Words.{i2b, b2i, i642b, b2i-i2b, b2i64-i642b, i642b_injective, i2b_injective}
use tgcontrib.State.Tree.{Distinct}
use tgcontrib.State.Ops.{Failure, callback, visit, called, after_call}
use tgcontrib.State.Ops.Views.{IsInt, IsKey}

-- `each` on the rest of a list, behind the answer of one call
abbrev pub next : {S : Type 0} → (S → S × Option ℕ) → S × Option ℕ → S × Option ℕ
next rest (s, none) = rest s
next rest (s, some e) = (s, some e)

-- The client's function on a list of channels, stopped by its first error.
unfoldable pub each : {S : Type 0} → (ℤ → ℤ → S → S × Option ℕ) → List (ℤ × ℤ) → S → S × Option ℕ
each f [] s = (s, none)
each f ((c, n) ∷ l) s = next (each f l) (f c n s)

-- An entry of the bucket of channels.
abbrev pub entry : ℤ × ℤ → Bytes × Bytes
entry (c, n) = (i642b c, i2b n)

abbrev pub AllInts : List (ℤ × ℤ) → Type 0
AllInts [] = Unit
AllInts ((c, n) ∷ l) = IsInt64 c × IsInt64 n × AllInts l

-- No channel stands twice in the list.
abbrev pub OncePerChannel : List (ℤ × ℤ) → Type 0
OncePerChannel [] = Unit
OncePerChannel ((c, n) ∷ l) = ((m : ℤ) → ¬ Mem (c, m) l) × OncePerChannel l

visit-some :
    {S : Type 0} (f : ℤ → ℤ → S → S × Option ℕ) (es : List (Bytes × Bytes)) (s : S) (e : Failure)
    → visit f es (s, some e) ≡ (s, some e)
unfolding visit
visit-some f [] s e = refl
visit-some f (x ∷ es) s e = refl

after_step :
    {S : Type 0} (f : ℤ → ℤ → S → S × Option ℕ) (es : List (Bytes × Bytes)) (l : List (ℤ × ℤ))
    → ((s : S) → visit f es (s, none) ≡ after_call (each f l s))
    → (r : S × Option ℕ) → visit f es (after_call r) ≡ after_call (next (each f l) r)
unfolding after_call
after_step f es l ih (s, none) = ih s
after_step f es l ih (s, some e) = visit-some f es s (callback e)

-- The loop over the entries is the loop over the channels that they stand for.
pub visit-each :
    {S : Type 0} (f : ℤ → ℤ → S → S × Option ℕ) (l : List (ℤ × ℤ)) (s : S)
    → AllInts l
    → visit f (map entry l) (s, none) ≡ after_call (each f l s)
unfolding visit called after_call each
visit-each f [] s h = refl
visit-each f ((c, n) ∷ l) s (hc, hn, h) =
    ap (λ x. visit f (map entry l) (called f x (b2i (i2b n)) s)) (b2i64-i642b c hc)
    ∙ ap (λ x. visit f (map entry l) (called f (some c) x s)) (b2i-i2b n hn)
    ∙ after_step f (map entry l) l (λ s'. visit-each f l s' h) (f c n s)

pub entries-map :
    (es : List (Bytes × Bytes))
    → ((k v : Bytes) → Mem (k, v) es → IsKey k × IsInt v)
    → (l : List (ℤ × ℤ)) × (es ≡ map entry l) × AllInts l
entries-map [] h = ([], refl, tt)
entries-map ((k, v) ∷ es) h =
    let ((c, hc, ek), (n, hn, ev)) = h k v mem-cons_self in
    let (l, e, r) = entries-map es (λ j w m. h j w (mem-cons_of_mem _ m)) in
    ((c, n) ∷ l, ap (◌∷◌ (k, v)) e ∙ ap (λ x. x ∷ map entry l) (cc (ek, ev)), (hc, hn, r))

pub Distinct-OncePerChannel : (l : List (ℤ × ℤ)) → Distinct (map entry l) → OncePerChannel l
Distinct-OncePerChannel [] h = tt
Distinct-OncePerChannel ((c, n) ∷ l) (h, r) =
    (λ m at. h (i2b m) (mem-map_of_mem entry at), Distinct-OncePerChannel l r)

IsInt64-prop : (n : ℤ) → IsProp (IsInt64 n)
IsInt64-prop (pos n) = le_prop
IsInt64-prop (negsuc n) = le_prop

pub Mem-AllInts : (l : List (ℤ × ℤ)) (c n : ℤ) → AllInts l → Mem (c, n) l → IsInt64 n
Mem-AllInts [] c n h m = absurd (not-mem-nil m)
Mem-AllInts ((b, k) ∷ l) c n (hb, hk, h) m =
    Or.elim (IsInt64-prop n) (eq-or-mem_of_mem-cons m)
      (λ e. subst IsInt64 (sym (ap (λ x. x.1) e)) hk) (λ m'. Mem-AllInts l c n h m')

pub Mem-entry :
    (l : List (ℤ × ℤ)) (c n : ℤ)
    → AllInts l
    → IsInt64 c
    → IsInt64 n
    → Mem (i642b c, i2b n) (map entry l)
    → Mem (c, n) l
Mem-entry [] c n h hc hn m = absurd (not-mem-nil m)
Mem-entry ((b, k) ∷ l) c n (hb, hk, h) hc hn m =
    Or.elim Mem-prop (eq-or-mem_of_mem-cons m)
      (λ e.
        let same = i642b_injective c b hc hb (ap (λ x. x.0) e) in
        let value = i2b_injective n k hn hk (ap (λ x. x.1) e) in
        mem-cast (rw (same, value) refl) mem-cons_self)
      (λ m'. mem-cons_of_mem _ (Mem-entry l c n h hc hn m'))
