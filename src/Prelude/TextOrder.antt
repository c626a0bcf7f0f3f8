-- ===== src/Prelude/TextOrder.antt =====
-- The order of texts, which is that of their bytes: Go's `<=` on strings.
use Prim.Native.Nat.{ℕ, Ordering, compare as compare_ℕ}
use Prim.Native.Char.{code}
use Prim.Native.String.{String, [], ◌∷◌, compare, then}
use Prim.Native.String.compare.{nil-cons, cons-nil, cons-cons}
use mathlib.Core.Path.{◌≡◌, sym, ◌∙◌}
use mathlib.Core.Bool.{Bool, true, false}
use native.Mathlib.Omega.{arith}
use text.Mathlib.TextEquality.{path_by_compare}
use text.Mathlib.TextPositions.{compare_refl}

then_trans :
    (a b c : ℕ) (o p q : Ordering)
    → (o ≡ Ordering.lt → p ≡ Ordering.lt → q ≡ Ordering.lt)
    → then (compare_ℕ a b) o ≡ Ordering.lt
    → then (compare_ℕ b c) p ≡ Ordering.lt
    → then (compare_ℕ a c) q ≡ Ordering.lt
then_trans a b c o p q f h k = ground arith

then_swap :
    (a b : ℕ) (o q : Ordering)
    → (o ≡ Ordering.gt → q ≡ Ordering.lt)
    → then (compare_ℕ a b) o ≡ Ordering.gt
    → then (compare_ℕ b a) q ≡ Ordering.lt
then_swap a b o q f h = ground arith

then_flip :
    (a b : ℕ) (o q : Ordering)
    → (o ≡ Ordering.lt → q ≡ Ordering.gt)
    → then (compare_ℕ a b) o ≡ Ordering.lt
    → then (compare_ℕ b a) q ≡ Ordering.gt
then_flip a b o q f h = ground arith

lt≢gt : {X : Type 0} → Ordering.lt ≡ Ordering.gt → X
lt≢gt h = cc

gt≢lt : {X : Type 0} → Ordering.gt ≡ Ordering.lt → X
gt≢lt h = cc

pub compare_trans :
    (s t u : String)
    → compare s t ≡ Ordering.lt
    → compare t u ≡ Ordering.lt
    → compare s u ≡ Ordering.lt
compare_trans [] [] u h k = k
compare_trans [] (d ∷ t) [] h k = gt≢lt (sym (cons-nil d t) ∙ k)
compare_trans [] (d ∷ t) (e ∷ u) h k = nil-cons e u
compare_trans (c ∷ s) [] u h k = gt≢lt (sym (cons-nil c s) ∙ h)
compare_trans (c ∷ s) (d ∷ t) [] h k = gt≢lt (sym (cons-nil d t) ∙ k)
compare_trans (c ∷ s) (d ∷ t) (e ∷ u) h k =
    cons-cons c e s u
    ∙ then_trans (code c) (code d) (code e) (compare s t) (compare t u) (compare s u)
        (compare_trans s t u) (sym (cons-cons c d s t) ∙ h) (sym (cons-cons d e t u) ∙ k)

compare_swap : (s t : String) → compare s t ≡ Ordering.gt → compare t s ≡ Ordering.lt
compare_swap [] [] h = cc
compare_swap [] (d ∷ t) h = lt≢gt (sym (nil-cons d t) ∙ h)
compare_swap (c ∷ s) [] h = nil-cons c s
compare_swap (c ∷ s) (d ∷ t) h =
    cons-cons d c t s
    ∙ then_swap (code c) (code d) (compare s t) (compare t s) (compare_swap s t)
        (sym (cons-cons c d s t) ∙ h)

compare_flip : (s t : String) → compare s t ≡ Ordering.lt → compare t s ≡ Ordering.gt
compare_flip [] [] h = cc
compare_flip [] (d ∷ t) h = cons-nil d t
compare_flip (c ∷ s) [] h = gt≢lt (sym (cons-nil c s) ∙ h)
compare_flip (c ∷ s) (d ∷ t) h =
    cons-cons d c t s
    ∙ then_flip (code c) (code d) (compare s t) (compare t s) (compare_flip s t)
        (sym (cons-cons c d s t) ∙ h)

-- `s <= t`
abbrev pub text_le : String → String → Bool
text_le s t = elim (compare s t) [ Ordering.gt ↦ false | _ ↦ true ]

-- `s < t`, as a predicate.
abbrev pub IsBefore : String → String → Type 0
IsBefore s t = compare s t ≡ Ordering.lt

pub text_le-IsBefore : (s t : String) → IsBefore s t → text_le s t ≡ true
text_le-IsBefore s t h = rw (h, text_le)

pub text_le_refl : (s : String) → text_le s s ≡ true
text_le_refl s = rw (compare_refl s, text_le)

pub IsBefore-not_le : (s t : String) → text_le s t ≡ false → IsBefore t s
IsBefore-not_le s t h = compare_swap s t (ground arith)

pub IsBefore-le : (s t : String) → text_le s t ≡ true → (s ≡ t → ⊥) → IsBefore s t
IsBefore-le s t h n = ground (arith, path_by_compare s t)

pub not_le-IsBefore : (s t : String) → IsBefore t s → text_le s t ≡ false
not_le-IsBefore s t h = rw (compare_flip t s h, text_le)
