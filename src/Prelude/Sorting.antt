-- ===== src/Prelude/Sorting.antt =====
-- `sort.Strings`, as an insertion sort, with its laws, and lists of texts in order without a repetition.
use Prim.Native.Nat.{suc}
use Prim.Native.String.{String}
use mathlib.Core.Path.{◌≡◌, refl, ap, ◌∙◌}
use mathlib.Core.Logic.{◌≢◌, inl, inr}
use mathlib.Core.Bool.{Bool, true, false}
use mathlib.Core.List.{List, [], ◌∷◌, ◌++◌, Perm}
use mathlib.Core.List.Perm
use go_ddd_core.Prelude.Tests.{Bool-cases}
use go_ddd_core.Prelude.Lists.{All, keep, length}
use go_ddd_core.Prelude.TextOrder.{compare_trans, text_le, IsBefore, IsBefore-not_le, IsBefore-le}

abbrev put_before : Bool → String → String → List String → List String → List String
put_before true k j js rest = k ∷ j ∷ js
put_before false k j js rest = j ∷ rest

unfoldable pub sort_insert : String → List String → List String
sort_insert k [] = k ∷ []
sort_insert k (j ∷ js) = put_before (text_le k j) k j js (sort_insert k js)

-- `sort.Strings`
unfoldable pub sort_strings : List String → List String
sort_strings [] = []
sort_strings (k ∷ ks) = sort_insert k (sort_strings ks)

abbrev pub IsDistinct : List String → Type 0
IsDistinct [] = Unit
IsDistinct (k ∷ ks) = All (λ j. k ≢ j) ks × IsDistinct ks

abbrev pub IsAscending : List String → Type 0
IsAscending [] = Unit
IsAscending (k ∷ ks) = All (IsBefore k) ks × IsAscending ks

module _ (P : String → Type 0) where
  sort_insert-All : (k : String) (ks : List String) → P k → All P ks → All P (sort_insert k ks)
  unfolding sort_insert
  sort_insert-All k [] p q = (p, tt)
  sort_insert-All k (j ∷ js) p (q, r) = elim (Bool-cases (text_le k j)) [
    | inl h ↦ rw (h, put_before) (p, (q, r))
    | inr h ↦ rw (h, put_before) (q, sort_insert-All k js p r)
  ]

  pub sort_strings-All : (ks : List String) → All P ks → All P (sort_strings ks)
  unfolding sort_strings
  sort_strings-All [] q = tt
  sort_strings-All (k ∷ ks) (p, q) = sort_insert-All k (sort_strings ks) p (sort_strings-All ks q)

  pub keep-All : (p : String → Bool) (ks : List String) → All P ks → All P (keep p ks)
  keep-All p [] q = tt
  keep-All p (k ∷ ks) (q, qs) = elim (Bool-cases (p k)) [
    | inl h ↦ rw (h, keep) (q, keep-All p ks qs)
    | inr h ↦ rw (h, keep) (keep-All p ks qs)
  ]

  pub All-map :
      (Q : String → Type 0) (f : (k : String) → P k → Q k) (ks : List String) → All P ks → All Q ks
  All-map Q f [] q = tt
  All-map Q f (k ∷ ks) (p, q) = (f k p, All-map Q f ks q)

  pub All-middle : (us : List String) (y : String) (zs : List String) → All P (us ++ y ∷ zs) → P y
  All-middle [] y zs (p, ps) = p
  All-middle (u ∷ us) y zs (p, ps) = All-middle us y zs ps

sort_insert-IsAscending :
    (k : String) (ks : List String)
    → All (λ j. k ≢ j) ks
    → IsAscending ks
    → IsAscending (sort_insert k ks)
unfolding sort_insert
sort_insert-IsAscending k [] n a = (tt, tt)
sort_insert-IsAscending k (j ∷ js) (n, ns) (b, a) = elim (Bool-cases (text_le k j)) [
  | inl h ↦
      let kj = IsBefore-le k j h n in
      rw (h, put_before)
        ((kj, All-map (IsBefore j) (IsBefore k) (λ i ji. compare_trans k j i kj ji) js b), (b, a))
  | inr h ↦
      rw (h, put_before)
        (
          sort_insert-All (IsBefore j) k js (IsBefore-not_le k j h) b,
          sort_insert-IsAscending k js ns a,
        )
]

pub sort_strings-IsAscending : (ks : List String) → IsDistinct ks → IsAscending (sort_strings ks)
unfolding sort_strings
sort_strings-IsAscending [] d = tt
sort_strings-IsAscending (k ∷ ks) (n, d) =
    sort_insert-IsAscending k (sort_strings ks) (sort_strings-All (λ j. k ≢ j) ks n)
      (sort_strings-IsAscending ks d)

sort_insert-Perm : (k : String) (ks : List String) → Perm (sort_insert k ks) (k ∷ ks)
unfolding sort_insert
sort_insert-Perm k [] = Perm.rfl
sort_insert-Perm k (j ∷ js) = elim (Bool-cases (text_le k j)) [
  | inl h ↦ rw (h, put_before) Perm.rfl
  | inr h ↦ rw (h, put_before) (Perm.trans (Perm.cons j (sort_insert-Perm k js)) (Perm.swap k j js))
]

pub sort_strings-Perm : (ks : List String) → Perm (sort_strings ks) ks
unfolding sort_strings
sort_strings-Perm [] = Perm.rfl
sort_strings-Perm (k ∷ ks) =
    Perm.trans (sort_insert-Perm k (sort_strings ks)) (Perm.cons k (sort_strings-Perm ks))

-- A filter keeps distinct texts distinct.
pub keep-IsDistinct :
    (p : String → Bool) (ks : List String) → IsDistinct ks → IsDistinct (keep p ks)
keep-IsDistinct p [] d = tt
keep-IsDistinct p (k ∷ ks) (n, d) = elim (Bool-cases (p k)) [
  | inl h ↦ rw (h, keep) (keep-All (λ j. k ≢ j) p ks n, keep-IsDistinct p ks d)
  | inr h ↦ rw (h, keep) (keep-IsDistinct p ks d)
]

-- The texts before and after one of an ascending list.
pub IsAscending-split :
    (us : List String) (y : String) (zs : List String)
    → IsAscending (us ++ y ∷ zs)
    → All (λ u. IsBefore u y) us × All (IsBefore y) zs
IsAscending-split [] y zs (b, a) = (tt, b)
IsAscending-split (u ∷ us) y zs (b, a) =
    let rest = IsAscending-split us y zs a in ((All-middle (IsBefore u) us y zs b, rest.0), rest.1)

length-sort_insert : (k : String) (ks : List String) → length (sort_insert k ks) ≡ suc (length ks)
unfolding sort_insert
length-sort_insert k [] = refl
length-sort_insert k (j ∷ js) = elim (Bool-cases (text_le k j)) [
  | inl h ↦ rw (h, put_before) refl
  | inr h ↦ rw (h, put_before) (ap suc (length-sort_insert k js))
]

pub length-sort_strings : (ks : List String) → length (sort_strings ks) ≡ length ks
unfolding sort_strings
length-sort_strings [] = refl
length-sort_strings (k ∷ ks) =
    length-sort_insert k (sort_strings ks) ∙ ap suc (length-sort_strings ks)
