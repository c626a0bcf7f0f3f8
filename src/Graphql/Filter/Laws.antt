-- ===== src/Graphql/Filter/Laws.antt =====
-- The specification that is built from a filter means what the filter says
-- (transport/graphql/spec_filter.go).
use go_ddd_core.Prelude.{
  ◌≡◌, refl, sym, ap, ◌∙◌, Bool, ◌&&◌, ◌||◌, not, Option, none, some, ◌⊎◌, inl, inr, arith,
}
use go_ddd_core.Errors.{Error, Result, ok, err}
use go_ddd_core.Spec.{Spec, and, or, negate, is_satisfied_by}
use go_ddd_core.Graphql.Filter.{
  FilterInput, Filters, FilterPointer, filter, nil, cons, null, point, ◌>>=◌, combine, negated,
  build_specification, build_all, build_not,
}

Result-cases : {A : Type 0} (r : Result A) → ((a : A) × (r ≡ ok a)) ⊎ ((e : Error) × (r ≡ err e))
Result-cases (ok a) = inl (a, refl)
Result-cases (err e) = inr (e, refl)

-- The connective of two answers, where none is the answer of an empty filter and is neutral.
abbrev pub join : (Bool → Bool → Bool) → Option Bool → Option Bool → Option Bool
join op none m = m
join op (some b) none = some b
join op (some b) (some d) = some (op b d)

abbrev pub opposite : Option Bool → Option Bool
opposite none = none
opposite (some b) = some (not b)

-- The answer of a filter for one candidate, from the answers of its leaves: a leaf if there is one,
-- else the conjunction of a nonempty And, else the disjunction of a nonempty Or, else the negation of
-- Not; the first error in that order of reading wins.
module _ {L : Type 0} (leaf_answer : L → Result (Option Bool)) where
  mutual
    pub answer : FilterInput L → Result (Option Bool)
    answer (filter a o n (some l)) = leaf_answer l
    answer (filter (cons x xs) o n none) = answers ◌&&◌ (cons x xs)
    answer (filter nil (cons x xs) n none) = answers ◌||◌ (cons x xs)
    answer (filter nil nil n none) = answer_not n

    pub answers : (Bool → Bool → Bool) → Filters L → Result (Option Bool)
    answers op nil = ok none
    answers op (cons x xs) = answer x >>= λ b. answers op xs >>= λ m. ok (join op b m)

    pub answer_not : FilterPointer L → Result (Option Bool)
    answer_not null = ok none
    answer_not (point x) = answer x >>= λ b. ok (opposite b)

module _ {T L : Type 0} (leaf : L → Result (Option (Spec T))) (t : T) where
  abbrev pub satisfied : Option (Spec T) → Option Bool
  satisfied none = none
  satisfied (some s) = some (is_satisfied_by s t)

  abbrev pub satisfied_result : Result (Option (Spec T)) → Result (Option Bool)
  satisfied_result (ok s) = ok (satisfied s)
  satisfied_result (err e) = err e

  abbrev pub satisfied_leaf : L → Result (Option Bool)
  satisfied_leaf l = satisfied_result (leaf l)

  -- An operation on specifications that means an associative connective.
  record IsConnective (op : Spec T → Spec T → Spec T) (bop : Bool → Bool → Bool) : Type 0 where
    means :
        (l r : Spec T)
        → is_satisfied_by (op l r) t ≡ bop (is_satisfied_by l t) (is_satisfied_by r t)
    assoc : (a b c : Bool) → bop (bop a b) c ≡ bop a (bop b c)

  and-IsConnective : IsConnective and ◌&&◌
  unfolding and is_satisfied_by
  and-IsConnective = record { means = λ l r. refl; assoc = λ a b c. ground arith }

  or-IsConnective : IsConnective or ◌||◌
  unfolding or is_satisfied_by
  or-IsConnective = record { means = λ l r. refl; assoc = λ a b c. ground arith }

  satisfied-combine :
      {op : Spec T → Spec T → Spec T} {bop : Bool → Bool → Bool}
      → IsConnective op bop
      → (c s : Option (Spec T)) (m : Option Bool)
      → join bop (satisfied (combine op c s)) m ≡ join bop (satisfied c) (join bop (satisfied s) m)
  satisfied-combine con none none m = refl
  satisfied-combine con none (some s) m = refl
  satisfied-combine con (some c) none none = refl
  satisfied-combine con (some c) none (some d) = refl
  satisfied-combine con (some c) (some s) none = ap some (con.means c s)
  satisfied-combine {bop = bop} con (some c) (some s) (some d) =
      ap some (
        ap (λ b. bop b d) (con.means c s) ∙ con.assoc (is_satisfied_by c t) (is_satisfied_by s t) d)

  join-none : (bop : Bool → Bool → Bool) (a : Option Bool) → join bop a none ≡ a
  join-none bop none = refl
  join-none bop (some a) = refl

  bind-join-none :
      (bop : Bool → Bool → Bool) (r : Result (Option Bool)) → (r >>= λ m. ok (join bop none m)) ≡ r
  bind-join-none bop (ok m) = refl
  bind-join-none bop (err e) = refl

  bind-join-combine :
      {op : Spec T → Spec T → Spec T} {bop : Bool → Bool → Bool}
      → IsConnective op bop
      → (c s : Option (Spec T)) (r : Result (Option Bool))
      → (r >>= λ m. ok (join bop (satisfied (combine op c s)) m))
        ≡ ((r >>= λ m. ok (join bop (satisfied s) m)) >>= λ m. ok (join bop (satisfied c) m))
  bind-join-combine con c s (ok m) = ap ok (satisfied-combine con c s m)
  bind-join-combine con c s (err e) = refl

  satisfied-negated : (s : Option (Spec T)) → satisfied (negated s) ≡ opposite (satisfied s)
  unfolding negate is_satisfied_by
  satisfied-negated none = refl
  satisfied-negated (some s) = refl

  mutual
    unfolding build_specification answer

    build_specification-answer :
        (f : FilterInput L)
        → satisfied_result (build_specification leaf f) ≡ answer satisfied_leaf f
    build_specification-answer (filter a o n (some l)) = refl
    build_specification-answer (filter (cons x xs) o n none) =
        build_all-answers and-IsConnective none (cons x xs) ∙ bind-join-none ◌&&◌ _
    build_specification-answer (filter nil (cons x xs) n none) =
        build_all-answers or-IsConnective none (cons x xs) ∙ bind-join-none ◌||◌ _
    build_specification-answer (filter nil nil n none) = build_not-answer n

    build_all-answers :
        {op : Spec T → Spec T → Spec T} {bop : Bool → Bool → Bool}
        → IsConnective op bop
        → (c : Option (Spec T)) (xs : Filters L)
        → satisfied_result (build_all leaf op c xs)
          ≡ (answers satisfied_leaf bop xs >>= λ m. ok (join bop (satisfied c) m))
    build_all-answers {bop = bop} con c nil = ap ok (sym (join-none bop (satisfied c)))
    build_all-answers {op = op} con c (cons x xs) =
        rw (← build_specification-answer x) (elim (Result-cases (build_specification leaf x)) [
          | inl (s, p) ↦ rw p (
              build_all-answers con (combine op c s) xs
              ∙ bind-join-combine con c s (answers satisfied_leaf _ xs))
          | inr (e, p) ↦ rw p
        ])

    build_not-answer :
        (n : FilterPointer L) → satisfied_result (build_not leaf n) ≡ answer_not satisfied_leaf n
    build_not-answer null = refl
    build_not-answer (point x) =
        rw (← build_specification-answer x) (elim (Result-cases (build_specification leaf x)) [
          | inl (s, p) ↦ rw p (ap ok (satisfied-negated s))
          | inr (e, p) ↦ rw p
        ])

  -- On every candidate the specification that is built from a filter answers what the filter says: no
  -- specification exactly when the filter is empty in effect, and otherwise the conjunction,
  -- disjunction or negation of the parts that are not empty; an error of a leaf that is reached is the
  -- result, and the first such error wins.
  pub build_specification_sound :
      (f : FilterInput L) → satisfied_result (build_specification leaf f) ≡ answer satisfied_leaf f
  build_specification_sound f = build_specification-answer f
