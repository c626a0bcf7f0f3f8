-- ===== src/Graphql/Filter.antt =====
-- transport/graphql/spec_filter.go. A leaf is nil or a value `L`; the adapter's leaf builder returns a
-- specification, nil, or an error.
pub mod Laws
use go_ddd_core.Prelude.{Option, none, some}
use go_ddd_core.Errors.{Result, ok, err}
use go_ddd_core.Spec.{Spec, and, or, negate}

-- `FilterInput`, its slices of filters, and a pointer to a filter.
mutual
  pub data FilterInput (L : Type 0) : Type 0 where
    filter : Filters L → Filters L → FilterPointer L → Option L → FilterInput L

  pub data Filters (L : Type 0) : Type 0 where
    nil : Filters L
    cons : FilterInput L → Filters L → Filters L

  pub data FilterPointer (L : Type 0) : Type 0 where
    null : FilterPointer L
    point : FilterInput L → FilterPointer L

infixl 5 ◌>>=◌
abbrev pub ◌>>=◌ : {A B : Type 0} → Result A → (A → Result B) → Result B
ok a >>= f = f a
err e >>= f = err e

module _ {T : Type 0} where
  -- `combined` after one more specification: a nil one is skipped, the first is taken as it is.
  abbrev pub combine :
      (Spec T → Spec T → Spec T) → Option (Spec T) → Option (Spec T) → Option (Spec T)
  combine op combined none = combined
  combine op none (some s) = some s
  combine op (some c) (some s) = some (op c s)

  abbrev pub negated : Option (Spec T) → Option (Spec T)
  negated none = none
  negated (some s) = some (negate s)

-- `BuildSpecification(in, leaf)`: a leaf wins over And, And over Or, Or over Not.
module _ {T L : Type 0} (leaf : L → Result (Option (Spec T))) where
  unfoldable mutual
    pub build_specification : FilterInput L → Result (Option (Spec T))
    build_specification (filter a o n (some l)) = leaf l
    build_specification (filter (cons x xs) o n none) = build_all and none (cons x xs)
    build_specification (filter nil (cons x xs) n none) = build_all or none (cons x xs)
    build_specification (filter nil nil n none) = build_not n

    -- The loops over the And and the Or lists.
    pub build_all :
        (Spec T → Spec T → Spec T) → Option (Spec T) → Filters L → Result (Option (Spec T))
    build_all op combined nil = ok combined
    build_all op combined (cons x xs) =
        build_specification x >>= λ s. build_all op (combine op combined s) xs

    pub build_not : FilterPointer L → Result (Option (Spec T))
    build_not null = ok none
    build_not (point x) = build_specification x >>= λ s. ok (negated s)
