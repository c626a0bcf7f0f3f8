-- ===== src/Ports/Cache/Reference.antt =====
-- ports/cache/cachetest/reference_test.go: the reference cache, a map from keys to slices of its own.
use go_ddd_core.Prelude.{ℕ, String, Bool, true, false, Option, none, some, str_eq, is_some}
use go_ddd_core.Prelude.Int.{ℤ, pos, ltb_ℤ}
use go_ddd_core.Prelude.Dict.{Dict, lookup, insert, erase}
use go_ddd_core.Errors.{Error, to_error}
use go_ddd_core.Errorsx
use go_ddd_core.Errorsx.{code_invalid_argument}
use go_ddd_core.Ports.Contexts.{Context, context_error}
use go_ddd_core.Ports.Slices.{Slices, alloc}
use go_ddd_core.Ports.Cache.{Cache, err_miss}

-- `refCache`
abbrev pub RefCache : Type 0
RefCache = Dict ℕ

abbrev invalid : String → Error
invalid msg = to_error (Errorsx.new code_invalid_argument msg)

-- `c.validateKey(key)`
abbrev pub validate_key : String → Option Error
validate_key key = elim (str_eq key "") [
  | true ↦ some (invalid "cachetest: empty key")
  | false ↦ none
]

-- `c.Get(ctx, key)`: the slice it returns is a copy.
unfoldable pub ref_get :
    Context → String → RefCache × Slices → (RefCache × Slices) × (Option ℕ × Option Error)
ref_get ctx key (m, h) = elim (validate_key key) [
  | some e ↦ ((m, h), (none, some e))
  | none ↦ elim (context_error ctx) [
    | some e ↦ ((m, h), (none, some e))
    | none ↦ elim (lookup key m) [
      | none ↦ ((m, h), (none, some err_miss))
      | some v ↦ let (out, h') = alloc (h.bytes v) h in ((m, h'), (some out, none))
    ]
  ]
]

-- `c.Set(ctx, key, value, ttl)`: the slice it stores is a copy.
unfoldable pub ref_set :
    Context → String → ℕ → ℤ → RefCache × Slices → (RefCache × Slices) × Option Error
ref_set ctx key value ttl (m, h) = elim (validate_key key) [
  | some e ↦ ((m, h), some e)
  | none ↦ elim (ltb_ℤ ttl (pos 0)) [
    | true ↦ ((m, h), some (invalid "cachetest: negative ttl"))
    | false ↦ elim (context_error ctx) [
      | some e ↦ ((m, h), some e)
      | none ↦ let (stored, h') = alloc (h.bytes value) h in ((insert key stored m, h'), none)
    ]
  ]
]

-- `c.Delete(ctx, key)`
unfoldable pub ref_delete :
    Context → String → RefCache × Slices → (RefCache × Slices) × Option Error
ref_delete ctx key (m, h) = elim (validate_key key) [
  | some e ↦ ((m, h), some e)
  | none ↦ elim (context_error ctx) [ some e ↦ ((m, h), some e) | none ↦ ((erase key m, h), none) ]
]

-- `c.Exists(ctx, key)`
unfoldable pub ref_exists :
    Context → String → RefCache × Slices → (RefCache × Slices) × (Bool × Option Error)
ref_exists ctx key (m, h) = elim (validate_key key) [
  | some e ↦ ((m, h), (false, some e))
  | none ↦ elim (context_error ctx) [
    | some e ↦ ((m, h), (false, some e))
    | none ↦ ((m, h), (is_some (lookup key m), none))
  ]
]

-- `newRefCache(t)` and its methods.
abbrev pub ref_cache : Cache RefCache
ref_cache = record { get = ref_get; set = ref_set; delete = ref_delete; exists = ref_exists }
