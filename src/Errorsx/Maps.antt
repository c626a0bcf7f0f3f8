-- ===== src/Errorsx/Maps.antt =====
-- The heap of Details maps (pkg/errorsx/errorsx.go): the values of type any that a map holds, maps
-- by reference, and the three things that the code does with a map.
use go_ddd_core.Prelude.{ℕ, suc, String, Option, ◌==◌, if◌then◌else◌}
use go_ddd_core.Prelude.Int.{ℤ}
use go_ddd_core.Prelude.Dict.{Dict, lookup, insert}

-- A value of type any: a text, an int64, or any other value, known by a number.
pub data Any : Type 0 where
  text : String → Any
  number : ℤ → Any
  other : ℕ → Any

-- References below `next` are in use.
pub record Heap : Type 0 where
  pub next : ℕ
  pub cell : ℕ → Dict Any

abbrev pub update : (ℕ → Dict Any) → ℕ → Dict Any → ℕ → Dict Any
update f r m q = if r == q then m else f q

-- `map[string]any{}` and `maps.Clone(m)`: a new map with the given entries.
unfoldable pub alloc : Dict Any → Heap → ℕ × Heap
alloc m h = (h.next, record { next = suc h.next; cell = update h.cell h.next m })

-- `m[k] = v`
unfoldable pub write : ℕ → String → Any → Heap → Heap
write r k v h = record h { cell = update h.cell r (insert k v (h.cell r)) }

-- `m[k]`
abbrev pub read : Heap → ℕ → String → Option Any
read h r k = lookup k (h.cell r)
