-- ===== src/Ports/Slices.antt =====
-- Byte slices in a heap, as a caller and an implementation share them: a slice is its number; nil is
-- none.
use go_ddd_core.Prelude.{ℕ, zero, suc, true, false, Option, none, some, List, [], ◌∷◌, ◌==◌}

pub record Slices : Type 0 where
  pub next : ℕ
  pub bytes : ℕ → List ℕ

abbrev pub no_slices : Slices
no_slices = record { next = 0; bytes = λ r. [] }

abbrev pub with_bytes : ℕ → List ℕ → Slices → ℕ → List ℕ
with_bytes r bs h j = elim (j == r) [ true ↦ bs | false ↦ h.bytes j ]

-- A new slice with the bytes `bs`.
abbrev pub alloc : List ℕ → Slices → ℕ × Slices
alloc bs h = (h.next, record { next = suc h.next; bytes = with_bytes h.next bs h })

abbrev set_at : ℕ → ℕ → List ℕ → List ℕ
set_at i b [] = []
set_at zero b (c ∷ cs) = b ∷ cs
set_at (suc i) b (c ∷ cs) = c ∷ set_at i b cs

-- `v[i] = b`, in range
abbrev pub write_byte : ℕ → ℕ → ℕ → Slices → Slices
write_byte r i b h = record h { bytes = with_bytes r (set_at i b (h.bytes r)) h }

-- The bytes of a slice, none for nil.
abbrev pub read_slice : Option ℕ → Slices → List ℕ
read_slice none h = []
read_slice (some r) h = h.bytes r
