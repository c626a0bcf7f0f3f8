-- ===== src/Pagination.antt =====
-- pkg/pagination/page.go. Texts are lists of bytes, as in transport/graphql, which encodes them.
use go_ddd_core.Prelude.{ℕ, Bool, not, List, is_empty}
use go_ddd_core.Prelude.Int.{ℤ}

-- A Go string as its bytes.
abbrev pub Text : Type 0
Text = List ℕ

-- `PageRequest` is sealed: a limit or a cursor.
pub record Cursor : Type 0 where
  pub token : Text
  pub size : ℤ

pub record Limit : Type 0 where
  pub size : ℤ
  pub offset : ℤ

pub data PageRequest : Type 0 where
  limit : Limit → PageRequest
  cursor : Cursor → PageRequest

pub record Page (T : Type 0) : Type 0 where
  pub items : List T
  pub total : ℤ
  pub next_cursor : Text

-- `p.HasNext()`
unfoldable pub has_next : {T : Type 0} → Page T → Bool
has_next p = not (is_empty p.next_cursor)
