-- ===== src/Graphql/Cursor.antt =====
-- transport/graphql/cursor.go.
pub mod Laws
use go_ddd_core.Prelude.{
  Bool, true, false, ◌&&◌, ◌||◌, not, Option, none, some, List, [], ◌∷◌, ◌++◌, map, is_some,
  is_empty, if◌then◌else◌, ◌==◌, ℕ,
}
use go_ddd_core.Prelude.Int.{ℤ, pos}
use go_ddd_core.Errors.{Error, Result, ok, err, plain}
use go_ddd_core.Pagination
use go_ddd_core.Pagination.{Text, Page, has_next}
use go_ddd_core.Graphql.Base64.{encode, decode}

-- `cursorPrefix`, the bytes of "v1:".
abbrev pub cursor_prefix : Text
cursor_prefix = b'v' ∷ b'1' ∷ b':' ∷ []

-- `ErrInvalidCursor` and `ErrUnsupportedDirection`
abbrev pub err_invalid_cursor : Error
err_invalid_cursor = plain "graphql: invalid cursor"

abbrev pub err_unsupported_direction : Error
err_unsupported_direction = plain "graphql: backward pagination not supported"

-- `EncodeCursor(payload)`
unfoldable pub encode_cursor : Text → Text
encode_cursor payload = cursor_prefix ++ encode payload

-- What follows a prefix in a text, if the text begins with it.
unfoldable pub strip_prefix : Text → Text → Option Text
strip_prefix [] s = some s
strip_prefix (p ∷ ps) [] = none
strip_prefix (p ∷ ps) (c ∷ cs) = let rest = strip_prefix ps cs in if p == c then rest else none

abbrev pub decoded : Option Text → Result Text
decoded none = err err_invalid_cursor
decoded (some raw) = ok raw

abbrev pub decode_stripped : Option Text → Result Text
decode_stripped none = err err_invalid_cursor
decode_stripped (some rest) = decoded (decode rest)

-- `DecodeCursor(cursor)`
unfoldable pub decode_cursor : Text → Result Text
decode_cursor c = decode_stripped (strip_prefix cursor_prefix c)

-- `ConnectionArgs`
pub record ConnectionArgs : Type 0 where
  pub first : Option ℤ
  pub after : Option Text
  pub last : Option ℤ
  pub before : Option Text

abbrev pub or_zero : Option ℤ → ℤ
or_zero none = pos 0
or_zero (some n) = n

abbrev pub forward_cursor : Option ℤ → Option Text → Result Pagination.Cursor
forward_cursor n none = ok (record { token = []; size = or_zero n })
forward_cursor n (some a) = elim (decode_cursor a) [
  | err e ↦ err e
  | ok payload ↦ ok (record { token = payload; size = or_zero n })
]

-- `ToPageRequest(args)`
unfoldable pub to_page_request : ConnectionArgs → Result Pagination.Cursor
to_page_request args =
    if is_some args.last || is_some args.before
    then err err_unsupported_direction
    else forward_cursor args.first args.after

pub record Edge (T : Type 0) : Type 0 where
  pub node : T
  pub cursor : Text

pub record PageInfo : Type 0 where
  pub has_next_page : Bool
  pub has_previous_page : Bool
  pub start_cursor : Text
  pub end_cursor : Text

pub record Connection (T : Type 0) : Type 0 where
  pub edges : List (Edge T)
  pub page_info : PageInfo

module _ {T : Type 0} where
  abbrev pub first_cursor : List (Edge T) → Text
  first_cursor [] = []
  first_cursor (e ∷ es) = e.cursor

  abbrev pub last_cursor : List (Edge T) → Text
  last_cursor [] = []
  last_cursor (e ∷ []) = e.cursor
  last_cursor (e ∷ f ∷ es) = last_cursor (f ∷ es)

  unfoldable pub edges_of : (T → Text) → List T → List (Edge T)
  edges_of cursor_of [] = []
  edges_of cursor_of (x ∷ xs) =
      record { node = x; cursor = encode_cursor (cursor_of x) } ∷ edges_of cursor_of xs

  -- `BuildConnection(page, cursorOf)`
  unfoldable pub build_connection : Page T → (T → Text) → Connection T
  build_connection page cursor_of =
      let edges = edges_of cursor_of page.items in
      record {
        edges = edges;
        page_info = record {
          has_next_page = has_next page;
          has_previous_page = false;
          start_cursor = first_cursor edges;
          end_cursor =
              if has_next page && not (is_empty page.next_cursor)
              then encode_cursor page.next_cursor
              else last_cursor edges;
        };
      }
