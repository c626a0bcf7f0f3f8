-- ===== src/Graphql/Cursor/Laws.antt =====
-- Cursors survive the trip to the client and back (transport/graphql/cursor.go).
use go_ddd_core.Prelude.{
  ◌≡◌, ◌≢◌, refl, ap, true, ◌⊎◌, inl, inr, none, some, List, [], ◌∷◌, map, arith, Option-cases,
}
use go_ddd_core.Prelude.Int.{ℤ}
use go_ddd_core.Errors.{ok, err}
use go_ddd_core.Pagination.{Text, Page, has_next}
use go_ddd_core.Graphql.Base64.{decode}
use go_ddd_core.Graphql.Base64.RoundTrip.{IsBytes, decode-encode}
use go_ddd_core.Graphql.Cursor.{
  cursor_prefix, encode_cursor, decode_cursor, strip_prefix, err_invalid_cursor,
  err_unsupported_direction, ConnectionArgs, to_page_request, forward_cursor, Edge, edges_of,
  build_connection,
}

-- DecodeCursor gives back every payload that EncodeCursor was given.
pub decode_cursor-encode_cursor :
    (payload : Text) → IsBytes payload → decode_cursor (encode_cursor payload) ≡ ok payload
unfolding decode_cursor encode_cursor strip_prefix
decode_cursor-encode_cursor payload h = rw (decode-encode payload h)

-- DecodeCursor on any text either returns ErrInvalidCursor, or the text begins with the prefix, its rest
-- is base64 and the result is the payload that the rest decodes to: decoding fails in one way only.
decode_cursor_total :
    (c : Text)
    → (decode_cursor c ≡ err err_invalid_cursor)
      ⊎ ((payload : Text) × (rest : Text) × (strip_prefix cursor_prefix c ≡ some rest)
          × (decode rest ≡ some payload)
          × (decode_cursor c ≡ ok payload))
unfolding decode_cursor
decode_cursor_total c = elim (Option-cases (strip_prefix cursor_prefix c)) [
  | inl p ↦ inl (rw p)
  | inr (rest, p) ↦ elim (Option-cases (decode rest)) [
    | inl q ↦ inl (rw p (rw q))
    | inr (payload, q) ↦ inr (payload, rest, p, q, rw p (rw q))
  ]
]

-- A request with Last or Before is refused for its direction, even with First and After present.
to_page_request_backward :
    (args : ConnectionArgs)
    → (args.last ≢ none) ⊎ (args.before ≢ none)
    → to_page_request args ≡ err err_unsupported_direction
unfolding to_page_request
to_page_request_backward args h = ground arith

module _ {T : Type 0} where
  -- A client that sends the end cursor of a connection back as After, with a page size, asks for the
  -- page that starts at the page's next cursor.
  pub to_page_request-build_connection :
      (page : Page T) (cursor_of : T → Text) (n : ℤ)
      → IsBytes page.next_cursor
      → has_next page ≡ true
      → let c = build_connection page cursor_of in
        (c.page_info.has_next_page ≡ true)
        × (to_page_request (record {
          first = some n;
          after = some c.page_info.end_cursor;
          last = none;
          before = none;
        })
            ≡ ok (record { token = page.next_cursor; size = n }))
  unfolding build_connection to_page_request has_next
  to_page_request-build_connection page cursor_of n h more =
      (more, rw more (rw (decode_cursor-encode_cursor page.next_cursor h, forward_cursor)))

  abbrev pub AllBytes : (T → Text) → List T → Type 0
  AllBytes cursor_of [] = Unit
  AllBytes cursor_of (x ∷ xs) = IsBytes (cursor_of x) × AllBytes cursor_of xs

  nodes-edges_of :
      (cursor_of : T → Text) (xs : List T)
      → map (λ (e : Edge T). e.node) (edges_of cursor_of xs) ≡ xs
  unfolding edges_of
  nodes-edges_of cursor_of [] = refl
  nodes-edges_of cursor_of (x ∷ xs) = ap (λ ys. x ∷ ys) (nodes-edges_of cursor_of xs)

  cursors-edges_of :
      (cursor_of : T → Text) (xs : List T)
      → AllBytes cursor_of xs
      → map (λ (e : Edge T). decode_cursor e.cursor) (edges_of cursor_of xs)
        ≡ map (λ x. ok (cursor_of x)) xs
  unfolding edges_of
  cursors-edges_of cursor_of [] h = refl
  cursors-edges_of cursor_of (x ∷ xs) h =
      rw (decode_cursor-encode_cursor (cursor_of x) h.0, cursors-edges_of cursor_of xs h.1)

  -- The nodes of a connection are the items of the page, in order, and the cursors of the
  -- edges, in order, decode to the payloads of the items.
  build_connection-edges :
      (page : Page T) (cursor_of : T → Text)
      → AllBytes cursor_of page.items
      → let es = (build_connection page cursor_of).edges in
        (map (λ (e : Edge T). e.node) es ≡ page.items)
        × (map (λ (e : Edge T). decode_cursor e.cursor) es ≡ map (λ x. ok (cursor_of x)) page.items)
  unfolding build_connection
  build_connection-edges page cursor_of h =
      (nodes-edges_of cursor_of page.items, cursors-edges_of cursor_of page.items h)
