-- ===== src/Tests/Transport.antt =====
-- HTTP and gRPC mappings, cursors, connections and filters.
use go_ddd_core.Prelude.{ℕ, ◌≤◌, true, ◌≡◌, refl, arith, Option, none, some, [], ◌∷◌, ◌==◌}
use go_ddd_core.Prelude.Int.{pos}
use go_ddd_core.Errors.{Error, wrapped, rule, Result, ok}
use go_ddd_core.Errorsx.Maps.{Heap}
use go_ddd_core.Httpx.{write_json, status_from_code}
use go_ddd_core.Httpx.Laws.{write_json_consistent}
use go_ddd_core.Grpc.{code_from_errorsx}
use go_ddd_core.Grpc.Laws.{Agree, code_from_errorsx-Agree}
use go_ddd_core.Pagination.{Text, Page, has_next}
use go_ddd_core.Spec.{Spec, predicate}
use go_ddd_core.Graphql.Cursor.{encode_cursor, decode_cursor, to_page_request, build_connection}
use go_ddd_core.Graphql.Cursor.Laws.{decode_cursor-encode_cursor, to_page_request-build_connection}
use go_ddd_core.Graphql.Filter.{FilterInput, filter, nil, cons, null, point, build_specification}
use go_ddd_core.Graphql.Filter.Laws.{
  satisfied_result, satisfied_leaf, answer, build_specification_sound,
}

abbrev no_maps : Heap
no_maps = record { next = 0; cell = λ r. [] }

abbrev broken_rule : Error
broken_rule = wrapped "handler: A: b" (rule "A" "b")

write_json_consistent_example :
    let r = (write_json (some broken_rule) no_maps).0 in
    (r.status ≡ status_from_code r.body.code) × (400 ≤ r.status) × (r.status ≤ 503)
write_json_consistent_example = write_json_consistent (some broken_rule) no_maps

code_from_errorsx-Agree_example : Agree (code_from_errorsx "teapot") (status_from_code "teapot")
code_from_errorsx-Agree_example = code_from_errorsx-Agree "teapot"

abbrev payload : Text
payload = 0 ∷ 255 ∷ 65 ∷ 7 ∷ []

decode_cursor-encode_cursor_example : decode_cursor (encode_cursor payload) ≡ ok payload
decode_cursor-encode_cursor_example = decode_cursor-encode_cursor payload (ground arith)

abbrev first_page : Page ℕ
first_page = record { items = 3 ∷ 4 ∷ []; total = pos 9; next_cursor = 4 ∷ [] }

abbrev key_of : ℕ → Text
key_of n = n ∷ []

more : has_next first_page ≡ true
unfolding has_next
more = refl

to_page_request-build_connection_example :
    let c = build_connection first_page key_of in
    (c.page_info.has_next_page ≡ true)
    × (to_page_request (record {
      first = some (pos 2);
      after = some c.page_info.end_cursor;
      last = none;
      before = none;
    })
        ≡ ok (record { token = 4 ∷ []; size = pos 2 }))
to_page_request-build_connection_example =
    to_page_request-build_connection first_page key_of (pos 2) (ground arith) more

abbrev leaf : ℕ → Result (Option (Spec ℕ))
leaf n = ok (some (predicate (λ m. m == n)))

-- Not 5, or 6 and a part that is empty.
abbrev choice : FilterInput ℕ
choice =
    filter nil
      (cons (filter nil nil (point (filter nil nil null (some 5))) none) (
        cons
          (filter (cons (filter nil nil null (some 6)) (cons (filter nil nil null none) nil)) nil
            null none)
          nil))
      null none

build_specification_sound_example :
    satisfied_result leaf 5 (build_specification leaf choice)
    ≡ answer (satisfied_leaf leaf 5) choice
build_specification_sound_example = build_specification_sound leaf 5 choice
