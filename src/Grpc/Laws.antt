-- ===== src/Grpc/Laws.antt =====
-- What the gRPC mapping and the provider combinators guarantee (transport/grpc).
use go_ddd_core.Prelude.{
  ℕ, ◌≤◌, ◌<◌, ◌≡◌, refl, sym, ◌↔◌, String, Option, none, some, List, [], ◌∷◌, ◌++◌, arith,
  append_assoc, append-nil, All, Bool-cases, inl, inr, str_eq,
}
use go_ddd_core.Prelude.Dict.{Dict, lookup}
use go_ddd_core.Httpx.{status_or, status_from_code}
use go_ddd_core.Grpc.{
  InterceptorProvider, code_from_errorsx, status_ok, combine_loop, combine_interceptor_providers,
  collect_loop, collect_service_providers,
}

-- One table with two columns, and what holds of every row of it and of the two defaults.
abbrev Table : Type 0
Table = List (String × ℕ × ℕ)

abbrev first_column : Table → Dict ℕ
first_column [] = []
first_column ((k, a, b) ∷ t) = (k, a) ∷ first_column t

abbrev second_column : Table → Dict ℕ
second_column [] = []
second_column ((k, a, b) ∷ t) = (k, b) ∷ second_column t

table_rule :
    (P : ℕ → ℕ → Type 0) (c : String) (d e : ℕ) (t : Table)
    → P d e
    → All (λ r. P r.1 r.2) t
    → P (status_or d (lookup c (first_column t))) (status_or e (lookup c (second_column t)))
unfolding lookup
table_rule P c d e [] h hs = h
table_rule P c d e ((k, a, b) ∷ t) h hs = elim (Bool-cases (str_eq k c)) [
  | inl hit ↦ rw hit hs.0
  | inr miss ↦ rw miss (table_rule P c d e t h hs.1)
]

-- A gRPC code that is an error code, and says of the same four conditions what the HTTP status says.
abbrev pub Agree : ℕ → ℕ → Type 0
Agree g s =
    (status_ok < g)
    × (g ≤ 16)
    × ((g ≡ 5) ↔ (s ≡ 404))
    × ((g ≡ 8) ↔ (s ≡ 429))
    × ((g ≡ 16) ↔ (s ≡ 401))
    × ((g ≡ 14) ↔ (s ≡ 503))

abbrev both : Table
both =
    ("unknown", 2, 500)
    ∷ ("invalid_argument", 3, 400)
    ∷ ("not_found", 5, 404)
    ∷ ("already_exists", 6, 409)
    ∷ ("unauthorized", 16, 401)
    ∷ ("forbidden", 7, 403)
    ∷ ("conflict", 10, 409)
    ∷ ("rate_limited", 8, 429)
    ∷ ("internal", 13, 500)
    ∷ ("unavailable", 14, 503)
    ∷ []

both-Agree : All (λ r. Agree r.1 r.2) both
both-Agree = omega arith

-- No errorsx code, known or not, becomes OK, every one becomes a code that gRPC defines, and the
-- two transports agree on which errors are a missing resource, a throttled caller, a rejected
-- credential or an unavailable service.
pub code_from_errorsx-Agree : (c : String) → Agree (code_from_errorsx c) (status_from_code c)
unfolding code_from_errorsx status_from_code
code_from_errorsx-Agree c = table_rule Agree c 2 500 both (omega arith) both-Agree

module _ {ℓ} {I : Type ℓ} where
  -- The interceptors of the providers that are not nil, in provider order.
  abbrev pub all_unary : List (Option (InterceptorProvider I)) → List I
  all_unary [] = []
  all_unary (none ∷ ps) = all_unary ps
  all_unary (some p ∷ ps) = p.unary_interceptors ++ all_unary ps

  abbrev pub all_stream : List (Option (InterceptorProvider I)) → List I
  all_stream [] = []
  all_stream (none ∷ ps) = all_stream ps
  all_stream (some p ∷ ps) = p.stream_interceptors ++ all_stream ps

  combine_loop-eq :
      (u s : List I) (ps : List (Option (InterceptorProvider I)))
      → combine_loop (u, s) ps ≡ (u ++ all_unary ps, s ++ all_stream ps)
  unfolding combine_loop
  combine_loop-eq u s [] = rw (append-nil u, append-nil s)
  combine_loop-eq u s (none ∷ ps) = combine_loop-eq u s ps
  combine_loop-eq u s (some p ∷ ps) =
      rw (combine_loop-eq (u ++ p.unary_interceptors) (s ++ p.stream_interceptors) ps)
        (simp append_assoc)

  all_unary-append :
      (ps qs : List (Option (InterceptorProvider I)))
      → all_unary (ps ++ qs) ≡ all_unary ps ++ all_unary qs
  all_unary-append [] qs = refl
  all_unary-append (none ∷ ps) qs = all_unary-append ps qs
  all_unary-append (some p ∷ ps) qs = rw (all_unary-append ps qs) (simp append_assoc)

  all_stream-append :
      (ps qs : List (Option (InterceptorProvider I)))
      → all_stream (ps ++ qs) ≡ all_stream ps ++ all_stream qs
  all_stream-append [] qs = refl
  all_stream-append (none ∷ ps) qs = all_stream-append ps qs
  all_stream-append (some p ∷ ps) qs = rw (all_stream-append ps qs) (simp append_assoc)

  -- The combined lists are the interceptors of the providers in provider order, nil providers left
  -- out, and combining two lists of providers is combining each and appending the results.
  combine_interceptor_providers_order :
      (ps qs : List (Option (InterceptorProvider I)))
      → let c = combine_interceptor_providers (ps ++ qs) in
        let a = combine_interceptor_providers ps in
        let b = combine_interceptor_providers qs in
        (a ≡ (all_unary ps, all_stream ps)) × (c.0 ≡ a.0 ++ b.0) × (c.1 ≡ a.1 ++ b.1)
  unfolding combine_interceptor_providers
  combine_interceptor_providers_order ps qs =
      rw (combine_loop-eq [] [] (ps ++ qs), combine_loop-eq [] [] ps, combine_loop-eq [] [] qs)
        (refl, all_unary-append ps qs, all_stream-append ps qs)

module _ {ℓ} {P : Type ℓ} where
  abbrev pub present : List (Option P) → List P
  present [] = []
  present (none ∷ ps) = present ps
  present (some p ∷ ps) = p ∷ present ps

  collect_loop-eq : (out : List P) (ps : List (Option P)) → collect_loop out ps ≡ out ++ present ps
  unfolding collect_loop
  collect_loop-eq out [] = sym (append-nil out)
  collect_loop-eq out (none ∷ ps) = collect_loop-eq out ps
  collect_loop-eq out (some p ∷ ps) = rw (collect_loop-eq (out ++ p ∷ []) ps) (simp append_assoc)

  -- The result is the providers that are not nil, each as often as it was supplied and in the order
  -- in which they were supplied.
  collect_service_providers-present :
      (ps : List (Option P)) → collect_service_providers ps ≡ present ps
  unfolding collect_service_providers
  collect_service_providers-present ps = collect_loop-eq [] ps
