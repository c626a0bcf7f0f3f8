-- ===== src/Errorsx/Laws.antt =====
-- What holds of pkg/errorsx: details are never shared by accident, and the code of an error is that
-- of the first coded error that it wraps.
use go_ddd_core.Prelude.{
  ℕ, ◌<◌, ◌≡◌, refl, ap, ◌∙◌, String, Option, none, some, List, [], ◌∷◌, ◌++◌, str_eq,
  if◌then◌else◌, arith, inl, inr, Option-cases,
}
use go_ddd_core.Prelude.Dict.{lookup, lookup-insert}
use go_ddd_core.Errors.{
  Error, Errors, Cause, Coded, plain, wrapped, joined, coded, rule, sentinel, nil, cons, no_cause,
  cause, or_else, as_coded, any_coded,
}
use go_ddd_core.Errorsx.Maps.{Any, Heap, alloc, write, read}
use go_ddd_core.Errorsx.{with_detail, code_of, found_code}

abbrev pub details_of : Coded → Heap → String → Option Any
details_of e h k = elim e.details [ none ↦ none | some r ↦ read h r k ]

pub details_of-with_detail :
    (e : Coded) (k : String) (v : Any) (h : Heap) (j : String)
    → let (e', h') = with_detail e k v h in
      details_of e' h' j ≡ (if str_eq k j then some v else details_of e h j)
unfolding with_detail alloc write lookup
details_of-with_detail e k v h j = elim (Option-cases e.details) [
  | inl p ↦ ground (arith, lookup-insert k j v [])
  | inr (q, p) ↦ ground (arith, lookup-insert k j v (h.cell q))
]

with_detail_frame :
    (e : Coded) (k : String) (v : Any) (h : Heap) (r : ℕ)
    → r < h.next
    → (with_detail e k v h).1.cell r ≡ h.cell r
unfolding with_detail alloc write
with_detail_frame e k v h r old = ground arith

-- The copy has the receiver's code, message and cause and its details with the new one added, and
-- no map that was in the heap before has changed, so neither the receiver nor any other error that
-- shares its map sees the new detail.
pub with_detail_isolated :
    (e : Coded) (k : String) (v : Any) (h : Heap) (j : String) (r : ℕ)
    → r < h.next
    → let (e', h') = with_detail e k v h in
      (e'.code ≡ e.code)
      × (e'.message ≡ e.message)
      × (e'.cause ≡ e.cause)
      × (details_of e' h' j ≡ (if str_eq k j then some v else details_of e h j))
      × (h'.cell r ≡ h.cell r)
unfolding with_detail
with_detail_isolated e k v h j r old =
    (refl, refl, refl, details_of-with_detail e k v h j, with_detail_frame e k v h r old)

-- An error and all that it unwraps to, in the order in which `errors.Is` and `errors.As` look.
mutual
  pub chain : Error → List Error
  chain (plain s) = plain s ∷ []
  chain (wrapped s e) = wrapped s e ∷ chain e
  chain (joined es) = joined es ∷ chains es
  chain (coded c m d k) = coded c m d k ∷ cause_chain k
  chain (rule c m) = rule c m ∷ []
  chain (sentinel c m) = sentinel c m ∷ coded c m none no_cause ∷ []

  pub chains : Errors → List Error
  chains nil = []
  chains (cons e es) = chain e ++ chains es

  pub cause_chain : Cause → List Error
  cause_chain no_cause = []
  cause_chain (cause e) = chain e

abbrev coded_here : Error → Option Coded
coded_here (coded c m d k) = some (record { code = c; message = m; details = d; cause = k })
coded_here _ = none

pub first_coded : List Error → Option Coded
first_coded [] = none
first_coded (e ∷ es) = or_else (coded_here e) (first_coded es)

first_coded-append :
    (xs ys : List Error) → first_coded (xs ++ ys) ≡ or_else (first_coded xs) (first_coded ys)
unfolding first_coded
first_coded-append [] ys = refl
first_coded-append (x ∷ xs) ys = ground (arith, first_coded-append xs ys)

mutual
  unfolding as_coded chain first_coded

  as_coded-eq : (e : Error) → as_coded e ≡ first_coded (chain e)
  as_coded-eq (plain s) = refl
  as_coded-eq (wrapped s e) = as_coded-eq e
  as_coded-eq (joined es) = any_coded-eq es
  as_coded-eq (coded c m d k) = refl
  as_coded-eq (rule c m) = refl
  as_coded-eq (sentinel c m) = refl

  any_coded-eq : (es : Errors) → any_coded es ≡ first_coded (chains es)
  any_coded-eq nil = refl
  any_coded-eq (cons e es) =
      rw (first_coded-append (chain e) (chains es), as_coded-eq e, any_coded-eq es)

literal_code : (x : Option Coded) → found_code x ≡ elim x [ none ↦ "unknown" | some c ↦ c.code ]
literal_code none = refl
literal_code (some c) = refl

-- The code of an error is that of the first coded error in the order of unwrapping, whatever
-- uncoded errors wrap it or stand before it, and "unknown" when there is none.
pub code_of-first_coded :
    (e : Error) → code_of e ≡ elim (first_coded (chain e)) [ none ↦ "unknown" | some c ↦ c.code ]
unfolding code_of
code_of-first_coded e = ap found_code (as_coded-eq e) ∙ literal_code (first_coded (chain e))
