-- ===== src/Graphql/Base64/RoundTrip.antt =====
-- Decoding what was encoded gives it back.
use go_ddd_core.Prelude.{
  ℕ, ◌<◌, ◌≡◌, refl, false, not, some, List, [], ◌∷◌, All, keep, keep-cons, arith, ap, ◌∙◌,
}
use go_ddd_core.Pagination.{Text}
use go_ddd_core.Graphql.Base64.{
  to_char, from_char, split, to_chars, encode, merge, from_chars, is_line_break, decode,
}

abbrev pub IsBytes : Text → Type 0
IsBytes = All (λ b. b < 256)

abbrev Small : List ℕ → Type 0
Small = All (λ n. n < 64)

from_char-to_char : (n : ℕ) → n < 64 → from_char (to_char n) ≡ some n
unfolding from_char to_char
from_char-to_char n h = ground arith

is_line_break-to_char : (n : ℕ) → n < 64 → is_line_break (to_char n) ≡ false
unfolding to_char
is_line_break-to_char n h = ground arith

split-Small : (bs : Text) → IsBytes bs → Small (split bs)
unfolding split
split-Small [] h = tt
split-Small (x ∷ []) h = omega arith
split-Small (x ∷ y ∷ []) h = omega arith
split-Small (x ∷ y ∷ z ∷ r) h =
    (omega arith, (omega arith, (omega arith, (omega arith, split-Small r h.1.1.1))))

merge-split : (bs : Text) → IsBytes bs → merge (split bs) ≡ some bs
unfolding merge split
merge-split [] h = refl
merge-split (x ∷ []) h = ground arith
merge-split (x ∷ y ∷ []) h = ground arith
merge-split (x ∷ y ∷ z ∷ r) h = rw (merge-split r h.1.1.1, merge) (ground arith)

keep-to_chars :
    (ns : List ℕ) → Small ns → keep (λ c. not (is_line_break c)) (to_chars ns) ≡ to_chars ns
unfolding to_chars
keep-to_chars [] h = refl
keep-to_chars (n ∷ ns) h =
    keep-cons _ (to_char n) (to_chars ns) (ap not (is_line_break-to_char n h.0))
    ∙ ap (λ cs. to_char n ∷ cs) (keep-to_chars ns h.1)

from_chars-to_chars : (ns : List ℕ) → Small ns → from_chars (to_chars ns) ≡ some ns
unfolding from_chars to_chars
from_chars-to_chars [] h = refl
from_chars-to_chars (n ∷ ns) h =
    rw (from_char-to_char n h.0, from_chars) (rw (from_chars-to_chars ns h.1, from_chars))

-- Decoding gives back every sequence of bytes that was encoded, of any length.
pub decode-encode : (bs : Text) → IsBytes bs → decode (encode bs) ≡ some bs
unfolding decode encode
decode-encode bs h =
    rw
      (
        keep-to_chars (split bs) (split-Small bs h),
        from_chars-to_chars (split bs) (split-Small bs h),
      )
      (merge-split bs h)
