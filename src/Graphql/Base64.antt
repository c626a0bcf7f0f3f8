-- ===== src/Graphql/Base64.antt =====
-- encoding/base64 of Go's standard library as cursor.go uses it: RawURLEncoding, the URL-safe alphabet
-- without padding. The decoder skips line breaks, refuses any other byte outside the alphabet and a
-- single character at the end, and ignores the spare bits of the last character.
pub mod RoundTrip
use go_ddd_core.Prelude.{
  ℕ, ◌+◌, ◌-◌, ◌*◌, ◌/◌, ◌%◌, Bool, ◌||◌, not, Option, none, some, List, [], ◌∷◌, ltb, ◌==◌, keep,
  if◌then◌else◌,
}
use go_ddd_core.Pagination.{Text}

-- The character of a number below 64: A-Z, a-z, 0-9, -, _.
unfoldable pub to_char : ℕ → ℕ
to_char n =
    if ltb n 26
    then n + 65
    else (if ltb n 52
        then n + 71
        else (if ltb n 62 then n - 52 + 48 else (if n == 62 then 45 else 95)))

abbrev between : ℕ → ℕ → ℕ → Bool
between lo hi c = not (ltb c lo || ltb hi c)

unfoldable pub from_char : ℕ → Option ℕ
from_char c =
    if between 65 90 c
    then some (c - 65)
    else (if between 97 122 c
        then some (c - 71)
        else (if between 48 57 c
            then some (c + 52 - 48)
            else (if c == 45 then some 62 else (if c == 95 then some 63 else none))))

-- Three bytes are four numbers below 64; one or two bytes at the end are two or three.
unfoldable pub split : Text → List ℕ
split [] = []
split (x ∷ []) = x / 4 ∷ (x % 4) * 16 ∷ []
split (x ∷ y ∷ []) = x / 4 ∷ ((x % 4) * 16 + y / 16) ∷ (y % 16) * 4 ∷ []
split (x ∷ y ∷ z ∷ r) = x / 4 ∷ ((x % 4) * 16 + y / 16) ∷ ((y % 16) * 4 + z / 64) ∷ z % 64 ∷ split r

-- `RawURLEncoding.EncodeToString`
unfoldable pub to_chars : List ℕ → Text
to_chars [] = []
to_chars (n ∷ ns) = to_char n ∷ to_chars ns

unfoldable pub encode : Text → Text
encode bs = to_chars (split bs)

-- The bytes of the numbers: none for a single number at the end.
unfoldable pub merge : List ℕ → Option Text
merge [] = some []
merge (a ∷ []) = none
merge (a ∷ b ∷ []) = some ((a * 4 + b / 16) ∷ [])
merge (a ∷ b ∷ c ∷ []) = some ((a * 4 + b / 16) ∷ ((b % 16) * 16 + c / 4) ∷ [])
merge (a ∷ b ∷ c ∷ d ∷ r) = elim (merge r) [
  | none ↦ none
  | some bs ↦ some ((a * 4 + b / 16) ∷ ((b % 16) * 16 + c / 4) ∷ ((c % 4) * 64 + d) ∷ bs)
]

unfoldable pub from_chars : Text → Option (List ℕ)
from_chars [] = some []
from_chars (c ∷ cs) = elim (from_char c) [
  | none ↦ none
  | some n ↦ elim (from_chars cs) [ none ↦ none | some ns ↦ some (n ∷ ns) ]
]

abbrev pub is_line_break : ℕ → Bool
is_line_break c = c == 10 || c == 13

abbrev pub merge_found : Option (List ℕ) → Option Text
merge_found none = none
merge_found (some ns) = merge ns

-- `RawURLEncoding.DecodeString`
unfoldable pub decode : Text → Option Text
decode cs = merge_found (from_chars (keep (λ c. not (is_line_break c)) cs))
