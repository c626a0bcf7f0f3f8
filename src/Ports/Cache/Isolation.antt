-- ===== src/Ports/Cache/Isolation.antt =====
-- The reference cache of ports/cache/cachetest/reference_test.go, seen as a map from keys to bytes that
-- no write of a caller reaches.
use go_ddd_core.Prelude.{
  ℕ, suc, ◌<◌, String, Bool, true, false, if◌then◌else◌, ◌≡◌, ◌≢◌, refl, ◌∙◌, ap, subst, inl, inr,
  Option, none, some, List, [], ◌∷◌, str_eq, Bool-cases, Option-cases, All, arith,
}
use go_ddd_core.Prelude.Int.{ℤ, pos, ltb_ℤ}
use go_ddd_core.Prelude.Dict.{lookup, insert, lookup-insert}
use go_ddd_core.Ports.Contexts.{live}
use go_ddd_core.Ports.Slices.{Slices, alloc, with_bytes, write_byte, read_slice}
use go_ddd_core.Ports.Cache.Reference.{RefCache, ref_get, ref_set}

-- The bytes of a key.
abbrev pub value_at : String → RefCache × Slices → Option (List ℕ)
value_at key (m, h) = elim (lookup key m) [ none ↦ none | some v ↦ some (h.bytes v) ]

-- The cache's slices have been made, and a slice that is not the cache's.
abbrev pub IsOwned : RefCache × Slices → Type 0
IsOwned (m, h) = All (λ e. e.1 < h.next) m

abbrev pub IsForeign : ℕ → RefCache → Type 0
IsForeign r m = All (λ e. e.1 ≢ r) m

-- A caller's writes: the slice, the index and the byte of each.
abbrev pub write_all : List (ℕ × ℕ × ℕ) → Slices → Slices
write_all [] h = h
write_all ((r, i, b) ∷ ws) h = write_all ws (write_byte r i b h)

-- A caller's writes to one slice: the index and the byte of each.
abbrev pub write_slice : Option ℕ → List (ℕ × ℕ) → Slices → Slices
write_slice none ws h = h
write_slice (some r) [] h = h
write_slice (some r) ((i, b) ∷ ws) h = write_slice (some r) ws (write_byte r i b h)

head_value :
    (b : Bool) (w v : ℕ) (o : Option ℕ) → b ≡ true → (if b then some w else o) ≡ some v → w ≡ v
head_value true w v o e h = cc h
head_value false w v o e h = cc e

tail_value :
    {v : ℕ} (b : Bool) (w : ℕ) (o : Option ℕ)
    → b ≡ false
    → (if b then some w else o) ≡ some v
    → o ≡ some v
tail_value true w o e h = cc e
tail_value false w o e h = h

lookup-All :
    (P : ℕ → Type 0) (key : String) (v : ℕ) (m : RefCache)
    → All (λ e. P e.1) m
    → lookup key m ≡ some v
    → P v
unfolding lookup
lookup-All P key v [] a h = cc h
lookup-All P key v ((j, w) ∷ m) (p, a) h = elim (Bool-cases (str_eq j key)) [
  | inl e ↦ subst P (head_value (str_eq j key) w v (lookup key m) e h) p
  | inr e ↦ lookup-All P key v m a (tail_value (str_eq j key) w (lookup key m) e h)
]

same_bytes : (h : Slices) (r j : ℕ) (bs : List ℕ) → j ≢ r → with_bytes r bs h j ≡ h.bytes j
same_bytes h r j bs n = ground (arith, n)

new_bytes : (h : Slices) (r : ℕ) (bs : List ℕ) → with_bytes r bs h r ≡ bs
new_bytes h r bs = ground arith

-- A heap that has the same bytes in the cache's slices gives the same values.
value_at_same :
    (key : String) (m : RefCache) (h h' : Slices)
    → All (λ e. h'.bytes e.1 ≡ h.bytes e.1) m
    → value_at key (m, h') ≡ value_at key (m, h)
value_at_same key m h h' a = elim (Option-cases (lookup key m)) [
  | inl l ↦ rw (value_at, l) refl
  | inr (v, l) ↦ rw (value_at, l) (ap some (lookup-All (λ j. h'.bytes j ≡ h.bytes j) key v m a l))
]

All-impl :
    (P Q : ℕ → Type 0) (f : (r : ℕ) → P r → Q r) (m : RefCache)
    → All (λ e. P e.1) m
    → All (λ e. Q e.1) m
All-impl P Q f [] a = tt
All-impl P Q f ((j, w) ∷ m) (p, a) = (f w p, All-impl P Q f m a)

insert-All :
    (P : ℕ → Type 0) (key : String) (v : ℕ) (m : RefCache)
    → P v
    → All (λ e. P e.1) m
    → All (λ e. P e.1) (insert key v m)
unfolding insert
insert-All P key v [] p a = (p, tt)
insert-All P key v ((j, w) ∷ m) p (q, a) = elim (Bool-cases (str_eq j key)) [
  | inl h ↦ rw (h, if◌then◌else◌) (p, a)
  | inr h ↦ rw (h, if◌then◌else◌) (q, insert-All P key v m p a)
]

write_byte_value :
    (key : String) (r i b : ℕ) (m : RefCache) (h : Slices)
    → IsForeign r m
    → value_at key (m, write_byte r i b h) ≡ value_at key (m, h)
write_byte_value key r i b m h a = value_at_same key m h (write_byte r i b h) (
    All-impl (λ j. j ≢ r) (λ j. (write_byte r i b h).bytes j ≡ h.bytes j)
      (λ j n. same_bytes h r j _ n) m a)

write_all_value :
    (key : String) (ws : List (ℕ × ℕ × ℕ)) (m : RefCache) (h : Slices)
    → All (λ w. IsForeign w.0 m) ws
    → value_at key (m, write_all ws h) ≡ value_at key (m, h)
write_all_value key [] m h a = refl
write_all_value key ((r, i, b) ∷ ws) m h (f, a) =
    write_all_value key ws m (write_byte r i b h) a ∙ write_byte_value key r i b m h f

write_slice_value :
    (key : String) (r : ℕ) (ws : List (ℕ × ℕ)) (m : RefCache) (h : Slices)
    → IsForeign r m
    → value_at key (m, write_slice (some r) ws h) ≡ value_at key (m, h)
write_slice_value key r [] m h f = refl
write_slice_value key r ((i, b) ∷ ws) m h f =
    write_slice_value key r ws m (write_byte r i b h) f ∙ write_byte_value key r i b m h f

next-IsForeign : (m : RefCache) (h : Slices) → IsOwned (m, h) → IsForeign h.next m
next-IsForeign m h o =
    All-impl (λ j. j < h.next) (λ j. j ≢ h.next) (λ j l e. omega (arith, l, e)) m o

alloc_value :
    (key : String) (bs : List ℕ) (m : RefCache) (h : Slices)
    → IsOwned (m, h)
    → value_at key (m, (alloc bs h).1) ≡ value_at key (m, h)
alloc_value key bs m h o = value_at_same key m h (alloc bs h).1 (
    All-impl (λ j. j ≢ h.next) (λ j. (alloc bs h).1.bytes j ≡ h.bytes j)
      (λ j n. same_bytes h h.next j bs n) m (next-IsForeign m h o))

insert_value :
    (key k : String) (bs : List ℕ) (m : RefCache) (h : Slices)
    → IsOwned (m, h)
    → value_at k (insert key h.next m, (alloc bs h).1)
      ≡ (if str_eq key k then some bs else value_at k (m, h))
insert_value key k bs m h o = elim (Bool-cases (str_eq key k)) [
  | inl e ↦
      rw (value_at, lookup-insert key k h.next m, e, if◌then◌else◌)
        (ap some (new_bytes h h.next bs))
  | inr e ↦ rw (value_at, lookup-insert key k h.next m, e, if◌then◌else◌) (alloc_value k bs m h o)
]

ref_set_stores :
    (key : String) (v : ℕ) (ttl : ℤ) (m : RefCache) (h : Slices)
    → str_eq key "" ≡ false
    → ltb_ℤ ttl (pos 0) ≡ false
    → ref_set live key v ttl (m, h) ≡ ((insert key h.next m, (alloc (h.bytes v) h).1), none)
unfolding ref_set
ref_set_stores key v ttl m h n t = ground arith

ref_get_found :
    (key : String) (v : ℕ) (m : RefCache) (h : Slices)
    → str_eq key "" ≡ false
    → lookup key m ≡ some v
    → ref_get live key (m, h) ≡ ((m, (alloc (h.bytes v) h).1), (some h.next, none))
unfolding ref_get
ref_get_found key v m h n l = ground arith

IsForeign-writes :
    (key : String) (m : RefCache) (h : Slices) (ws : List (ℕ × ℕ × ℕ))
    → All (λ w. (w.0 < h.next) × IsForeign w.0 m) ws
    → All (λ w. IsForeign w.0 (insert key h.next m)) ws
IsForeign-writes key m h [] a = tt
IsForeign-writes key m h ((r, i, b) ∷ ws) ((l, f), a) = (
  insert-All (λ j. j ≢ r) key h.next m (λ e. omega (arith, l, e)) f,
  IsForeign-writes key m h ws a,
)

missing_value :
    {bs : List ℕ} (o : Option ℕ) (h : Slices)
    → o ≡ none
    → elim o [ none ↦ none | some v ↦ some (h.bytes v) ] ≡ some bs
    → ⊥
missing_value none h l x = cc x
missing_value (some v) h l x = cc l

found_value :
    {bs : List ℕ} (o : Option ℕ) (v : ℕ) (h : Slices)
    → o ≡ some v
    → elim o [ none ↦ none | some u ↦ some (h.bytes u) ] ≡ some bs
    → h.bytes v ≡ bs
found_value none v h l x = cc l
found_value (some u) v h l x = cc (l, x)

-- A Set that is accepted stores the bytes that its slice has at that time: whatever the caller then
-- writes to that slice or to any other that is its own, the key keeps these bytes and every other key
-- what it had.
pub ref_set_isolated :
    (key k : String) (v : ℕ) (ttl : ℤ) (ws : List (ℕ × ℕ × ℕ)) (m : RefCache) (h : Slices)
    → str_eq key "" ≡ false
    → ltb_ℤ ttl (pos 0) ≡ false
    → IsOwned (m, h)
    → All (λ w. (w.0 < h.next) × IsForeign w.0 m) ws
    → (let ((m', h'), e) = ref_set live key v ttl (m, h) in
        (e ≡ none)
        × (value_at k (m', write_all ws h')
            ≡ (if str_eq key k then some (h.bytes v) else value_at k (m, h)))
        × IsOwned (m', h'))
ref_set_isolated key k v ttl ws m h n t o a = rw (ref_set_stores key v ttl m h n t) (
  refl,
  write_all_value k ws (insert key h.next m) (alloc (h.bytes v) h).1 (IsForeign-writes key m h ws a)
      ∙ insert_value key k (h.bytes v) m h o,
  insert-All (λ j. j < suc h.next) key h.next m (omega arith)
      (All-impl (λ j. j < h.next) (λ j. j < suc h.next) (λ j l. omega (arith, l)) m o),
)

-- A Get of a key that has bytes returns a slice with these bytes; whatever the caller then writes to
-- that slice, every key keeps what it had.
pub ref_get_isolated :
    (key k : String) (bs : List ℕ) (ws : List (ℕ × ℕ)) (m : RefCache) (h : Slices)
    → str_eq key "" ≡ false
    → IsOwned (m, h)
    → value_at key (m, h) ≡ some bs
    → (let ((m', h'), (out, e)) = ref_get live key (m, h) in
        (e ≡ none)
        × (read_slice out h' ≡ bs)
        × (value_at k (m', write_slice out ws h') ≡ value_at k (m, h))
        × IsOwned (m', h'))
ref_get_isolated key k bs ws m h n o x = elim (Option-cases (lookup key m)) [
  | inl l ↦ absurd (missing_value (lookup key m) h l x)
  | inr (v, l) ↦ rw (ref_get_found key v m h n l) (
    refl,
    new_bytes h h.next (h.bytes v) ∙ found_value (lookup key m) v h l x,
    write_slice_value k h.next ws m (alloc (h.bytes v) h).1 (next-IsForeign m h o)
        ∙ alloc_value k (h.bytes v) m h o,
    All-impl (λ j. j < h.next) (λ j. j < suc h.next) (λ j l. omega (arith, l)) m o,
  )
]
