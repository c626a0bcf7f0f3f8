-- ===== src/Ports/Storage/Objects.antt =====
-- The reference store of ports/storage/storagetest/reference.go: its invariant, and what the calls tell
-- of each other.
use Prim.Native.String.{len}
use go_ddd_core.Prelude.{
  ℕ, String, false, if◌then◌else◌, ◌≡◌, ◌≢◌, refl, subst, inl, inr, none, some, List, [], ◌∷◌, map,
  str_eq, eq_iff, Bool-cases, Option-cases, All, arith,
}
use go_ddd_core.Prelude.Int.{ℤ, pos, ltb_ℤ}
use go_ddd_core.Prelude.Dict.{Dict, lookup, insert, erase, lookup-insert, lookup-erase}
use go_ddd_core.Prelude.Sorting.{IsDistinct}
use go_ddd_core.Errors.{Error}
use go_ddd_core.Ports.Contexts.{Context, live, context_error}
use go_ddd_core.Ports.Storage.{
  PutOptions, Reader, reads, breaks, StorageCall, storage_step, put, get, stat, delete, list,
}
use go_ddd_core.Ports.Storage.Reference.{
  MemStorage, mem_storage, mem_put, mem_stat, mem_get, mem_delete, put_read, put_body, size_differs,
  stored_object,
}

abbrev pub keys : {V : Type 0} → Dict V → List String
keys d = map (λ e. e.0) d

-- No key twice, as in a Go map, and no empty key.
abbrev pub IsWf : MemStorage → Type 0
IsWf m = IsDistinct (keys m) × All (λ k. k ≢ "") (keys m)

pub str_eq-differs : (j k : String) → str_eq j k ≡ false → j ≢ k
str_eq-differs j k h e = cc ((eq_iff j k).1 e, h)

module _ {V : Type 0} where
  insert-All :
      (P : String → Type 0) (k : String) (v : V) (d : Dict V)
      → P k
      → All P (keys d)
      → All P (keys (insert k v d))
  unfolding insert
  insert-All P k v [] p q = (p, tt)
  insert-All P k v ((j, w) ∷ d) p (q, r) = elim (Bool-cases (str_eq j k)) [
    | inl h ↦ rw (h, if◌then◌else◌) (p, r)
    | inr h ↦ rw (h, if◌then◌else◌) (q, insert-All P k v d p r)
  ]

  insert-IsDistinct :
      (k : String) (v : V) (d : Dict V) → IsDistinct (keys d) → IsDistinct (keys (insert k v d))
  unfolding insert
  insert-IsDistinct k v [] t = (tt, tt)
  insert-IsDistinct k v ((j, w) ∷ d) (n, t) = elim (Bool-cases (str_eq j k)) [
    | inl h ↦ rw (h, if◌then◌else◌) (subst (λ i. All (λ x. i ≢ x) (keys d)) ((eq_iff j k).0 h) n, t)
    | inr h ↦
        rw (h, if◌then◌else◌)
          (insert-All (λ x. j ≢ x) k v d (str_eq-differs j k h) n, insert-IsDistinct k v d t)
  ]

  erase-All :
      (P : String → Type 0) (k : String) (d : Dict V) → All P (keys d) → All P (keys (erase k d))
  unfolding erase
  erase-All P k [] q = tt
  erase-All P k ((j, w) ∷ d) (q, r) = elim (Bool-cases (str_eq j k)) [
    | inl h ↦ rw (h, if◌then◌else◌) (erase-All P k d r)
    | inr h ↦ rw (h, if◌then◌else◌) (q, erase-All P k d r)
  ]

  erase-IsDistinct : (k : String) (d : Dict V) → IsDistinct (keys d) → IsDistinct (keys (erase k d))
  unfolding erase
  erase-IsDistinct k [] t = tt
  erase-IsDistinct k ((j, w) ∷ d) (n, t) = elim (Bool-cases (str_eq j k)) [
    | inl h ↦ rw (h, if◌then◌else◌) (erase-IsDistinct k d t)
    | inr h ↦ rw (h, if◌then◌else◌) (erase-All (λ x. j ≢ x) k d n, erase-IsDistinct k d t)
  ]

module _ (quoted : String → String) (mismatch : ℤ → ℕ → String) (now : ℕ) where
  put_read-IsWf :
      (key : String) (size : ℤ) (opts : PutOptions) (bytes : String) (m : MemStorage)
      → key ≢ ""
      → IsWf m
      → IsWf (put_read quoted mismatch now key size opts bytes m).0
  put_read-IsWf key size opts bytes m n (d, a) = elim (Bool-cases (size_differs (len bytes) size)) [
    | inl h ↦ rw (h, put_read) (d, a)
    | inr h ↦ rw (h, put_read) (insert-IsDistinct key _ m d, insert-All (λ k. k ≢ "") key _ m n a)
  ]

  put_body-IsWf :
      (key : String) (body : Reader) (size : ℤ) (opts : PutOptions) (m : MemStorage)
      → key ≢ ""
      → IsWf m
      → IsWf (put_body quoted mismatch now key body size opts m).0
  put_body-IsWf key (reads bytes) size opts m n w = put_read-IsWf key size opts bytes m n w
  put_body-IsWf key (breaks e) size opts m n w = w

  mem_put-IsWf :
      (ctx : Context) (key : String) (body : Reader) (size : ℤ) (opts : PutOptions) (m : MemStorage)
      → IsWf m
      → IsWf (mem_put quoted mismatch now ctx key body size opts m).0
  unfolding mem_put
  mem_put-IsWf ctx key body size opts m w = elim (Bool-cases (str_eq key "")) [
    | inl h ↦ rw (h, mem_put) w
    | inr h ↦ elim (Bool-cases (ltb_ℤ size (pos 0))) [
      | inl n ↦ rw (h, n, mem_put) w
      | inr n ↦ elim (Option-cases (context_error ctx)) [
        | inr (e, c) ↦ rw (h, n, c, mem_put) w
        | inl c ↦
            rw (h, n, c, mem_put) (put_body-IsWf key body size opts m (str_eq-differs key "" h) w)
      ]
    ]
  ]

mem_delete-IsWf :
    (ctx : Context) (key : String) (m : MemStorage) → IsWf m → IsWf (mem_delete ctx key m).0
unfolding mem_delete
mem_delete-IsWf ctx key m w = elim (Bool-cases (str_eq key "")) [
  | inl h ↦ rw (h, mem_delete) w
  | inr h ↦ elim (Option-cases (context_error ctx)) [
    | inr (e, c) ↦ rw (h, c, mem_delete) w
    | inl c ↦ rw (h, c, mem_delete) (erase-IsDistinct key m w.0, erase-All (λ k. k ≢ "") key m w.1)
  ]
]

-- Every call of the reference store, with whatever arguments and outcome, keeps its keys distinct and
-- not empty.
pub storage_step-IsWf :
    (quoted : String → String) (mismatch : ℤ → ℕ → String) (now : ℕ) (c : StorageCall)
    (m : MemStorage)
    → IsWf m
    → IsWf (storage_step (mem_storage quoted mismatch now) c m).0
storage_step-IsWf quoted mismatch now (put ctx key body size opts) m w =
    mem_put-IsWf quoted mismatch now ctx key body size opts m w
storage_step-IsWf quoted mismatch now (get ctx key) m w = w
storage_step-IsWf quoted mismatch now (stat ctx key) m w = w
storage_step-IsWf quoted mismatch now (delete ctx key) m w = mem_delete-IsWf ctx key m w
storage_step-IsWf quoted mismatch now (list ctx opts) m w = w

module _ (quoted : String → String) (mismatch : ℤ → ℕ → String) (now : ℕ) where
  -- A Put that returns an error has changed nothing.
  mem_put_refused :
      (ctx : Context) (key : String) (body : Reader) (size : ℤ) (opts : PutOptions) (m : MemStorage)
      (e : Error)
      → (mem_put quoted mismatch now ctx key body size opts m).1 ≡ some e
      → (mem_put quoted mismatch now ctx key body size opts m).0 ≡ m
  unfolding mem_put
  mem_put_refused ctx key body size opts m e h = ground arith

  mem_put_accepted :
      (key bytes : String) (opts : PutOptions) (m : MemStorage)
      → str_eq key "" ≡ false
      → mem_put quoted mismatch now live key (reads bytes) (pos (len bytes)) opts m
        ≡ (insert key (stored_object now opts bytes) m, none)
  unfolding mem_put
  mem_put_accepted key bytes opts m h = ground arith

  -- What Get reads after a Put that declares the size of its body: the Put succeeds, its key has the
  -- bytes of the body and their number, the options' metadata, the options' content type (an empty one
  -- is application/octet-stream), the time of the Put and no etag, and each other key what it had.
  pub mem_get-mem_put :
      (key k bytes : String) (opts : PutOptions) (m : MemStorage)
      → str_eq key "" ≡ false
      → str_eq k "" ≡ false
      → (let (m', e) =
            mem_put quoted mismatch now live key (reads bytes) (pos (len bytes)) opts m in
          (e ≡ none)
          × (mem_get quoted mismatch now live k m' ≡ (
              if str_eq key k
              then (
                bytes,
                record {
                  key = k;
                  size = pos (len bytes);
                  content_type =
                      if str_eq opts.content_type ""
                      then "application/octet-stream"
                      else opts.content_type;
                  etag = "";
                  updated_at = now;
                  metadata = opts.metadata;
                },
                none,
              )
              else mem_get quoted mismatch now live k m)))
  unfolding mem_get mem_stat
  mem_get-mem_put key k bytes opts m h n =
      rw (mem_put_accepted key bytes opts m h)
        (refl, ground (arith, lookup-insert key k (stored_object now opts bytes) m))

  -- What Stat says after a Delete: the Delete succeeds, its key is not found, and each other key has
  -- what it had.
  mem_stat-mem_delete :
      (key k : String) (m : MemStorage)
      → str_eq key "" ≡ false
      → str_eq k "" ≡ false
      → (let (m', e) = mem_delete live key m in
          (e ≡ none)
          × (mem_stat quoted mismatch now live k m' ≡ (
              if str_eq key k
              then mem_stat quoted mismatch now live k []
              else mem_stat quoted mismatch now live k m)))
  unfolding mem_delete mem_stat lookup
  mem_stat-mem_delete key k m h n = ground (arith, lookup-erase key k m)
