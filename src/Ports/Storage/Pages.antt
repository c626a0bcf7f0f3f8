-- ===== src/Ports/Storage/Pages.antt =====
-- A page of the reference store's List (the second loop of List in
-- ports/storage/storagetest/reference.go), by what its token skips.
use go_ddd_core.Prelude.{
  ℕ, zero, suc, ◌+◌, ◌-◌, ◌≤◌, ◌<◌, String, true, false, ◌≡◌, refl, ap, ◌∙◌, List, [], ◌∷◌, ◌++◌,
  map, append_assoc, append-nil, length, length-append, str_eq, All, ◌==◌, arith,
}
use go_ddd_core.Prelude.TextOrder.{IsBefore, text_le-IsBefore, text_le_refl, not_le-IsBefore}
use go_ddd_core.Ports.Storage.{ObjectInfo}
use go_ddd_core.Ports.Storage.Reference.{MemStorage, page_loop, page_of, key_at, skipped, list_info}

pub All-append :
    (P : String → Type 0) (xs ys : List String) → All P xs → All P ys → All P (xs ++ ys)
All-append P [] ys p q = q
All-append P (x ∷ xs) ys (p, ps) q = (p, All-append P xs ys ps q)

All-append_right : (P : String → Type 0) (xs ys : List String) → All P (xs ++ ys) → All P ys
All-append_right P [] ys q = q
All-append_right P (x ∷ xs) ys (p, q) = All-append_right P xs ys q

pub split_at :
    (i : ℕ) (ks : List String)
    → suc i < length ks
    → (xs : List String) × (y : String) × (z : String) × (zs : List String) × ((ks
          ≡ (xs ++ y ∷ []) ++ z ∷ zs)
        × (length xs ≡ i))
split_at i [] h = absurd (omega (arith, h))
split_at zero (y ∷ []) h = absurd (omega (arith, h))
split_at zero (y ∷ z ∷ zs) h = ([], y, z, zs, (refl, refl))
split_at (suc i) (k ∷ ks) h =
    let (xs, y, z, zs, (e, l)) = split_at i ks (omega (arith, h)) in
    (k ∷ xs, y, z, zs, (ap (λ t. k ∷ t) e, omega (arith, l)))

module _ (m : MemStorage) (token : String) (limit : ℕ) where
  pub page_loop-skipped :
      (os : List ObjectInfo) (us ks : List String)
      → All (λ k. skipped token k ≡ true) us
      → page_loop m token limit os (us ++ ks) ≡ page_loop m token limit os ks
  unfolding page_loop
  page_loop-skipped os [] ks s = refl
  page_loop-skipped os (u ∷ us) ks (h, s) = rw (h, page_loop) (page_loop-skipped os us ks s)

  page_loop_next :
      (os : List ObjectInfo) (k : String) (ks : List String)
      → skipped token k ≡ false
      → length os < limit
      → page_loop m token limit os (k ∷ ks) ≡ page_loop m token limit (os ++ list_info m k ∷ []) ks
  unfolding page_loop
  page_loop_next os k ks h l = rw (h, page_loop, not_full) refl
    where
      not_full : (length os == limit) ≡ false
      not_full = ground arith

  pub page_loop_last :
      (os : List ObjectInfo) (ks : List String)
      → All (λ k. skipped token k ≡ false) ks
      → length os + length ks ≤ limit
      → page_loop m token limit os ks ≡ page_of (os ++ map (list_info m) ks) ""
  unfolding page_loop
  page_loop_last os [] s l = rw (append-nil os) refl
  page_loop_last os (k ∷ ks) (h, s) l =
      page_loop_next os k ks h (omega (arith, l))
      ∙ page_loop_last (os ++ list_info m k ∷ []) ks s
          (omega (arith, l, length-append os (list_info m k ∷ [])))
      ∙ rw (append_assoc os (list_info m k ∷ []) (map (list_info m) ks)) refl

  pub page_loop_full :
      (os : List ObjectInfo) (xs : List String) (z : String) (zs : List String)
      → All (λ k. skipped token k ≡ false) (xs ++ z ∷ zs)
      → length os + length xs ≡ limit
      → page_loop m token limit os (xs ++ z ∷ zs)
        ≡ page_of (os ++ map (list_info m) xs) (key_at (os ++ map (list_info m) xs) (limit - 1))
  unfolding page_loop
  page_loop_full os [] z zs (h, s) l = rw (h, page_loop, full, append-nil os) refl
    where
      full : (length os == limit) ≡ true
      full = ground arith
  page_loop_full os (x ∷ xs) z zs (h, s) l =
      page_loop_next os x (xs ++ z ∷ zs) h (omega (arith, l))
      ∙ page_loop_full (os ++ list_info m x ∷ []) xs z zs s
          (omega (arith, l, length-append os (list_info m x ∷ [])))
      ∙ rw (append_assoc os (list_info m x ∷ []) (map (list_info m) xs)) refl

pub map-append :
    (m : MemStorage) (xs ys : List String)
    → map (list_info m) (xs ++ ys) ≡ map (list_info m) xs ++ map (list_info m) ys
map-append m [] ys = refl
map-append m (x ∷ xs) ys = ap (λ t. list_info m x ∷ t) (map-append m xs ys)

pub key_at_last :
    (m : MemStorage) (xs : List String) (y : String)
    → key_at (map (list_info m) (xs ++ y ∷ [])) (length xs) ≡ y
key_at_last m [] y = refl
key_at_last m (x ∷ xs) y = key_at_last m xs y

pub skipped_before : (y k : String) → str_eq y "" ≡ false → IsBefore k y → skipped y k ≡ true
skipped_before y k n b = rw (n, skipped, text_le-IsBefore k y b) refl

pub skipped_self : (y : String) → str_eq y "" ≡ false → skipped y y ≡ true
skipped_self y n = rw (n, skipped, text_le_refl y) refl

pub skipped_after : (y k : String) → str_eq y "" ≡ false → IsBefore y k → skipped y k ≡ false
skipped_after y k n b = rw (n, skipped, not_le-IsBefore k y b) refl
