-- ===== src/Ports/Storage/Walk.antt =====
-- The walk over the pages of the reference store's List: from the first page, by each page's NextToken,
-- to the page that has none.
use mathlib.Core.List.{Mem}
use mathlib.Core.List.Perm
use text.Mathlib.Text.{starts_with}
use text.Mathlib.TextBridge.{IsPrefix}
use go_ddd_core.Prelude.{
  ℕ, zero, suc, ◌-◌, ◌<◌, String, true, false, ◌≡◌, ◌≢◌, ◌↔◌, refl, sym, ap, ◌∙◌, subst, inl, inr,
  Option, none, some, List, [], ◌∷◌, ◌++◌, map, append_assoc, length, length-append, length-keep,
  str_eq, eq_iff, Bool-cases, All, arith, ltb, ltb→lt,
}
use go_ddd_core.Prelude.Int.{ℤ, pos}
use go_ddd_core.Prelude.Sorting.{
  IsDistinct, IsAscending, IsAscending-split, All-map, All-middle, keep-IsDistinct, sort_strings,
  sort_strings-All, sort_strings-IsAscending, sort_strings-Perm, length-sort_strings, keep-All,
}
use go_ddd_core.Prelude.TextOrder.{IsBefore}
use go_ddd_core.Errors.{Error}
use go_ddd_core.Ports.Contexts.{live}
use go_ddd_core.Ports.Storage.{ObjectInfo, ListOptions, ListPage}
use go_ddd_core.Ports.Storage.Reference.{
  MemStorage, mem_list, matching_keys, page_loop, page_of, key_at, skipped, list_info,
}
use go_ddd_core.Ports.Storage.Objects.{keys, IsWf}
use go_ddd_core.Ports.Storage.Prefix.{matching_keys-Mem}
use go_ddd_core.Ports.Storage.Pages.{
  All-append, split_at, page_loop-skipped, page_loop_last, page_loop_full, map-append, key_at_last,
  skipped_before, skipped_self, skipped_after,
}

abbrev list_options : String → String → ℤ → ListOptions
list_options prefix token limit = record { prefix = prefix; token = token; limit = limit }

abbrev and_then : List ObjectInfo → Option (List ObjectInfo) → Option (List ObjectInfo)
and_then os none = none
and_then os (some rest) = some (os ++ rest)

abbrev after_page :
    ListPage × Option Error → (String → Option (List ObjectInfo)) → Option (List ObjectInfo)
after_page (page, some e) next = none
after_page (page, none) next = elim (str_eq page.next_token "") [
  | true ↦ some page.objects
  | false ↦ and_then page.objects (next page.next_token)
]

after_page_goes :
    (os : List ObjectInfo) (y : String) (rest : List ObjectInfo)
    (next : String → Option (List ObjectInfo))
    → str_eq y "" ≡ false
    → next y ≡ some rest
    → after_page (page_of os y, none) next ≡ some (os ++ rest)
after_page_goes os y rest next f r = rw (f, after_page, r) refl

-- The objects of the pages from the one that `token` asks for, over at most `n` pages; none for an
-- error or a walk that has not ended.
unfoldable pub walk : ℕ → String → String → ℤ → MemStorage → Option (List ObjectInfo)
walk zero prefix token limit m = none
walk (suc n) prefix token limit m =
    after_page (mem_list live (list_options prefix token limit) m)
      (λ next. walk n prefix next limit m)

abbrev all_keys : MemStorage → String → List String
all_keys m prefix = sort_strings (matching_keys prefix m)

module _ (m : MemStorage) (prefix : String) (i : ℕ) where
  mem_list_page :
      (token : String)
      → mem_list live (list_options prefix token (pos (suc i))) m
        ≡ (page_loop m token (suc i) [] (all_keys m prefix), none)
  unfolding mem_list
  mem_list_page token = ground arith

  walk_ends :
      (n : ℕ) (token : String) (os : List ObjectInfo)
      → page_loop m token (suc i) [] (all_keys m prefix) ≡ page_of os ""
      → walk (suc n) prefix token (pos (suc i)) m ≡ some os
  unfolding walk
  walk_ends n token os h = rw (walk, mem_list_page token, h) refl

  walk_goes :
      (n : ℕ) (token y : String) (os rest : List ObjectInfo)
      → page_loop m token (suc i) [] (all_keys m prefix) ≡ page_of os y
      → str_eq y "" ≡ false
      → walk n prefix y (pos (suc i)) m ≡ some rest
      → walk (suc n) prefix token (pos (suc i)) m ≡ some (os ++ rest)
  unfolding walk
  walk_goes n token y os rest h f r =
      rw (walk, mem_list_page token, h)
        (after_page_goes os y rest (λ next. walk n prefix next (pos (suc i)) m) f r)

  page_at :
      (token : String) (us ks : List String)
      → all_keys m prefix ≡ us ++ ks
      → All (λ k. skipped token k ≡ true) us
      → page_loop m token (suc i) [] (all_keys m prefix) ≡ page_loop m token (suc i) [] ks
  page_at token us ks e sk = rw e (page_loop-skipped m token (suc i) [] us ks sk)

  page_full :
      (token : String) (us xs : List String) (y z : String) (zs : List String)
      → all_keys m prefix ≡ us ++ ((xs ++ y ∷ []) ++ z ∷ zs)
      → All (λ k. skipped token k ≡ true) us
      → All (λ k. skipped token k ≡ false) ((xs ++ y ∷ []) ++ z ∷ zs)
      → length xs ≡ i
      → page_loop m token (suc i) [] (all_keys m prefix)
        ≡ page_of (map (list_info m) (xs ++ y ∷ [])) y
  page_full token us xs y z zs e sk rest l =
      page_at token us ((xs ++ y ∷ []) ++ z ∷ zs) e sk
      ∙ page_loop_full m token (suc i) [] (xs ++ y ∷ []) z zs rest
          (omega (arith, l, length-append xs (y ∷ [])))
      ∙ ap (page_of (map (list_info m) (xs ++ y ∷ [])))
          (ap (key_at (map (list_info m) (xs ++ y ∷ []))) last ∙ key_at_last m xs y)
    where
      last : suc i - 1 ≡ length xs
      last = omega (arith, l)

-- The keys that the token `y` skips, where `y` is one of an ascending list of keys, none empty.
token_splits :
    (us : List String) (y : String) (zs : List String)
    → str_eq y "" ≡ false
    → IsAscending (us ++ y ∷ zs)
    → All (λ k. skipped y k ≡ true) (us ++ y ∷ []) × All (λ k. skipped y k ≡ false) zs
token_splits us y zs n asc =
    let (before, after) = IsAscending-split us y zs asc in
    (
      All-append (λ k. skipped y k ≡ true) us (y ∷ [])
          (All-map (λ k. IsBefore k y) (λ k. skipped y k ≡ true) (λ k b. skipped_before y k n b) us
            before)
          (skipped_self y n, tt),
      All-map (λ k. IsBefore y k) (λ k. skipped y k ≡ false) (λ k b. skipped_after y k n b) zs
          after,
    )

regroup :
    (us xs : List String) (y : String) (ws : List String)
    → us ++ ((xs ++ y ∷ []) ++ ws) ≡ (us ++ xs) ++ y ∷ ws
regroup us xs y ws = rw (append_assoc xs (y ∷ []) ws, append_assoc us xs (y ∷ ws)) refl

shorter :
    (ks xs : List String) (y : String) (ws : List String) (n : ℕ)
    → ks ≡ (xs ++ y ∷ []) ++ ws
    → length ks < suc n
    → length ws < n
shorter ks xs y ws n e l =
    omega (arith, l, ap length e, length-append (xs ++ y ∷ []) ws, length-append xs (y ∷ []))

regroup_left :
    (us : List String) (y : String) (ws : List String) → us ++ y ∷ ws ≡ (us ++ y ∷ []) ++ ws
regroup_left us y ws = rw (append_assoc us (y ∷ []) ws) refl

module _ (m : MemStorage) (prefix : String) (i : ℕ) (asc : IsAscending (all_keys m prefix))
    (full : All (λ k. str_eq k "" ≡ false) (all_keys m prefix)) where
  -- What is left of the walk: the keys `ks` after those that `token` skips.
  walk_from :
      (n : ℕ) (token : String) (us ks : List String)
      → all_keys m prefix ≡ us ++ ks
      → All (λ k. skipped token k ≡ true) us
      → All (λ k. skipped token k ≡ false) ks
      → length ks < n
      → walk n prefix token (pos (suc i)) m ≡ some (map (list_info m) ks)
  walk_from zero token us ks e sk rest l = absurd (omega (arith, l))
  walk_from (suc n) token us ks e sk rest l = elim (Bool-cases (ltb (suc i) (length ks))) [
    | inr h ↦ walk_ends m prefix i n token (map (list_info m) ks) (
        page_at m prefix i token us ks e sk
        ∙ page_loop_last m token (suc i) [] ks rest (ground arith))
    | inl h ↦
        let (xs, y, z, zs, (k, x)) = split_at i ks (ltb→lt (suc i) (length ks) h) in
        let e' = e ∙ ap (λ t. us ++ t) k in
        let at_y = e' ∙ regroup us xs y (z ∷ zs) in
        let y_full =
          All-middle (λ k. str_eq k "" ≡ false) (us ++ xs) y (z ∷ zs)
            (subst (All (λ k. str_eq k "" ≡ false)) at_y full) in
        let (before, after) =
          token_splits (us ++ xs) y (z ∷ zs) y_full (subst IsAscending at_y asc) in
        walk_goes m prefix i n token y (map (list_info m) (xs ++ y ∷ []))
          (map (list_info m) (z ∷ zs))
          (page_full m prefix i token us xs y z zs e' sk
            (subst (All (λ k. skipped token k ≡ false)) k rest) x)
          y_full
          (walk_from n y ((us ++ xs) ++ y ∷ []) (z ∷ zs) (at_y ∙ regroup_left (us ++ xs) y (z ∷ zs))
            before after (shorter ks xs y (z ∷ zs) n k l))
        ∙ ap some (sym (map-append m (xs ++ y ∷ []) (z ∷ zs)) ∙ ap (map (list_info m)) (sym k))
  ]

keys_of_infos : (m : MemStorage) (ks : List String) → map (λ o. o.key) (map (list_info m) ks) ≡ ks
keys_of_infos m [] = refl
keys_of_infos m (k ∷ ks) = ap (λ t. k ∷ t) (keys_of_infos m ks)

length-keys : (m : MemStorage) → length (keys m) ≡ length m
length-keys [] = refl
length-keys (x ∷ m) = ap suc (length-keys m)

differs-str_eq : (k : String) → k ≢ "" → str_eq k "" ≡ false
differs-str_eq k n = elim (Bool-cases (str_eq k "")) [
  | inl h ↦ absurd (n ((eq_iff k "").0 h))
  | inr h ↦ h
]

all_keys_full :
    (m : MemStorage) (prefix : String)
    → All (λ k. k ≢ "") (keys m)
    → All (λ k. str_eq k "" ≡ false) (all_keys m prefix)
unfolding matching_keys
all_keys_full m prefix a =
    All-map (λ k. k ≢ "") (λ k. str_eq k "" ≡ false) differs-str_eq (all_keys m prefix)
      (sort_strings-All (λ k. k ≢ "") (matching_keys prefix m)
        (keep-All (λ k. k ≢ "") (λ k. starts_with k prefix) (keys m) a))

all_keys-IsAscending :
    (m : MemStorage) (prefix : String) → IsDistinct (keys m) → IsAscending (all_keys m prefix)
unfolding matching_keys
all_keys-IsAscending m prefix d =
    sort_strings-IsAscending (matching_keys prefix m)
      (keep-IsDistinct (λ k. starts_with k prefix) (keys m) d)

length-all_keys : (m : MemStorage) (prefix : String) → length (all_keys m prefix) < suc (length m)
unfolding matching_keys
length-all_keys m prefix = omega (
  arith,
  length-sort_strings (matching_keys prefix m),
  length-keep (λ k. starts_with k prefix) (keys m),
  length-keys m,
)

none_skipped : (ks : List String) → All (λ k. skipped "" k ≡ false) ks
none_skipped [] = tt
none_skipped (k ∷ ks) = (refl, none_skipped ks)

-- The walk of List's documentation, by the reference store: from the first page, with any positive
-- limit, it ends within one page more than the store has keys, without an error; a key is among the
-- objects that it yields exactly if it is in the store and is the prefix with some text after it; and
-- the keys ascend, so that each comes once.
pub walk_complete :
    (m : MemStorage) (prefix : String) (i : ℕ)
    → IsWf m
    → (os : List ObjectInfo) × ((walk (suc (length m)) prefix "" (pos (suc i)) m ≡ some os)
        × ((k : String) → Mem k (map (λ o. o.key) os) ↔ (Mem k (keys m) × IsPrefix prefix k))
        × IsAscending (map (λ o. o.key) os))
walk_complete m prefix i (d, a) =
    let ks = all_keys m prefix in
    let asc = all_keys-IsAscending m prefix d in
    let same = sort_strings-Perm (matching_keys prefix m) in
    (
      map (list_info m) ks,
      (
        walk_from m prefix i asc (all_keys_full m prefix a) (suc (length m)) "" [] ks refl tt
            (none_skipped ks) (length-all_keys m prefix),
        λ k. rw (keys_of_infos m ks) (
          λ h. (matching_keys-Mem m prefix k).0 ((Perm.mem_iff same).0 h),
          λ h. (Perm.mem_iff same).1 ((matching_keys-Mem m prefix k).1 h),
        ),
        rw (keys_of_infos m ks) asc,
      ),
    )
