-- ===== src/Ports/Storage/Reference.antt =====
-- ports/storage/storagetest/reference.go: the reference store, in memory. The texts that fmt makes and
-- the time that time.Now returns are parameters; maps.Clone and bytes.Clone copy values, which need no
-- copy here.
use Prim.Native.String.{◌++◌, len}
use text.Mathlib.Text.{starts_with}
use go_ddd_core.Prelude.{
  ℕ, zero, suc, String, Bool, true, false, ◌&&◌, not, Option, none, some, List, [], ◌∷◌,
  ◌++◌ as ◌+++◌, map, ◌-◌, length, keep, str_eq, ◌==◌,
}
use go_ddd_core.Prelude.Int.{ℤ, pos, negsuc, leb_ℤ, ltb_ℤ, pos_part}
use go_ddd_core.Prelude.Dict.{Dict, lookup, insert, erase}
use go_ddd_core.Prelude.Sorting.{sort_strings}
use go_ddd_core.Prelude.TextOrder.{text_le}
use go_ddd_core.Errors.{Error, wrapped, to_error}
use go_ddd_core.Errorsx
use go_ddd_core.Errorsx.{code_invalid_argument, code_unavailable}
use go_ddd_core.Ports.Contexts.{Context, context_error}
use go_ddd_core.Ports.Storage.{
  ObjectInfo, no_info, PutOptions, ListOptions, ListPage, no_page, Reader, reads, breaks,
  ObjectStorage, err_not_found,
}

pub record MemObject : Type 0 where
  pub data_bytes : String
  pub content_type : String
  pub metadata : Dict String
  pub updated_at : ℕ

-- `memStorage`, without its lock: each method is one critical section.
abbrev pub MemStorage : Type 0
MemStorage = Dict MemObject

-- `memObject{}`
abbrev pub no_object : MemObject
no_object = record { data_bytes = ""; content_type = ""; metadata = []; updated_at = 0 }

-- `m.objects[k]`
abbrev pub object_at : String → MemStorage → MemObject
object_at k m = elim (lookup k m) [ none ↦ no_object | some o ↦ o ]

abbrev pub err_empty_key : Error
err_empty_key = to_error (Errorsx.new code_invalid_argument "storagetest: empty key")

abbrev invalid : String → Error
invalid msg = to_error (Errorsx.new code_invalid_argument msg)

abbrev context_done : Error → Error
context_done e = to_error (Errorsx.wrap code_unavailable "storagetest: context done" e)

-- The content type that is stored for the one that is asked for.
abbrev pub effective_type : String → String
effective_type t = elim (str_eq t "") [ true ↦ "application/octet-stream" | false ↦ t ]

-- `int64(len(data)) != size`
abbrev pub size_differs : ℕ → ℤ → Bool
size_differs n (pos m) = not (n == m)
size_differs n (negsuc m) = true

abbrev pub info_of : String → MemObject → ObjectInfo
info_of key o = record {
  key = key;
  size = pos (len o.data_bytes);
  content_type = o.content_type;
  etag = "";
  updated_at = o.updated_at;
  metadata = o.metadata;
}

-- The object that `Put` stores.
abbrev pub stored_object : ℕ → PutOptions → String → MemObject
stored_object now opts bytes = record {
  data_bytes = bytes;
  content_type = effective_type opts.content_type;
  metadata = opts.metadata;
  updated_at = now;
}

module _ (quoted : String → String) (mismatch : ℤ → ℕ → String) (now : ℕ) where
  -- The end of `Put`, once the body has been read.
  abbrev pub put_read : String → ℤ → PutOptions → String → MemStorage → MemStorage × Option Error
  put_read key size opts bytes m = elim (size_differs (len bytes) size) [
    | true ↦ (m, some (invalid (mismatch size (len bytes))))
    | false ↦ (insert key (stored_object now opts bytes) m, none)
  ]

  abbrev pub put_body : String → Reader → ℤ → PutOptions → MemStorage → MemStorage × Option Error
  put_body key (reads bytes) size opts m = put_read key size opts bytes m
  put_body key (breaks e) size opts m =
      (m, some (to_error (Errorsx.wrap code_unavailable "storagetest: read body" e)))

  -- `m.Put(ctx, key, body, size, opts)`
  unfoldable pub mem_put :
      Context → String → Reader → ℤ → PutOptions → MemStorage → MemStorage × Option Error
  mem_put ctx key body size opts m = elim (str_eq key "") [
    | true ↦ (m, some err_empty_key)
    | false ↦ elim (ltb_ℤ size (pos 0)) [
      | true ↦ (m, some (invalid "storagetest: negative size"))
      | false ↦ elim (context_error ctx) [
        | some e ↦ (m, some (context_done e))
        | none ↦ put_body key body size opts m
      ]
    ]
  ]

  -- `m.Stat(ctx, key)`
  unfoldable pub mem_stat : Context → String → MemStorage → ObjectInfo × Option Error
  mem_stat ctx key m = elim (str_eq key "") [
    | true ↦ (no_info, some err_empty_key)
    | false ↦ elim (context_error ctx) [
      | some e ↦ (no_info, some (context_done e))
      | none ↦ elim (lookup key m) [
        | none ↦ (
          no_info,
          some (
              wrapped ("storagetest: " ++ quoted key ++ ": storage: object not found")
                err_not_found),
        )
        | some o ↦ (info_of key o, none)
      ]
    ]
  ]

  -- `m.Get(ctx, key)`
  unfoldable pub mem_get : Context → String → MemStorage → String × ObjectInfo × Option Error
  unfolding mem_stat
  mem_get ctx key m =
      let (info, e) = mem_stat ctx key m in
      elim e [ some e ↦ ("", no_info, some e) | none ↦ ((object_at key m).data_bytes, info, none) ]

-- `m.Delete(ctx, key)`
unfoldable pub mem_delete : Context → String → MemStorage → MemStorage × Option Error
mem_delete ctx key m = elim (str_eq key "") [
  | true ↦ (m, some err_empty_key)
  | false ↦ elim (context_error ctx) [
    | some e ↦ (m, some (context_done e))
    | none ↦ (erase key m, none)
  ]
]

-- The first loop of `List`: the keys with the prefix, in order.
unfoldable pub matching_keys : String → MemStorage → List String
matching_keys prefix m = keep (λ k. starts_with k prefix) (map (λ e. e.0) m)

abbrev pub list_info : MemStorage → String → ObjectInfo
list_info m k = record {
  key = k;
  size = pos (len (object_at k m).data_bytes);
  content_type = (object_at k m).content_type;
  etag = "";
  updated_at = (object_at k m).updated_at;
  metadata = [];
}

-- `opts.Token != "" && k <= opts.Token`
abbrev pub skipped : String → String → Bool
skipped token k = not (str_eq token "") && text_le k token

-- `page.Objects[i].Key`, in range
abbrev pub key_at : List ObjectInfo → ℕ → String
key_at [] i = ""
key_at (o ∷ os) zero = o.key
key_at (o ∷ os) (suc i) = key_at os i

abbrev pub page_of : List ObjectInfo → String → ListPage
page_of os next = record { objects = os; next_token = next }

-- The second loop of `List`.
unfoldable pub page_loop : MemStorage → String → ℕ → List ObjectInfo → List String → ListPage
page_loop m token limit os [] = page_of os ""
page_loop m token limit os (k ∷ ks) = elim (skipped token k) [
  | true ↦ page_loop m token limit os ks
  | false ↦ elim (length os == limit) [
    | true ↦ page_of os (key_at os (limit - 1))
    | false ↦ page_loop m token limit (os +++ list_info m k ∷ []) ks
  ]
]

-- `m.List(ctx, opts)`
unfoldable pub mem_list : Context → ListOptions → MemStorage → ListPage × Option Error
mem_list ctx opts m = elim (leb_ℤ opts.limit (pos 0)) [
  | true ↦ (no_page, some (invalid "storagetest: non-positive limit"))
  | false ↦ elim (context_error ctx) [
    | some e ↦ (no_page, some (context_done e))
    | none ↦ (
      page_loop m opts.token (pos_part opts.limit) [] (sort_strings (matching_keys opts.prefix m)),
      none,
    )
  ]
]

-- `newMemStorage()` and its methods.
abbrev pub mem_storage : (String → String) → (ℤ → ℕ → String) → ℕ → ObjectStorage MemStorage
mem_storage quoted mismatch now = record {
  put = λ ctx key body size opts m. mem_put quoted mismatch now ctx key body size opts m;
  get = λ ctx key m. (m, mem_get quoted mismatch now ctx key m);
  stat = λ ctx key m. (m, mem_stat quoted mismatch now ctx key m);
  delete = λ ctx key m. mem_delete ctx key m;
  list = λ ctx opts m. (m, mem_list ctx opts m);
}
