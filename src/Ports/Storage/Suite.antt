-- ===== src/Ports/Storage/Suite.antt =====
-- ports/storage/storagetest/storagetest.go, subtest by subtest. A set of keys is a list of keys.
use Prim.Native.String.{len}
use go_ddd_core.Prelude.{
  ℕ, zero, suc, String, Bool, true, false, ◌&&◌, ◌||◌, not, Option, none, some, List, [], ◌∷◌,
  length, leb, ◌==◌, str_eq,
}
use go_ddd_core.Prelude.Int.{ℤ, pos, negsuc}
use go_ddd_core.Prelude.Dict.{lookup}
use go_ddd_core.Errorsx.{code_invalid_argument}
use go_ddd_core.Ports.Contexts.{live, cancelled, Failure, failure_code, is_sentinel, succeeded}
use go_ddd_core.Ports.Suite.{Script, done, fatal, call, require}
use go_ddd_core.Ports.Storage.{
  ObjectInfo, PutOptions, ListOptions, reads, StorageCall, StorageReply, put, get, stat, delete,
  list,
}

abbrev StorageScript : Type 0
StorageScript = Script StorageCall StorageReply

abbrev is_invalid : Option Failure → Bool
is_invalid e = str_eq (failure_code e) code_invalid_argument

abbrev typed : String → PutOptions
typed t = record { content_type = t; metadata = [] }

-- `PutOptions{}`
abbrev no_options : PutOptions
no_options = typed ""

abbrev prefixed : String → String → ℤ → ListOptions
prefixed prefix token limit = record { prefix = prefix; token = token; limit = limit }

-- The helper `put` of `RunContract`.
abbrev must_put : String → String → PutOptions → StorageScript → StorageScript
must_put key body opts k =
    call (put live key (reads body) (pos (len body)) opts) λ e. require (succeeded e) k

abbrev must_put_all : List String → StorageScript → StorageScript
must_put_all [] k = k
must_put_all (key ∷ keys) k = must_put key "v" no_options (must_put_all keys k)

abbrev int_eq : ℤ → ℤ → Bool
int_eq (pos a) (pos b) = a == b
int_eq (pos a) (negsuc b) = false
int_eq (negsuc a) (pos b) = false
int_eq (negsuc a) (negsuc b) = a == b

abbrev info_is : ObjectInfo → ℤ → String → Bool
info_is info size content_type = int_eq info.size size && str_eq info.content_type content_type

unfoldable pub put_get_roundtrip : StorageScript
put_get_roundtrip = must_put "k" "hello" (typed "text/plain") (
    call (get live "k") λ (bytes, info, e). require (succeeded e) (
      require (str_eq bytes "hello")
        (require (str_eq info.key "k" && info_is info (pos 5) "text/plain") done)))

unfoldable pub put_overwrite_wins : StorageScript
put_overwrite_wins = must_put "k" "first" (typed "text/plain") (
    must_put "k" "second-longer" (typed "application/json") (
      call (get live "k") λ (bytes, info, e). require (succeeded e) (
        require (str_eq bytes "second-longer")
          (require (info_is info (pos 13) "application/json") done))))

unfoldable pub put_negative_size_invalid_argument : StorageScript
put_negative_size_invalid_argument =
    call (put live "k" (reads "x") (negsuc 0) no_options) λ e. require (is_invalid e) done

-- `info.Metadata[wantK] == wantV`
abbrev metadata_is : ObjectInfo → String → String → Bool
metadata_is info k v = elim (lookup k info.metadata) [ some w ↦ str_eq w v | none ↦ str_eq "" v ]

abbrev has_metadata : ObjectInfo → Bool
has_metadata info = metadata_is info "request-id" "r-42" && metadata_is info "owner" "orders"

unfoldable pub metadata_roundtrip_lowercase_keys : StorageScript
metadata_roundtrip_lowercase_keys =
    must_put "k" "v"
      (record {
        content_type = "text/plain";
        metadata = ("request-id", "r-42") ∷ ("owner", "orders") ∷ [];
      })
      (call (stat live "k") λ (info, e). require (succeeded e) (
        require (has_metadata info) (
          call (get live "k")
            λ (bytes, ginfo, f). require (succeeded f) (require (has_metadata ginfo) done))))

unfoldable pub get_missing_returns_err_not_found : StorageScript
get_missing_returns_err_not_found =
    call (get live "absent") λ (bytes, info, e). require (is_sentinel e) done

unfoldable pub stat_missing_returns_err_not_found : StorageScript
stat_missing_returns_err_not_found =
    call (stat live "absent") λ (info, e). require (is_sentinel e) done

unfoldable pub delete_is_idempotent : StorageScript
delete_is_idempotent = call (delete live "absent") λ e. require (succeeded e) (
    must_put "k" "v" no_options (
      call (delete live "k") λ f. require (succeeded f) (
        call (stat live "k") λ (info, g).
          require (is_sentinel g) (call (delete live "k") λ h. require (succeeded h) done))))

unfoldable pub empty_key_precedes_cancelled_ctx : StorageScript
empty_key_precedes_cancelled_ctx = call (put cancelled "" (reads "") (pos 0) no_options) λ e.
    require (is_invalid e) (
      call (get cancelled "") λ (bytes, info, f). require (is_invalid f) (
        call (stat cancelled "") λ (i, g).
          require (is_invalid g) (call (delete cancelled "") λ h. require (is_invalid h) done)))

unfoldable pub list_limit_non_positive_precedes_cancelled_ctx : StorageScript
list_limit_non_positive_precedes_cancelled_ctx =
    call (list cancelled (prefixed "" "" (pos 0))) λ (page, e).
      require (is_invalid e)
        (call (list cancelled (prefixed "" "" (negsuc 0))) λ (p, f). require (is_invalid f) done)

abbrev member : String → List String → Bool
member k [] = false
member k (j ∷ js) = str_eq j k || member k js

abbrev has_all : List String → List String → Bool
has_all [] got = true
has_all (k ∷ ks) got = member k got && has_all ks got

-- The keys of the page added to `got`, where none of them is there yet.
abbrev collect : List ObjectInfo → List String → (List String → StorageScript) → StorageScript
collect [] got k = k got
collect (o ∷ os) got k = require (not (member o.key got)) (collect os (o.key ∷ got) k)

-- The loop over the pages, of which `n` are left before it gives up.
unfoldable pub walk_script :
    ℕ → String → List String → (List String → StorageScript) → StorageScript
walk_script zero token got k = fatal
walk_script (suc n) token got k = call (list live (prefixed "w/" token (pos 3))) λ (page, e).
    require (succeeded e) (
      require (leb (length page.objects) 3) (
        collect page.objects got λ got'. elim (str_eq page.next_token "") [
          | true ↦ k got'
          | false ↦ walk_script n page.next_token got' k
        ]))

abbrev walk_keys : List String
walk_keys = "w/a" ∷ "w/b" ∷ "w/c" ∷ "w/d" ∷ "w/e" ∷ "w/f" ∷ "w/g" ∷ []

unfoldable pub list_token_walk_complete_no_dupes : StorageScript
unfolding walk_script
list_token_walk_complete_no_dupes = must_put_all walk_keys (
    walk_script 21 "" []
      λ got. require (length got == length walk_keys) (require (has_all walk_keys got) done))

-- The set of the keys of a page.
abbrev keys_of_page : List ObjectInfo → List String → List String
keys_of_page [] got = got
keys_of_page (o ∷ os) got = elim (member o.key got) [
  | true ↦ keys_of_page os got
  | false ↦ keys_of_page os (o.key ∷ got)
]

unfoldable pub list_prefix_filters : StorageScript
list_prefix_filters = must_put_all ("a/1" ∷ "a/2" ∷ "b/1" ∷ []) (
    call (list live (prefixed "a/" "" (pos 10))) λ (page, e).
      let got = keys_of_page page.objects [] in
      require (succeeded e) (
        require
          (str_eq page.next_token "" && length got == 2 && member "a/1" got && member "a/2" got)
          done))

unfoldable pub list_empty_prefix_lists_all : StorageScript
list_empty_prefix_lists_all = must_put_all ("a/1" ∷ "b/1" ∷ "c" ∷ []) (
    call (list live (prefixed "" "" (pos 10))) λ (page, e).
      require (succeeded e) (require (length page.objects == 3 && str_eq page.next_token "") done))

unfoldable pub list_no_match_returns_empty_page : StorageScript
list_no_match_returns_empty_page = must_put "a/1" "v" no_options (
    call (list live (prefixed "zzz/" "" (pos 5))) λ (page, e).
      require (succeeded e) (require (length page.objects == 0 && str_eq page.next_token "") done))

-- `RunContract`
unfoldable pub run_contract : List StorageScript
unfolding put_get_roundtrip put_overwrite_wins put_negative_size_invalid_argument
    metadata_roundtrip_lowercase_keys get_missing_returns_err_not_found
    stat_missing_returns_err_not_found delete_is_idempotent empty_key_precedes_cancelled_ctx
    list_limit_non_positive_precedes_cancelled_ctx list_token_walk_complete_no_dupes
    list_prefix_filters list_empty_prefix_lists_all list_no_match_returns_empty_page
run_contract =
    put_get_roundtrip ∷ put_overwrite_wins ∷ put_negative_size_invalid_argument
    ∷ metadata_roundtrip_lowercase_keys ∷ get_missing_returns_err_not_found
    ∷ stat_missing_returns_err_not_found ∷ delete_is_idempotent ∷ empty_key_precedes_cancelled_ctx
    ∷ list_limit_non_positive_precedes_cancelled_ctx ∷ list_token_walk_complete_no_dupes
    ∷ list_prefix_filters ∷ list_empty_prefix_lists_all ∷ list_no_match_returns_empty_page ∷ []
