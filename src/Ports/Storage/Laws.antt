-- ===== src/Ports/Storage/Laws.antt =====
-- The suite of ports/storage/storagetest/storagetest.go against the reference store beside it.
use go_ddd_core.Prelude.{ℕ, String, true, false, ◌≡◌, refl, ◌∙◌, [], ◌∷◌, arith}
use go_ddd_core.Prelude.Int.{ℤ}
use go_ddd_core.Prelude.Dict.{lookup, insert, erase}
use go_ddd_core.Prelude.Sorting.{sort_strings, sort_insert}
use go_ddd_core.Errors.{as_coded, error_is}
use go_ddd_core.Errorsx
use go_ddd_core.Errorsx.{code_of}
use go_ddd_core.Ports.Contexts.{live, observe, is_sentinel}
use go_ddd_core.Ports.Suite.{passes, run_suite, run_suite-Follows, run_suite_failing, Follows}
use go_ddd_core.Ports.Storage.{ObjectStorage, storage_step, get}
use go_ddd_core.Ports.Storage.Reference.{
  MemStorage, mem_storage, mem_put, mem_stat, mem_get, mem_delete, matching_keys, page_loop,
  mem_list,
}
use go_ddd_core.Ports.Storage.Suite.{
  run_contract, put_get_roundtrip, put_overwrite_wins, put_negative_size_invalid_argument,
  metadata_roundtrip_lowercase_keys, get_missing_returns_err_not_found,
}

run_contract-mem_storage :
    (quoted : String → String) (mismatch : ℤ → ℕ → String) (now : ℕ)
    → run_suite (storage_step (mem_storage quoted mismatch now)) [] run_contract ≡ true
unfolding run_suite passes run_contract mem_put mem_stat mem_get mem_delete matching_keys page_loop
    mem_list observe code_of as_coded error_is Errorsx.new Errorsx.wrap lookup insert erase
    sort_strings sort_insert
run_contract-mem_storage quoted mismatch now = refl

-- A store whose every call replies as the reference store replies, under some view of its state, passes
-- the whole suite if it starts empty: the walk over the pages ends within its twenty pages.
run_contract-Follows :
    {S : Type 0} (store : ObjectStorage S) (view : S → MemStorage) (start : S)
    (quoted : String → String) (mismatch : ℤ → ℕ → String) (now : ℕ)
    → Follows (storage_step store) (storage_step (mem_storage quoted mismatch now)) view
    → view start ≡ []
    → run_suite (storage_step store) start run_contract ≡ true
run_contract-Follows store view start quoted mismatch now sim empty =
    run_suite-Follows (storage_step store) (storage_step (mem_storage quoted mismatch now)) view
      start sim run_contract
    ∙ rw empty (run_contract-mem_storage quoted mismatch now)

missing_fails :
    {S : Type 0} (store : ObjectStorage S) (start : S)
    → is_sentinel (storage_step store (get live "absent") start).1.2 ≡ false
    → passes (storage_step store) start get_missing_returns_err_not_found start ≡ false
unfolding passes get_missing_returns_err_not_found
missing_fails store start h = ground arith

-- The suite rejects every store whose Get of an absent key is not an ErrNotFound by errors.Is, whatever
-- else it does.
run_contract_missing_get :
    {S : Type 0} (store : ObjectStorage S) (start : S)
    → is_sentinel (storage_step store (get live "absent") start).1.2 ≡ false
    → run_suite (storage_step store) start run_contract ≡ false
unfolding run_contract
run_contract_missing_get store start h =
    run_suite_failing (storage_step store) start
      (put_get_roundtrip ∷ put_overwrite_wins ∷ put_negative_size_invalid_argument
        ∷ metadata_roundtrip_lowercase_keys ∷ [])
      _ get_missing_returns_err_not_found (missing_fails store start h)
