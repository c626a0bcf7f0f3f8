-- ===== src/Ports/Cache/Laws.antt =====
-- The suite of ports/cache/cachetest/cachetest.go against the reference cache beside it.
use go_ddd_core.Prelude.{true, ◌≡◌, refl, []}
use go_ddd_core.Prelude.Dict.{lookup, insert, erase}
use go_ddd_core.Errors.{as_coded, error_is}
use go_ddd_core.Errorsx
use go_ddd_core.Errorsx.{code_of}
use go_ddd_core.Ports.Contexts.{observe}
use go_ddd_core.Ports.Suite.{passes, run_suite}
use go_ddd_core.Ports.Slices.{no_slices}
use go_ddd_core.Ports.Cache.{cache_step}
use go_ddd_core.Ports.Cache.Reference.{ref_cache, ref_get, ref_set, ref_delete, ref_exists}
use go_ddd_core.Ports.Cache.Suite.{run_contract}

run_contract-ref_cache : run_suite (cache_step ref_cache) ([], no_slices) run_contract ≡ true
unfolding run_suite passes run_contract ref_get ref_set ref_delete ref_exists observe code_of
    as_coded error_is Errorsx.new lookup insert erase
run_contract-ref_cache = refl
