-- ===== src/Ports/Cache/Suite.antt =====
-- ports/cache/cachetest/cachetest.go, subtest by subtest; a text of the suite is its bytes.
use go_ddd_core.Prelude.{
  ℕ, String, Bool, true, false, ◌&&◌, not, Option, none, some, List, [], ◌∷◌, length, ltb, ◌==◌,
  str_eq,
}
use go_ddd_core.Prelude.Int.{ℤ, pos, negsuc}
use go_ddd_core.Errorsx.{code_invalid_argument}
use go_ddd_core.Ports.Contexts.{
  Context, live, cancelled, expired, Failure, failure_code, is_canceled, is_late, is_sentinel,
  succeeded,
}
use go_ddd_core.Ports.Suite.{Script, done, call, require}
use go_ddd_core.Ports.Cache.{CacheCall, CacheReply, get, set, delete, exists, make, read, poke}

abbrev CacheScript : Type 0
CacheScript = Script CacheCall CacheReply

-- The bytes of "hello", "v", "v1", "v2" and "x", and the byte 'X'.
abbrev pub hello : List ℕ
hello = 104 ∷ 101 ∷ 108 ∷ 108 ∷ 111 ∷ []

abbrev bytes_v : List ℕ
bytes_v = 118 ∷ []

abbrev bytes_v1 : List ℕ
bytes_v1 = 118 ∷ 49 ∷ []

abbrev bytes_v2 : List ℕ
bytes_v2 = 118 ∷ 50 ∷ []

abbrev bytes_x : List ℕ
bytes_x = 120 ∷ []

abbrev upper_x : ℕ
upper_x = 88

-- `bytes.Equal(a, b)`
abbrev bytes_equal : List ℕ → List ℕ → Bool
bytes_equal [] [] = true
bytes_equal [] (d ∷ ds) = false
bytes_equal (c ∷ cs) [] = false
bytes_equal (c ∷ cs) (d ∷ ds) = c == d && bytes_equal cs ds

abbrev is_invalid : Option Failure → Bool
is_invalid e = str_eq (failure_code e) code_invalid_argument

-- `c.Set(ctx, key, []byte(...), ttl)`
abbrev set_bytes : Context → String → List ℕ → ℤ → (Option Failure → CacheScript) → CacheScript
set_bytes ctx key bs ttl k = call (make bs) λ r. call (set ctx key r ttl) λ e. k e

-- What a Get of `key` reads.
abbrev get_bytes : Context → String → (List ℕ → Option Failure → CacheScript) → CacheScript
get_bytes ctx key k = call (get ctx key) λ (r, e). call (read r) λ bs. k bs e

unfoldable pub get_absent_key_returns_err_miss : CacheScript
get_absent_key_returns_err_miss = call (get live "absent") λ (r, e). require (is_sentinel e) done

unfoldable pub set_then_get_returns_value : CacheScript
set_then_get_returns_value = set_bytes live "k" hello (pos 0) λ e.
    require (succeeded e)
      (get_bytes live "k" λ got f. require (succeeded f) (require (bytes_equal got hello) done))

unfoldable pub set_overwrite_wins : CacheScript
set_overwrite_wins = set_bytes live "k" bytes_v1 (pos 0) λ _.
    set_bytes live "k" bytes_v2 (pos 0) λ e.
      require (succeeded e) (get_bytes live "k" λ got _. require (bytes_equal got bytes_v2) done)

unfoldable pub overwrite_with_shorter_value : CacheScript
overwrite_with_shorter_value = set_bytes live "k" hello (pos 0) λ _.
    set_bytes live "k" bytes_x (pos 0) λ e.
      require (succeeded e) (get_bytes live "k" λ got _. require (bytes_equal got bytes_x) done)

unfoldable pub empty_value_round_trips_and_is_not_a_miss : CacheScript
empty_value_round_trips_and_is_not_a_miss = set_bytes live "k" [] (pos 0) λ e.
    require (succeeded e) (
      get_bytes live "k" λ got f.
        require (succeeded f)
          (require (length got == 0) (call (exists live "k") λ (ok, _). require ok done)))

unfoldable pub delete_then_get_misses : CacheScript
delete_then_get_misses = set_bytes live "k" bytes_v (pos 0) λ _.
    call (delete live "k")
      λ e. require (succeeded e) (call (get live "k") λ (r, f). require (is_sentinel f) done)

unfoldable pub delete_absent_key_is_idempotent : CacheScript
delete_absent_key_is_idempotent = call (delete live "absent") λ e. require (succeeded e) done

unfoldable pub exists_reflects_presence : CacheScript
exists_reflects_presence = call (exists live "k") λ (a, e). require (succeeded e && not a) (
    set_bytes live "k" bytes_v (pos 0) λ _. call (exists live "k") λ (b, f).
      require (succeeded f && b) (
        call (delete live "k")
          λ _. call (exists live "k") λ (c, g). require (succeeded g && not c) done))

unfoldable pub empty_key_is_invalid_argument : CacheScript
empty_key_is_invalid_argument = call (get live "") λ (r, e). require (is_invalid e) (
    set_bytes live "" bytes_v (pos 0) λ f. require (is_invalid f) (
      call (delete live "")
        λ g. require (is_invalid g) (call (exists live "") λ (b, h). require (is_invalid h) done)))

-- `-1*time.Second`
abbrev minus_second : ℤ
minus_second = negsuc 999999999

unfoldable pub negative_ttl_is_invalid_argument_and_not_written : CacheScript
negative_ttl_is_invalid_argument_and_not_written =
    set_bytes live "k" bytes_v minus_second
      λ e. require (is_invalid e) (call (get live "k") λ (r, f). require (is_sentinel f) done)

-- The four calls under a context that is done, each with an error that passes `check`.
abbrev all_fail : Context → String → (Option Failure → Bool) → CacheScript
all_fail ctx key check = call (get ctx key) λ (r, e). require (check e) (
    set_bytes ctx key bytes_v (pos 0) λ f. require (check f) (
      call (delete ctx key)
        λ g. require (check g) (call (exists ctx key) λ (b, h). require (check h) done)))

unfoldable pub pre_cancelled_ctx_returns_ctx_error : CacheScript
pre_cancelled_ctx_returns_ctx_error = all_fail cancelled "k" is_canceled

unfoldable pub empty_key_precedes_cancelled_ctx : CacheScript
empty_key_precedes_cancelled_ctx = all_fail cancelled "" (λ e. is_invalid e && not (is_canceled e))

unfoldable pub pre_expired_ctx_returns_ctx_error : CacheScript
pre_expired_ctx_returns_ctx_error = all_fail expired "k" is_late

unfoldable pub input_slice_not_aliased : CacheScript
input_slice_not_aliased = call (make hello) λ v. call (set live "k" v (pos 0)) λ e.
    require (succeeded e) (
      call (poke v 0 upper_x) λ _. get_bytes live "k" λ got _. require (bytes_equal got hello) done)

-- `if len(a) > 0 { a[0] = 'X' }`
abbrev poke_first : Option ℕ → CacheScript → CacheScript
poke_first none k = k
poke_first (some a) k =
    call (read (some a))
      λ bs. elim (ltb 0 (length bs)) [ true ↦ call (poke a 0 upper_x) (λ _. k) | false ↦ k ]

unfoldable pub output_slice_not_aliased : CacheScript
output_slice_not_aliased = set_bytes live "k" hello (pos 0) λ _.
    call (get live "k")
      λ (a, _). poke_first a (get_bytes live "k" λ b _. require (bytes_equal b hello) done)

-- `RunContract`
unfoldable pub run_contract : List CacheScript
unfolding get_absent_key_returns_err_miss set_then_get_returns_value set_overwrite_wins
    overwrite_with_shorter_value empty_value_round_trips_and_is_not_a_miss delete_then_get_misses
    delete_absent_key_is_idempotent exists_reflects_presence empty_key_is_invalid_argument
    negative_ttl_is_invalid_argument_and_not_written pre_cancelled_ctx_returns_ctx_error
    empty_key_precedes_cancelled_ctx pre_expired_ctx_returns_ctx_error input_slice_not_aliased
    output_slice_not_aliased
run_contract =
    get_absent_key_returns_err_miss ∷ set_then_get_returns_value ∷ set_overwrite_wins
    ∷ overwrite_with_shorter_value ∷ empty_value_round_trips_and_is_not_a_miss
    ∷ delete_then_get_misses ∷ delete_absent_key_is_idempotent ∷ exists_reflects_presence
    ∷ empty_key_is_invalid_argument ∷ negative_ttl_is_invalid_argument_and_not_written
    ∷ pre_cancelled_ctx_returns_ctx_error ∷ empty_key_precedes_cancelled_ctx
    ∷ pre_expired_ctx_returns_ctx_error ∷ input_slice_not_aliased ∷ output_slice_not_aliased ∷ []
