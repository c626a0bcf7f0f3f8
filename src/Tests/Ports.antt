-- ===== src/Tests/Ports.antt =====
-- The theorems on the ports at concrete inputs.
use mathlib.Core.List.{Mem}
use text.Mathlib.TextBridge.{IsPrefix}
use go_ddd_core.Prelude.{
  ◌⊎◌, ◌↔◌, inl, inr, ◌<◌, ◌≤◌, All, ℕ, String, true, false, if◌then◌else◌, ◌≡◌, refl, none, some,
  List, [], ◌∷◌, map, str_eq, arith, ◌==◌,
}
use go_ddd_core.Prelude.Int.{ℤ, pos}
use go_ddd_core.Prelude.Dict.{lookup}
use go_ddd_core.Prelude.Sorting.{IsAscending}
use go_ddd_core.Ports.{LimitResult, unknown_count, has_limit, has_remaining, status_new}
use go_ddd_core.Ports.Contexts.{live}
use go_ddd_core.Ports.Slices.{Slices, read_slice}
use go_ddd_core.Ports.Suite.{run_suite}
use go_ddd_core.Ports.Storage.{ObjectInfo, PutOptions, storage_step, delete, reads}
use go_ddd_core.Ports.Storage.Reference.{
  MemStorage, MemObject, mem_storage, mem_put, mem_get, stored_object,
}
use go_ddd_core.Ports.Storage.Objects.{
  keys, str_eq-differs, IsWf, storage_step-IsWf, mem_get-mem_put,
}
use go_ddd_core.Ports.Storage.Walk.{walk, walk_complete}
use go_ddd_core.Ports.Ratelimit.{IsAllowed, IsDenied}
use go_ddd_core.Ports.Cache.Reference.{RefCache, ref_get, ref_set}
use go_ddd_core.Ports.Cache.Isolation.{
  IsOwned, value_at, write_all, write_slice, ref_set_isolated, ref_get_isolated,
}
use go_ddd_core.Ports.Auth.{Identity, Heap, clone, with_identity, identity_from_context}
use go_ddd_core.Ports.Auth.Cloning.{contents, Write, set_role, set_claim, target, writes}
use go_ddd_core.Ports.Auth.Isolation.{first_read, IsForeign, identity_from_context-with_identity}
use go_ddd_core.Ports.Idempotency.{Store, store_step, reservation}
use go_ddd_core.Ports.Idempotency.Fake.{fake_store, new_fake_store}
use go_ddd_core.Ports.Idempotency.Suite.{run_store_contract}
use go_ddd_core.Ports.Idempotency.Laws.{fresh_world, run_store_contract-Follows}
use go_ddd_core.Ports.Idempotency.Reclaim.{run_reclaim_contract}
use go_ddd_core.Ports.Idempotency.Polling.{run_reclaim_contract_enough}

abbrev quoted : String → String
quoted s = s

abbrev mismatch : ℤ → ℕ → String
mismatch size n = "size"

abbrev plain_text : PutOptions
plain_text = record { content_type = "text/plain"; metadata = [] }

abbrev object : String → MemObject
object bytes = stored_object 7 plain_text bytes

abbrev shelf : MemStorage
shelf = ("b/2", object "two") ∷ ("a/1", object "one") ∷ ("b/1", object "three") ∷ []

shelf-IsWf : IsWf shelf
shelf-IsWf = (
  (
    (str_eq-differs "b/2" "a/1" refl, (str_eq-differs "b/2" "b/1" refl, tt)),
    ((str_eq-differs "a/1" "b/1" refl, tt), (tt, tt)),
  ),
  (
    str_eq-differs "b/2" "" refl,
    (str_eq-differs "a/1" "" refl, (str_eq-differs "b/1" "" refl, tt)),
  ),
)

storage_step-IsWf_example :
    IsWf (storage_step (mem_storage quoted mismatch 8) (delete live "a/1") shelf).0
storage_step-IsWf_example = storage_step-IsWf quoted mismatch 8 (delete live "a/1") shelf shelf-IsWf

mem_get-mem_put_example :
    (let (m', e) = mem_put quoted mismatch 8 live "c" (reads "four") (pos 4) plain_text shelf in
      (e ≡ none)
      × (mem_get quoted mismatch 8 live "a/1" m' ≡ (
          if str_eq "c" "a/1"
          then (
            "four",
            record {
              key = "a/1";
              size = pos 4;
              content_type = "text/plain";
              etag = "";
              updated_at = 8;
              metadata = plain_text.metadata;
            },
            none,
          )
          else mem_get quoted mismatch 8 live "a/1" shelf)))
mem_get-mem_put_example =
    mem_get-mem_put quoted mismatch 8 "c" "a/1" "four" plain_text shelf refl refl

walk_complete_example :
    (os : List ObjectInfo) × ((walk 4 "b/" "" (pos 1) shelf ≡ some os)
      × ((k : String) → Mem k (map (λ o. o.key) os) ↔ (Mem k (keys shelf) × IsPrefix "b/" k))
      × IsAscending (map (λ o. o.key) os))
walk_complete_example = walk_complete shelf "b/" 0 shelf-IsWf

abbrev granted : LimitResult
granted = record {
  allowed = true;
  retry_after = pos 0;
  limit = pos 1;
  remaining = pos 0;
  reset_at = none;
}

abbrev refused : LimitResult
refused = record {
  allowed = false;
  retry_after = pos 5;
  limit = pos 1;
  remaining = unknown_count;
  reset_at = none;
}

granted_ok : IsAllowed granted
unfolding has_limit has_remaining
granted_ok = (refl, refl, refl)

refused_ok : IsDenied refused
unfolding has_limit has_remaining
refused_ok = (refl, refl, refl)

-- The cache has slice 0 under "k", and slice 1 is the caller's.
abbrev one_slice : Slices
one_slice = record { next = 2; bytes = λ r. if r == 0 then 1 ∷ 2 ∷ [] else 3 ∷ 4 ∷ [] }

abbrev one_key : RefCache
one_key = ("k", 0) ∷ []

one_key-IsOwned : IsOwned (one_key, one_slice)
one_key-IsOwned = (omega arith, tt)

ref_set_isolated_example :
    (let ((m', h'), e) = ref_set live "j" 1 (pos 0) (one_key, one_slice) in
      (e ≡ none)
      × (value_at "j" (m', write_all ((1, 0, 9) ∷ []) h') ≡ (
          if str_eq "j" "j" then some (one_slice.bytes 1) else value_at "j" (one_key, one_slice)))
      × IsOwned (m', h'))
ref_set_isolated_example =
    ref_set_isolated "j" "j" 1 (pos 0) ((1, 0, 9) ∷ []) one_key one_slice refl refl one_key-IsOwned
      ((omega arith, ((λ e. omega (arith, e)), tt)), tt)

k_value : value_at "k" (one_key, one_slice) ≡ some (1 ∷ 2 ∷ [])
unfolding lookup
k_value = refl

ref_get_isolated_example :
    (let ((m', h'), (out, e)) = ref_get live "k" (one_key, one_slice) in
      (e ≡ none)
      × (read_slice out h' ≡ 1 ∷ 2 ∷ [])
      × (value_at "k" (m', write_slice out ((0, 9) ∷ []) h') ≡ value_at "k" (one_key, one_slice))
      × IsOwned (m', h'))
ref_get_isolated_example =
    ref_get_isolated "k" "k" (1 ∷ 2 ∷ []) ((0, 9) ∷ []) one_key one_slice refl one_key-IsOwned
      k_value

run_store_contract-Follows_example :
    run_suite (store_step fake_store) (new_fake_store 0, fresh_world) run_store_contract ≡ true
run_store_contract-Follows_example =
    run_store_contract-Follows fake_store (λ w. w) (new_fake_store 0, fresh_world) (λ c w. refl)
      refl

-- A store that gives every key to everyone.
abbrev careless : Store Unit
careless = record {
  begin = λ ctx scope key fingerprint w.
      (w, (record (reservation scope key status_new) { lease_token = "tok" }, none));
  finish = λ ctx res response w. (w, none);
  cancel = λ ctx res w. (w, none);
}

run_reclaim_contract_enough_example :
    run_suite (store_step careless) (tt, fresh_world) (run_reclaim_contract 20 (pos 80000000))
    ≡ run_suite (store_step careless) (tt, fresh_world) (run_reclaim_contract 12 (pos 80000000))
run_reclaim_contract_enough_example =
    run_reclaim_contract_enough careless (tt, fresh_world) (λ scope key fingerprint w. omega arith)
      20 (pos 80000000) (omega arith)

abbrev admin : Identity
admin = record { subject = "ann"; tenant_id = ""; roles = some 0; claims = some 1 }

abbrev shared : Heap
shared = record { next = 2; role_cells = λ r. "admin" ∷ []; claim_cells = λ r. ("iss", "idp") ∷ [] }

-- The caller's slice of roles, and a map that is made later.
abbrev aliases : List Write
aliases = set_role 0 0 "guest" ∷ set_claim 5 "iss" "evil" ∷ []

later_or_earlier :
    All (λ w. (target w < 2) ⊎ ((with_identity [] admin shared).1.next ≤ target w)) aliases
unfolding with_identity clone
later_or_earlier = (inl (omega arith), (inr (omega arith), tt))

-- The first reader writes to the roles that it was given.
abbrev own : List Write
own = set_role 4 0 "guest" ∷ []

own-IsForeign :
    All
      (IsForeign 2 (with_identity [] admin shared).1.next (first_read [] admin shared aliases).0.0)
      own
unfolding with_identity identity_from_context clone
own-IsForeign = (inr (inr (inl refl)), tt)

identity_from_context-with_identity_example :
    (let ((given, ok), h₁) = first_read [] admin shared aliases in
      let ((found, again), h₂) =
        identity_from_context (with_identity [] admin shared).0 (writes own h₁) in
      (ok ≡ true)
      × (contents given h₁ ≡ contents admin shared)
      × (again ≡ true)
      × (contents found h₂ ≡ contents admin shared))
identity_from_context-with_identity_example =
    identity_from_context-with_identity [] admin shared aliases own later_or_earlier own-IsForeign
