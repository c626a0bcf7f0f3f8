-- ===== src/Ports/Cache.antt =====
-- ports/cache/cache.go: the interface over byte slices in a heap, which a caller may write to, and the
-- calls that a suite makes. A slice is its number in the heap; nil is none.
pub mod Reference
pub mod Isolation
pub mod Suite
pub mod Laws
use go_ddd_core.Prelude.{
  ℕ, zero, suc, ◌+◌, String, Bool, true, false, Option, none, some, List, [], ◌∷◌, ◌==◌,
}
use go_ddd_core.Prelude.Int.{ℤ}
use go_ddd_core.Errors.{Error, plain}
use go_ddd_core.Ports.Slices.{Slices, alloc, write_byte, read_slice}
use go_ddd_core.Ports.Contexts.{Context, Failure, observe_option}

-- `ErrMiss`
abbrev pub err_miss : Error
err_miss = plain "cache: miss"

-- `Cache`, of an implementation with the state `S`.
pub record Cache (S : Type 0) : Type 0 where
  pub get : Context → String → S × Slices → (S × Slices) × (Option ℕ × Option Error)
  pub set : Context → String → ℕ → ℤ → S × Slices → (S × Slices) × Option Error
  pub delete : Context → String → S × Slices → (S × Slices) × Option Error
  pub exists : Context → String → S × Slices → (S × Slices) × (Bool × Option Error)

-- The calls of the interface, and what a caller does with its own slices.
pub data CacheCall : Type 0 where
  get : Context → String → CacheCall
  set : Context → String → ℕ → ℤ → CacheCall
  delete : Context → String → CacheCall
  exists : Context → String → CacheCall
  make : List ℕ → CacheCall
  read : Option ℕ → CacheCall
  poke : ℕ → ℕ → ℕ → CacheCall

abbrev pub CacheReply : CacheCall → Type 0
CacheReply (get ctx key) = Option ℕ × Option Failure
CacheReply (set ctx key r ttl) = Option Failure
CacheReply (delete ctx key) = Option Failure
CacheReply (exists ctx key) = Bool × Option Failure
CacheReply (make bs) = ℕ
CacheReply (read r) = List ℕ
CacheReply (poke r i b) = Unit

abbrev sentinel_text : String
sentinel_text = "cache: miss"

abbrev pub cache_step :
    {S : Type 0} → Cache S → (c : CacheCall) → S × Slices → (S × Slices) × CacheReply c
cache_step o (get ctx key) w =
    let (w', (r, e)) = o.get ctx key w in (w', (r, observe_option sentinel_text e))
cache_step o (set ctx key r ttl) w =
    let (w', e) = o.set ctx key r ttl w in (w', observe_option sentinel_text e)
cache_step o (delete ctx key) w =
    let (w', e) = o.delete ctx key w in (w', observe_option sentinel_text e)
cache_step o (exists ctx key) w =
    let (w', (b, e)) = o.exists ctx key w in (w', (b, observe_option sentinel_text e))
cache_step o (make bs) (s, h) = let (r, h') = alloc bs h in ((s, h'), r)
cache_step o (read r) (s, h) = ((s, h), read_slice r h)
cache_step o (poke r i b) (s, h) = ((s, write_byte r i b h), tt)
