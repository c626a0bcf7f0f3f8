-- ===== src/Ports/Logger.antt =====
-- ports/logger/logger.go, the adapter examples/minimal/infra/slogger/slogger.go, and NewCheck of
-- ports/health/health.go. Values `A` of attributes are opaque, `S` is the state of the output. The package
-- log/slog is a parameter, over its loggers `G` and attributes `B`.
use go_ddd_core.Prelude.{String, Bool, Option, List, [], ◌∷◌, ◌≡◌, refl, ap}
use go_ddd_core.Prelude.Int.{ℤ, pos, negsuc}
use go_ddd_core.Errors.{Error}

-- `Level` is an int.
abbrev pub Level : Type 0
Level = ℤ

abbrev pub level_debug : Level
level_debug = negsuc 3

abbrev pub level_info : Level
level_info = pos 0

abbrev pub level_warn : Level
level_warn = pos 4

abbrev pub level_error : Level
level_error = pos 8

pub record Attr (A : Type 0) : Type 0 where
  pub key : String
  pub value : A

-- `F(key, value)`
unfoldable pub f : {A : Type 0} → String → A → Attr A
f key value = record { key = key; value = value }

-- `Logger`, of the loggers `L` of one implementation.
pub record Logger (L A S : Type 0) : Type 0 where
  pub log : L → Level → String → List (Attr A) → S → S
  pub with_attrs : L → List (Attr A) → L
  pub enabled : L → Level → Bool

module _ {L A S : Type 0} (impl : Logger L A S) where
  -- `Debug`, `Info`, `Warn` and `Error`.
  unfoldable pub debug : L → String → List (Attr A) → S → S
  debug l msg attrs s = impl.log l level_debug msg attrs s

  unfoldable pub info : L → String → List (Attr A) → S → S
  info l msg attrs s = impl.log l level_info msg attrs s

  unfoldable pub warn : L → String → List (Attr A) → S → S
  warn l msg attrs s = impl.log l level_warn msg attrs s

  unfoldable pub error : L → String → List (Attr A) → S → S
  error l msg attrs s = impl.log l level_error msg attrs s

-- What slogger.go calls of log/slog: `Any`, and `LogAttrs`, `With` and `Enabled` of a logger.
pub record Slog (G A B S : Type 0) : Type 0 where
  pub any : String → A → B
  pub log_attrs : G → Level → String → List B → S → S
  pub with_args : G → List B → G
  pub handles : G → Level → Bool

module _ {G A B S : Type 0} (slog : Slog G A B S) where
  -- `toSlogAttrs(in)`
  unfoldable pub to_slog_attrs : List (Attr A) → List B
  to_slog_attrs [] = []
  to_slog_attrs (a ∷ rest) = slog.any a.key a.value ∷ to_slog_attrs rest

  -- `toAnySlice(in)`: the same values as a slice of `any`.
  unfoldable pub to_any_slice : List B → List B
  to_any_slice [] = []
  to_any_slice (a ∷ rest) = a ∷ to_any_slice rest

  -- The methods of slogger's Logger.
  unfoldable pub slogger : Logger G A S
  slogger = record {
    log = λ g level msg attrs s. slog.log_attrs g level msg (to_slog_attrs attrs) s;
    with_attrs = λ g attrs. slog.with_args g (to_any_slice (to_slog_attrs attrs));
    enabled = λ g level. slog.handles g level;
  }

  to_any_slice-eq : (bs : List B) → to_any_slice bs ≡ bs
  unfolding to_any_slice
  to_any_slice-eq [] = refl
  to_any_slice-eq (b ∷ bs) = ap (λ (r : List B). b ∷ r) (to_any_slice-eq bs)

-- `health.Check`, over the state `S` of what is probed.
pub record Check (S : Type 0) : Type 0 where
  pub name : String
  pub check : S → Option Error

-- `NewCheck(name, fn)`
unfoldable pub new_check : {S : Type 0} → String → (S → Option Error) → Check S
new_check name fn = record { name = name; check = fn }
