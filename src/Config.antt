-- ===== src/Config.antt =====
-- config/viper.go and config/provider.go. The package github.com/spf13/viper is the parameter `Viper`, over
-- the state `V` of a *viper.Viper, the destinations `X` and the raw values `A`. A callback is known by a number; what it does to the
-- program is the argument `invoke`. `quote` is fmt's %q. Locks are not modelled: a step is what a lock covers.
pub mod Schema
pub mod Laws
use Prim.Native.String.{◌++◌ as ◌+++◌}
use go_ddd_core.Prelude.{
  ℕ, String, Bool, true, false, Option, none, some, List, [], ◌∷◌, ◌++◌, str_eq, if◌then◌else◌,
}
use go_ddd_core.Errors.{Error, plain, wrapped, error_text, Result, ok, err}

-- `Source`
pub record Source : Type 0 where
  pub source_type : String
  pub path : String
  pub env_prefix : String
  pub watch : Bool

-- A `*strings.Replacer`, by the pairs that it was made of.
abbrev pub Replacer : Type 0
Replacer = List (String × String)

-- `ViperOptions`
pub record ViperOptions : Type 0 where
  pub sources : List Source
  pub env_key_replacer : Option Replacer

-- What config/viper.go calls of a *viper.Viper. `on_config_change` installs the provider's callback.
pub record Viper (V X A : Type 0) : Type 1 where
  pub new : V
  pub set_env_key_replacer : Replacer → V → V
  pub set_config_file : String → V → V
  pub merge_in_config : V → V × Option Error
  pub on_config_change : V → V
  pub watch_config : V → V
  pub set_env_prefix : String → V → V
  pub automatic_env : V → V
  pub unmarshal : V → Result X
  pub get : String → V → A

-- `ViperProvider`
pub record ViperProvider (V : Type 0) : Type 0 where
  pub v : V
  pub listeners : List ℕ

abbrev pub default_replacer : Replacer
default_replacer = (".", "_") ∷ []

abbrev pub replacer_or_default : Option Replacer → Replacer
replacer_or_default none = default_replacer
replacer_or_default (some r) = r

module _ {V X A : Type 0} (viper : Viper V X A) (quote : String → String) where
  open viper use {
    set_env_key_replacer, set_config_file, merge_in_config, on_config_change, watch_config,
    set_env_prefix, automatic_env, unmarshal,
  }

  -- `fmt.Errorf("config: read file %q: %w", src.Path, err)`
  abbrev pub read_error : String → Error → Error
  read_error path e =
      wrapped (◌+++◌ "config: read file " (◌+++◌ (quote path) (◌+++◌ ": " (error_text e)))) e

  -- `fmt.Errorf("config: unknown source type %q", src.Type)`
  abbrev pub unknown_source : String → Error
  unknown_source t = plain (◌+++◌ "config: unknown source type " (quote t))

  -- What follows `MergeInConfig`.
  abbrev pub after_merge : Source → V × Option Error → Result V
  after_merge src (v, some e) = err (read_error src.path e)
  after_merge src (v, none) = ok (if src.watch then watch_config (on_config_change v) else v)

  -- The body of the loop over the sources.
  unfoldable pub apply_source : Source → V → Result V
  apply_source src v =
      if str_eq src.source_type "file"
      then after_merge src (merge_in_config (set_config_file src.path v))
      else if str_eq src.source_type "env"
      then ok
          (automatic_env (if str_eq src.env_prefix "" then v else set_env_prefix src.env_prefix v))
      else err (unknown_source src.source_type)

  -- The loop over the sources.
  unfoldable pub apply_sources : List Source → V → Result V
  apply_sources [] v = ok v
  apply_sources (src ∷ rest) v = elim (apply_source src v) [
    | err e ↦ err e
    | ok v' ↦ apply_sources rest v'
  ]

  abbrev pub provider_of : Result V → Result (ViperProvider V)
  provider_of (err e) = err e
  provider_of (ok v) = ok (record { v = v; listeners = [] })

  -- `NewViperProvider(opts)`
  unfoldable pub new_viper_provider : ViperOptions → Result (ViperProvider V)
  new_viper_provider opts = provider_of (
      apply_sources opts.sources
        (set_env_key_replacer (replacer_or_default opts.env_key_replacer) viper.new))

  abbrev pub unmarshalled : Result X → Result X
  unmarshalled (err e) = err (wrapped (◌+++◌ "config: unmarshal: " (error_text e)) e)
  unmarshalled (ok x) = ok x

  -- `p.Load(ctx, dest)`: what is written to `dest`, or the error.
  unfoldable pub load : ViperProvider V → Result X
  load p = unmarshalled (unmarshal p.v)

  -- `p.Get(path)`
  unfoldable pub get : String → ViperProvider V → A
  get path p = viper.get path p.v

-- `p.OnChange(fn)`
unfoldable pub on_change : {V : Type 0} → ℕ → ViperProvider V → ViperProvider V
on_change fn p = record p { listeners = p.listeners ++ fn ∷ [] }

-- A program around a provider, with a state `W`.
pub record Program (V W : Type 0) : Type 0 where
  pub provider : ViperProvider V
  pub state : W

module _ {V W : Type 0} (invoke : ℕ → Program V W → Program V W) where
  -- `for _, fn := range fns { fn() }`
  unfoldable pub call_all : List ℕ → Program V W → Program V W
  call_all [] s = s
  call_all (fn ∷ fns) s = call_all fns (invoke fn s)

  -- `p.fireListeners()`. The copy of the listeners is their value when it begins: `append` changes no
  -- element that a slice has, so a listener that registers another cannot change it.
  unfoldable pub fire_listeners : Program V W → Program V W
  fire_listeners s = call_all s.provider.listeners s
