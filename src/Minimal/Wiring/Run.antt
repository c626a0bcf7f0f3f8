-- ===== src/Minimal/Wiring/Run.antt =====
-- `run` of examples/minimal/cmd/main.go, from the configuration to the shutdown.
use Prim.Native.String.{◌++◌}
use go_ddd_core.Prelude.{String, false, ◌≡◌, refl, Option, none, some, []}
use go_ddd_core.Prelude.Int.{ℤ}
use go_ddd_core.Errors.{Error, wrapped, error_text, joined, cons, nil, to_errors, ok, err, join}
use go_ddd_core.Config.{Viper, ViperProvider, new_viper_provider, load}
use go_ddd_core.Config.Schema.{Root}
use go_ddd_core.Bootstrap.Lifecycle
use go_ddd_core.Bootstrap.App
use go_ddd_core.Minimal.Server
use go_ddd_core.Minimal.Wiring.{Site, Running, run, main_options, http_module}

module _ {H V F A : Type 0} (viper : Viper V (Root F) A) (quote : String → String)
    (shutdown : ℤ → H → H × Option Error) (wait : Running H → Running H) where
  -- The program when the server has been started, at the configured address and with the configured
  -- timeout.
  abbrev pub serving : Site → H → Root F → Running H
  serving site srv cfg = record {
    server = record {
      addr = cfg.http.addr;
      shutdown_timeout = cfg.http.shutdown_timeout;
      srv = srv;
      serving = 1;
      err_ch = [];
      closed = false;
      stderr = [];
    };
    site = site;
  }

  -- With a configuration that loads, `run` starts the server once, at the configured address and with the
  -- configured timeout, waits, and then shuts it down once within the timeout of the server: it ends
  -- without an error if the shutdown does, and with the error of the shutdown, joined, if that fails.
  pub run-shutdown :
      (env : String) (site : Site) (srv final : H) (p : ViperProvider V) (cfg : Root F)
      (x : Option Error)
      → new_viper_provider viper quote (main_options env) ≡ ok p
      → load viper quote p ≡ ok cfg
      → let w = wait (serving site srv cfg) in
        shutdown w.server.shutdown_timeout w.server.srv ≡ (final, x)
        → run viper quote shutdown wait env site srv ≡ (
          some (record w { server = record w.server { srv = final } }),
          elim x [ none ↦ none | some e ↦ some (joined (cons e nil)) ],
        )
  unfolding run http_module App.module_func App.run App.start App.start_modules App.stop App.new
      Lifecycle.append_stop Lifecycle.append_pair Lifecycle.start Lifecycle.start_loop
      Lifecycle.stop Lifecycle.stop_loop Server.new Server.start Server.stop join to_errors
  run-shutdown env site srv final p cfg none provides loads ends = rw (provides, loads, ends) refl
  run-shutdown env site srv final p cfg (some e) provides loads ends =
      rw (provides, loads, ends) refl

  -- A configuration that does not load ends `run` before anything is started: the error of the provider or
  -- of the decoding is wrapped, so that errors.Is and errors.As see it.
  run-config_error :
      (env : String) (site : Site) (srv : H) (e : Error)
      → (new_viper_provider viper quote (main_options env) ≡ err e
          → run viper quote shutdown wait env site srv
            ≡ (none, some (wrapped ("load config: " ++ error_text e) e)))
        × ((p : ViperProvider V)
            → new_viper_provider viper quote (main_options env) ≡ ok p
            → load viper quote p ≡ err e
            → run viper quote shutdown wait env site srv
              ≡ (none, some (wrapped ("unmarshal config: " ++ error_text e) e)))
  unfolding run
  run-config_error env site srv e = (λ h. rw h refl, λ p h l. rw (h, l) refl)
