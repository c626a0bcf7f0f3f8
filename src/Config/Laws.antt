-- ===== src/Config/Laws.antt =====
-- What config/viper.go promises, whatever viper and the callbacks do.
use go_ddd_core.Prelude.{
  ℕ, String, true, false, ◌≡◌, refl, ap, ◌∙◌, sym, ◌↔◌, ◌⊎◌, inl, inr, Option, none, some, List, [],
  ◌∷◌, ◌++◌, append_assoc, append-nil, Bool-cases, str_eq,
}
use go_ddd_core.Errors.{Error, error_is, Result, ok, err}
use go_ddd_core.Config.{
  Source, Viper, ViperOptions, replacer_or_default, apply_source, apply_sources, provider_of,
  new_viper_provider, unknown_source, read_error, after_merge, Program, ViperProvider, on_change,
  call_all, fire_listeners,
}

Result-cases : {A : Type 0} (r : Result A) → ((a : A) × (r ≡ ok a)) ⊎ ((e : Error) × (r ≡ err e))
Result-cases (ok a) = inl (a, refl)
Result-cases (err e) = inr (e, refl)

module _ {V X A : Type 0} (viper : Viper V X A) (quote : String → String) where
  open viper use {merge_in_config, set_config_file}

  apply_sources-cons :
      (x : Source) (xs : List Source) (v v' : V)
      → apply_source viper quote x v ≡ ok v'
      → apply_sources viper quote (x ∷ xs) v ≡ apply_sources viper quote xs v'
  unfolding apply_sources
  apply_sources-cons x xs v v' h = rw (h, apply_sources) refl

  apply_sources_failing :
      (x : Source) (xs : List Source) (v : V) (e : Error)
      → apply_source viper quote x v ≡ err e
      → apply_sources viper quote (x ∷ xs) v ≡ err e
  unfolding apply_sources
  apply_sources_failing x xs v e h = rw (h, apply_sources) refl

  -- Why a source is bad: its type is neither "file" nor "env", or its file cannot be read.
  abbrev pub BadSource : Source → V → Error → Type 0
  BadSource bad v e =
      ((str_eq bad.source_type "file" ≡ false)
        × (str_eq bad.source_type "env" ≡ false)
        × (e ≡ unknown_source viper quote bad.source_type))
      ⊎ ((cause : Error) × (str_eq bad.source_type "file" ≡ true)
          × ((merge_in_config (set_config_file bad.path v)).1 ≡ some cause)
          × (e ≡ read_error viper quote bad.path cause))

  after_merge_cases :
      (src : Source) (r : V × Option Error) (e : Error)
      → after_merge viper quote src r ≡ err e
      → (cause : Error) × (r.1 ≡ some cause) × (e ≡ read_error viper quote src.path cause)
  after_merge_cases src (v, none) e h = cc
  after_merge_cases src (v, some c) e h = (c, refl, cc)

  apply_source-BadSource :
      (bad : Source) (v : V) (e : Error)
      → apply_source viper quote bad v ≡ err e
      → BadSource bad v e
  unfolding apply_source
  apply_source-BadSource bad v e h = elim (Bool-cases (str_eq bad.source_type "file")) [
    | inl f ↦
        let r = merge_in_config (set_config_file bad.path v) in
        let (c, m, eq) = after_merge_cases bad r e (rw f at h) in inr (c, f, m, eq)
    | inr f ↦ elim (Bool-cases (str_eq bad.source_type "env")) [
      | inl g ↦ cc (rw (f, g) at h)
      | inr g ↦ inl (f, g, cc (rw (f, g) at h))
    ]
  ]

  after_merge_failing :
      (src : Source) (r : V × Option Error) (cause : Error)
      → r.1 ≡ some cause
      → after_merge viper quote src r ≡ err (read_error viper quote src.path cause)
  after_merge_failing src (v, none) cause h = cc
  after_merge_failing src (v, some c) cause h = cc

  BadSource-apply_source :
      (bad : Source) (v : V) (e : Error)
      → BadSource bad v e
      → apply_source viper quote bad v ≡ err e
  unfolding apply_source
  BadSource-apply_source bad v e (inl (f, g, eq)) = rw (f, g, eq) refl
  BadSource-apply_source bad v e (inr (c, f, m, eq)) =
      rw (f, eq) (after_merge_failing bad (merge_in_config (set_config_file bad.path v)) c m)

  -- From `v`, some of the sources succeed in turn and the one after them is bad, with the error `e`.
  pub record FailsAt (sources : List Source) (v : V) (e : Error) : Type 0 where
    pub good : List Source
    pub bad : Source
    pub rest : List Source
    pub before : V
    pub split : sources ≡ good ++ bad ∷ rest
    pub succeeded : apply_sources viper quote good v ≡ ok before
    pub reason : BadSource bad before e

  fails_now :
      (x : Source) (xs : List Source) (v : V) (e : Error)
      → apply_source viper quote x v ≡ err e
      → FailsAt (x ∷ xs) v e
  unfolding apply_sources
  fails_now x xs v e h = record {
    good = [];
    bad = x;
    rest = xs;
    before = v;
    split = refl;
    succeeded = refl;
    reason = apply_source-BadSource x v e h;
  }

  fails_later :
      (x : Source) (xs : List Source) (v v' : V) (e : Error)
      → apply_source viper quote x v ≡ ok v'
      → FailsAt xs v' e
      → FailsAt (x ∷ xs) v e
  fails_later x xs v v' e h f = record {
    good = x ∷ f.good;
    bad = f.bad;
    rest = f.rest;
    before = f.before;
    split = ap (λ (l : List Source). x ∷ l) f.split;
    succeeded = apply_sources-cons x f.good v v' h ∙ f.succeeded;
    reason = f.reason;
  }

  apply_sources-FailsAt :
      (sources : List Source) (v : V) (e : Error)
      → apply_sources viper quote sources v ≡ err e
      → FailsAt sources v e
  unfolding apply_sources
  apply_sources-FailsAt [] v e h = cc
  apply_sources-FailsAt (x ∷ xs) v e h = elim (Result-cases (apply_source viper quote x v)) [
    | inl (v', s) ↦
        fails_later x xs v v' e s
          (apply_sources-FailsAt xs v' e (sym (apply_sources-cons x xs v v' s) ∙ h))
    | inr (e', s) ↦
        let same : e' ≡ e = cc (sym (apply_sources_failing x xs v e' s) ∙ h) in
        fails_now x xs v e (s ∙ ap err same)
  ]

  apply_sources-append :
      (good rest : List Source) (bad : Source) (v v' : V) (e : Error)
      → apply_sources viper quote good v ≡ ok v'
      → apply_source viper quote bad v' ≡ err e
      → apply_sources viper quote (good ++ bad ∷ rest) v ≡ err e
  unfolding apply_sources
  apply_sources-append [] rest bad v v' e g b =
      let same : v ≡ v' = cc in
      apply_sources_failing bad rest v e (ap (apply_source viper quote bad) same ∙ b)
  apply_sources-append (x ∷ good) rest bad v v' e g b =
      elim (Result-cases (apply_source viper quote x v)) [
        | inl (u, s) ↦
            apply_sources-cons x (good ++ bad ∷ rest) v u s
            ∙ apply_sources-append good rest bad u v' e (sym (apply_sources-cons x good v u s) ∙ g)
                b
        | inr (e', s) ↦ cc (sym (apply_sources_failing x good v e' s) ∙ g)
      ]

  provider_of_err : (r : Result V) (e : Error) → provider_of viper quote r ≡ err e → r ≡ err e
  provider_of_err (ok v) e h = cc
  provider_of_err (err x) e h = cc

  -- `NewViperProvider` fails with an error exactly when the sources before some source have been read in
  -- order and that source gives the error, whatever comes after it: its type is neither "file" nor "env",
  -- or viper cannot read its file, and the error wraps viper's.
  pub new_viper_provider-FailsAt :
      (opts : ViperOptions) (e : Error)
      → (new_viper_provider viper quote opts ≡ err e)
        ↔ FailsAt opts.sources
            (viper.set_env_key_replacer (replacer_or_default opts.env_key_replacer) viper.new)
            e
  unfolding new_viper_provider
  new_viper_provider-FailsAt opts e =
      let start =
        viper.set_env_key_replacer (replacer_or_default opts.env_key_replacer) viper.new in
      (
        λ h. apply_sources-FailsAt opts.sources start e (provider_of_err _ e h),
        λ f.
            let at : apply_sources viper quote opts.sources start ≡ err e =
              ap (λ (l : List Source). apply_sources viper quote l start) f.split
              ∙ apply_sources-append f.good f.rest f.bad start f.before e f.succeeded
                  (BadSource-apply_source f.bad f.before e f.reason) in
            ap (provider_of viper quote) at,
      )

  -- The error of a source wraps viper's error on its file, for errors.Is.
  read_error-error_is :
      (path t : String) (e : Error) → error_is t (read_error viper quote path e) ≡ error_is t e
  unfolding error_is
  read_error-error_is path t e = refl

-- `OnChange` for each of some callbacks, in order.
abbrev pub on_change_all : {V : Type 0} → List ℕ → ViperProvider V → ViperProvider V
on_change_all [] p = p
on_change_all (fn ∷ fns) p = on_change_all fns (on_change fn p)

-- What callbacks do that note their number in the state, and register others by `OnChange`.
abbrev pub noting : {V : Type 0} → (ℕ → List ℕ) → ℕ → Program V (List ℕ) → Program V (List ℕ)
noting added fn s = record {
  provider = on_change_all (added fn) s.provider;
  state = s.state ++ fn ∷ [];
}

abbrev pub all_added : (ℕ → List ℕ) → List ℕ → List ℕ
all_added added [] = []
all_added added (fn ∷ fns) = added fn ++ all_added added fns

on_change_all-listeners :
    {V : Type 0} (fns : List ℕ) (p : ViperProvider V)
    → on_change_all fns p ≡ record p { listeners = p.listeners ++ fns }
unfolding on_change
on_change_all-listeners [] p = simp (append-nil)
on_change_all-listeners (fn ∷ fns) p =
    on_change_all-listeners fns (on_change fn p) ∙ simp append_assoc

noting_lem :
    {V : Type 0} (added : ℕ → List ℕ) (fn : ℕ) (s : Program V (List ℕ))
    → noting added fn s ≡ record {
      provider = record s.provider { listeners = s.provider.listeners ++ added fn };
      state = s.state ++ fn ∷ [];
    }
noting_lem added fn s = rw (on_change_all-listeners (added fn) s.provider) refl

call_all-noting :
    {V : Type 0} (added : ℕ → List ℕ) (fns : List ℕ) (s : Program V (List ℕ))
    → call_all (noting added) fns s ≡ record {
      provider = record s.provider { listeners = s.provider.listeners ++ all_added added fns };
      state = s.state ++ fns;
    }
unfolding call_all
call_all-noting added [] s = simp (append-nil)
call_all-noting added (fn ∷ fns) s =
    ap (call_all (noting added) fns) (noting_lem added fn s)
    ∙ call_all-noting added fns (record {
      provider = record s.provider { listeners = s.provider.listeners ++ added fn };
      state = s.state ++ fn ∷ [];
    })
    ∙ simp append_assoc

-- A reload calls each listener that was registered before it, once and in the order of registration.
-- Listeners that these register by `OnChange` while they run are not called by this reload, and stand,
-- in the order of their registration, after all that were there before.
pub fire_listeners_snapshot :
    {V : Type 0} (added : ℕ → List ℕ) (s : Program V (List ℕ))
    → fire_listeners (noting added) s ≡ record {
      provider = record s.provider {
        listeners = s.provider.listeners ++ all_added added s.provider.listeners;
      };
      state = s.state ++ s.provider.listeners;
    }
unfolding fire_listeners
fire_listeners_snapshot added s = call_all-noting added s.provider.listeners s
