-- ===== src/Config/Defaults.antt =====
-- `ApplyDefaults` and `processConfig` of the configuration, applied twice.
use chain_indexor.Prelude.{
  Bool, ◌≡◌, refl, sym, ap, ◌∙◌, Option, none, some, List, [], ◌∷◌, map, Bool-cases, inl, inr,
}
use chain_indexor.Types.{Result, ok, err, ◌>>◌, >>=-ok, Done}
use chain_indexor.Config.Database.{
  Floats, or_default, on_some, RetryConfig, DatabaseConfig, MaintenanceConfig, DownloaderConfig,
  retry_defaults, database_defaults, maintenance_defaults, downloader_defaults,
}
use chain_indexor.Config.Services.{
  LoggingConfig, MetricsConfig, ApiConfig, logging_defaults, metrics_defaults, api_defaults,
}
use chain_indexor.Config.Program.{
  IndexerConfig, Config, indexer_defaults, apply_defaults, validate, process_config,
}

or_default_idem {ℓ} :
    {A : Type ℓ} (unset : A → Bool) (default a : A)
    → or_default unset default (or_default unset default a) ≡ or_default unset default a
unfolding or_default
or_default_idem unset default a = elim (Bool-cases (unset a)) [
  | inl e ↦ elim (Bool-cases (unset default)) [ inl d ↦ rw (e, d) refl | inr d ↦ rw (e, d) refl ]
  | inr n ↦ rw (n, n) refl
]

on_some_idem {ℓ} :
    {A : Type ℓ} (f : A → A)
    → ((a : A) → f (f a) ≡ f a)
    → (o : Option A) → on_some f (on_some f o) ≡ on_some f o
on_some_idem f h none = refl
on_some_idem f h (some a) = ap some (h a)

map_idem {ℓ} :
    {A : Type ℓ} (f : A → A)
    → ((a : A) → f (f a) ≡ f a)
    → (xs : List A) → map f (map f xs) ≡ map f xs
map_idem f h [] = refl
map_idem f h (x ∷ xs) = cc (h x, map_idem f h xs)

database_defaults_idem :
    (d : DatabaseConfig) → database_defaults (database_defaults d) ≡ database_defaults d
unfolding database_defaults
database_defaults_idem d = simp or_default_idem

maintenance_defaults_idem :
    (m : MaintenanceConfig) → maintenance_defaults (maintenance_defaults m) ≡ maintenance_defaults m
unfolding maintenance_defaults
maintenance_defaults_idem m = simp or_default_idem

logging_defaults_idem :
    (l : LoggingConfig) → logging_defaults (logging_defaults l) ≡ logging_defaults l
unfolding logging_defaults
logging_defaults_idem l = simp or_default_idem

metrics_defaults_idem :
    (m : MetricsConfig) → metrics_defaults (metrics_defaults m) ≡ metrics_defaults m
unfolding metrics_defaults
metrics_defaults_idem m = simp or_default_idem

api_defaults_idem : (a : ApiConfig) → api_defaults (api_defaults a) ≡ api_defaults a
unfolding api_defaults
api_defaults_idem a = simp or_default_idem

indexer_defaults_idem :
    (i : IndexerConfig) → indexer_defaults (indexer_defaults i) ≡ indexer_defaults i
unfolding indexer_defaults
indexer_defaults_idem i = simp database_defaults_idem

ok-injective {ℓ} : {A : Type ℓ} (a b : A) → ok a ≡ ok b → a ≡ b
ok-injective a b h = ap (λ r. elim r [ ok x ↦ x | err _ ↦ a ]) h

accepted {ℓ} :
    {A : Type ℓ} (check : A → Result Done) (a b : A)
    → (check a >> ok a) ≡ ok b
    → (a ≡ b) × (check b ≡ ok tt)
accepted check a b h =
    let (u, v, e) = >>=-ok (check a) (λ _. ok a) b h in
    let same = ok-injective a b e in (same, ap check (sym same) ∙ v)

module _ {F : Type 0} (fl : Floats F) where
  retry_defaults_idem :
      (r : RetryConfig F) → retry_defaults fl (retry_defaults fl r) ≡ retry_defaults fl r
  unfolding retry_defaults
  retry_defaults_idem r = simp or_default_idem

  downloader_defaults_idem :
      (d : DownloaderConfig F)
      → downloader_defaults fl (downloader_defaults fl d) ≡ downloader_defaults fl d
  unfolding downloader_defaults
  downloader_defaults_idem d = simp (
    or_default_idem,
    on_some_idem (retry_defaults fl) retry_defaults_idem,
    on_some_idem maintenance_defaults maintenance_defaults_idem,
  )

  pub apply_defaults_idem :
      (c : Config F) → apply_defaults fl (apply_defaults fl c) ≡ apply_defaults fl c
  unfolding apply_defaults
  apply_defaults_idem c = simp (
    downloader_defaults_idem,
    map_idem indexer_defaults indexer_defaults_idem,
    on_some_idem logging_defaults logging_defaults_idem,
    on_some_idem metrics_defaults metrics_defaults_idem,
    on_some_idem api_defaults api_defaults_idem,
  )

  pub process_config_ok :
      (c d : Config F)
      → process_config fl c ≡ ok d
      → (apply_defaults fl c ≡ d) × (validate fl d ≡ ok tt)
  unfolding process_config
  process_config_ok c d h = accepted (validate fl) (apply_defaults fl c) d h

  -- A configuration that was processed is accepted again, and stays as it is.
  process_config_stable : (c d : Config F) → process_config fl c ≡ ok d → process_config fl d ≡ ok d
  unfolding process_config
  process_config_stable c d h =
      let (e, v) = process_config_ok c d h in
      let same : apply_defaults fl d ≡ d =
        ap (apply_defaults fl) (sym e) ∙ (apply_defaults_idem c ∙ e) in
      ap (λ x. validate fl x >> ok x) same ∙ ap (λ r. r >> ok d) v
