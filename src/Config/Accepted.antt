-- ===== src/Config/Accepted.antt =====
-- What `validate` promises of the configurations that it accepts.
use Prim.Native.String.{String}
use text.Mathlib.Text.{◌==◌ as str_eq}
use mathlib.Core.Path.{subst}
use chain_indexor.Prelude.{
  ℕ, suc, ◌<◌, Bool, true, false, not, ◌≡◌, refl, List, [], ◌∷◌, any, All, arith,
}
use chain_indexor.Types.{ConfigError, Result, ok, err, ◌>>◌, Done}
use chain_indexor.Finality.{BlockFinality, of_string, parse_block_finality}
use chain_indexor.Config.Database.{
  Floats, is_unset, refuse_if, DownloaderConfig, downloader_defaults, is_finality,
  downloader_validate, check_some, is_journal_mode, is_synchronous, maintenance_validate,
  retry_validate,
}
use chain_indexor.Config.Services.{logging_validate, metrics_validate, api_validate}
use chain_indexor.Config.Program.{
  ContractConfig, IndexerConfig, Config, is_empty_list, check_contracts, check_indexers,
  apply_defaults, validate, process_config,
}
use chain_indexor.Config.Defaults.{process_config_ok}

-- A contract with an address and an event; an indexer with a name, a database path and contracts.
abbrev pub IsContract : ContractConfig → Type 0
IsContract c = (is_unset c.address ≡ false) × (is_empty_list c.events ≡ false)

abbrev pub IsIndexer : IndexerConfig → Type 0
IsIndexer x =
    (is_unset x.name ≡ false)
    × (is_unset x.db.path ≡ false)
    × (is_empty_list x.contracts ≡ false)
    × All IsContract x.contracts

-- No two indexers, and no indexer and a name before, are called the same.
abbrev pub Distinct : List String → List IndexerConfig → Type 0
Distinct seen [] = Unit
Distinct seen (x ∷ xs) =
    (any (λ name. str_eq name x.name) seen ≡ false) × Distinct (x.name ∷ seen) xs

refuse_if_ok : (b : Bool) (e : ConfigError) (u : Done) → refuse_if b e ≡ ok u → b ≡ false
refuse_if_ok false e u h = refl
refuse_if_ok true e u h = cc

-- A check that passed, and the checks after it.
passed :
    {B : Type 0} (b : Bool) (e : ConfigError) (rest : Result B) (y : B)
    → (refuse_if b e >> rest) ≡ ok y
    → (b ≡ false) × (rest ≡ ok y)
passed false e rest y h = (refl, h)
passed true e rest y h = cc

passed_all :
    {B : Type 0} (r : Result Done) (rest : Result B) (y : B)
    → (r >> rest) ≡ ok y
    → (r ≡ ok tt) × (rest ≡ ok y)
passed_all (ok _) rest y h = (refl, h)
passed_all (err e) rest y h = cc

check_contracts_ok :
    (i j : ℕ) (cs : List ContractConfig) → check_contracts i j cs ≡ ok tt → All IsContract cs
check_contracts_ok i j [] h = tt
check_contracts_ok i j (c ∷ cs) h =
    let (address, h1) = passed _ _ _ tt h in
    let (events, h2) = passed _ _ _ tt h1 in ((address, events), check_contracts_ok i (suc j) cs h2)

check_indexers_ok :
    (i : ℕ) (seen : List String) (xs : List IndexerConfig)
    → check_indexers i seen xs ≡ ok tt
    → All IsIndexer xs × Distinct seen xs
check_indexers_ok i seen [] h = (tt, tt)
check_indexers_ok i seen (x ∷ xs) h =
    let (name, h1) = passed _ _ _ tt h in
    let (fresh, h2) = passed _ _ _ tt h1 in
    let (path, h3) = passed _ _ _ tt h2 in
    let (contracts, h4) = passed _ _ _ tt h3 in
    let (each, h5) = passed_all _ _ tt h4 in
    let (later, distinct) = check_indexers_ok (suc i) (x.name ∷ seen) xs h5 in
    (((name, path, contracts, check_contracts_ok i 0 x.contracts each), later), (fresh, distinct))

-- The finalities that the configuration accepts are those that the downloader parses.
is_finality_parses :
    (s : String) → is_finality s ≡ true → (f : BlockFinality) × (parse_block_finality s ≡ ok f)
unfolding is_finality parse_block_finality
is_finality_parses s h = (of_string s, ground arith)

-- What the program relies on of its configuration.
pub record Accepted {F : Type 0} (d : Config F) : Type 0 where
  pub url : is_unset d.downloader.rpc_url ≡ false
  pub chunk : 0 < d.downloader.chunk_size
  pub finality : BlockFinality
  pub parsed : parse_block_finality d.downloader.finality ≡ ok finality
  pub some_indexer : is_empty_list d.indexers ≡ false
  pub indexers : All IsIndexer d.indexers
  pub distinct : Distinct [] d.indexers

module _ {F : Type 0} (fl : Floats F) where
  later_checks : DownloaderConfig F → Result Done
  later_checks d = do
    refuse_if (is_unset d.db.path) ConfigError.db_path_required
    refuse_if (not (is_journal_mode d.db.journal_mode)) ConfigError.journal_mode_unknown
    refuse_if (not (is_synchronous d.db.synchronous)) ConfigError.synchronous_unknown
    check_some maintenance_validate d.maintenance
    check_some (retry_validate fl) d.retry

  downloader_validate_ok :
      (d : DownloaderConfig F)
      → downloader_validate fl d ≡ ok tt
      → (is_unset d.rpc_url ≡ false) × (is_finality d.finality ≡ true)
  unfolding downloader_validate later_checks
  downloader_validate_ok d h =
      let (url, h1) = passed _ _ _ tt h in
      let (finality, _) =
        passed (not (is_finality d.finality)) ConfigError.finality_unknown (later_checks d) tt h1 in
      (url, ground (arith, finality))

  chunk_size_default : (d : DownloaderConfig F) → 0 < (downloader_defaults fl d).chunk_size
  unfolding downloader_defaults
  chunk_size_default d = ground arith

  chunk_size_positive : (c : Config F) → 0 < (apply_defaults fl c).downloader.chunk_size
  unfolding apply_defaults
  chunk_size_positive c = chunk_size_default c.downloader

  validate_ok :
      (d : Config F)
      → validate fl d ≡ ok tt
      → (downloader_validate fl d.downloader ≡ ok tt)
        × (is_empty_list d.indexers ≡ false)
        × (check_indexers 0 [] d.indexers ≡ ok tt)
  unfolding validate
  validate_ok d h =
      let (downloader, h1) = passed_all _ _ tt h in
      let (logging, h2) = passed_all (check_some logging_validate d.logging) _ tt h1 in
      let (metrics, h3) = passed_all (check_some metrics_validate d.metrics) _ tt h2 in
      let (api, h4) = passed_all (check_some api_validate d.api) _ tt h3 in
      let (indexers, each) = passed (is_empty_list d.indexers) ConfigError.no_indexers _ tt h4 in
      (downloader, indexers, each)

  -- A configuration that was processed has a positive chunk size, a finality that the downloader
  -- parses, an RPC URL, and indexers, each with a name of its own, a database path, and contracts
  -- with an address and an event.
  pub process_config-Accepted : (c d : Config F) → process_config fl c ≡ ok d → Accepted d
  process_config-Accepted c d h =
      let (e, v) = process_config_ok fl c d h in
      let (downloader, some_indexer, each) = validate_ok d v in
      let (url, known) = downloader_validate_ok d.downloader downloader in
      let (finality, parsed) = is_finality_parses d.downloader.finality known in
      let (indexers, distinct) = check_indexers_ok 0 [] d.indexers each in
      record {
        url = url;
        chunk = subst (λ (x : Config F). 0 < x.downloader.chunk_size) e (chunk_size_positive c);
        finality = finality;
        parsed = parsed;
        some_indexer = some_indexer;
        indexers = indexers;
        distinct = distinct;
      }
