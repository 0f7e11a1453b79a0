-- ===== src/Process/Storage/Complete.antt =====
-- A configuration of the object store that is accepted.
use den_kit_stash.Base.{
  String, ◌≡◌, refl, ◌⊎◌, inl, inr, true, Bool, false, Option, none, some, text_eq, Bool-cases,
  subst,
}
use den_kit_stash.Model.{is_empty}
use den_kit_stash.World.{Env, Error, Result, ok}
use den_kit_stash.World.Laws.{ok-inj}
use den_kit_stash.Process.Storage.{
  require, or_default, config_with, StorageConfig, read_storage_config, with_ssl,
}

require-ok :
    (value message : String) (rest : Result Error StorageConfig) (cfg : StorageConfig)
    → require value message rest ≡ ok cfg
    → (is_empty value ≡ false) × (rest ≡ ok cfg)
require-ok value message rest cfg h = elim (Bool-cases (is_empty value)) [
  | inl missing ↦ absurd (cc (rw missing at h))
  | inr there ↦ (there, rw there at h)
]

-- The variable is set, and this is its value.
abbrev pub IsGiven : Env → String → String → Type 0
IsGiven e key value = (value ≡ e.getenv key) × (is_empty value ≡ false)

-- The settings that the environment gives, each from the variable of its own name. The region, alone
-- of these, has a default.
abbrev pub IsEnvironment : Env → StorageConfig → Type 0
IsEnvironment e cfg =
    IsGiven e "S3_ENDPOINT" cfg.endpoint
    × IsGiven e "S3_ACCESS_KEY" cfg.access_key
    × IsGiven e "S3_SECRET_KEY" cfg.secret_key
    × IsGiven e "S3_BUCKET" cfg.bucket_name
    × (cfg.public_endpoint ≡ e.getenv "S3_PUBLIC_ENDPOINT")
    × (IsGiven e "S3_REGION" cfg.region
        ⊎ ((is_empty (e.getenv "S3_REGION") ≡ true) × (cfg.region ≡ "us-east-1")))

region-IsGiven :
    (e : Env)
    → let region = or_default (e.getenv "S3_REGION") "us-east-1" in
      IsGiven e "S3_REGION" region
      ⊎ ((is_empty (e.getenv "S3_REGION") ≡ true) × (region ≡ "us-east-1"))
region-IsGiven e = elim (Bool-cases (is_empty (e.getenv "S3_REGION"))) [
  | inl missing ↦ inr (missing, rw missing)
  | inr there ↦ inl (rw there refl, rw there there)
]

-- A configuration that `readStorageConfig` accepts has the endpoint, both keys and the bucket of
-- the variables S3_ENDPOINT, S3_ACCESS_KEY, S3_SECRET_KEY and S3_BUCKET, none of them empty, the public
-- endpoint of S3_PUBLIC_ENDPOINT, and the region of S3_REGION, or us-east-1 where that is empty.
pub read_storage_config_complete :
    (e : Env) (parse_bool : String → Option Bool) (cfg : StorageConfig)
    → read_storage_config e parse_bool ≡ ok cfg
    → IsEnvironment e cfg
unfolding read_storage_config
read_storage_config_complete e parse_bool cfg h =
    go (parse_bool (or_default (e.getenv "S3_USE_SSL") "false")) h
  where
    go : (o : Option Bool) → with_ssl e parse_bool o ≡ ok cfg → IsEnvironment e cfg
    go none k = absurd (cc k)
    go (some use_ssl) k =
        let made : StorageConfig = config_with e parse_bool use_ssl in
        let (endpoint, k1) = require-ok made.endpoint _ _ cfg k in
        let (access, k2) = require-ok made.access_key _ _ cfg k1 in
        let (secret, k3) = require-ok made.secret_key _ _ cfg k2 in
        let (bucket, k4) = require-ok made.bucket_name _ _ cfg k3 in
        subst (IsEnvironment e) (ok-inj k4)
          ((refl, endpoint), (refl, access), (refl, secret), (refl, bucket), refl, region-IsGiven e)
