-- ===== src/Process/Storage.antt =====
-- The settings of the object store's client: `readStorageConfig`, `endpointURLForS3Client`,
-- `initializeObjectStorage` without its calls of the client, and the error codes of main.go.
pub mod Complete
use Prim.Native.String.{◌++◌}
use den_kit_stash.Base.{
  String, Bool, true, false, not, ◌&&◌, ◌||◌, Option, none, some, List, [], ◌∷◌, ◌==◌, text_eq,
  if◌then◌else◌,
}
use den_kit_stash.Model.{is_empty}
use den_kit_stash.World.{Env, Error, failure, Result, ok, err}

-- storageConfig
pub record StorageConfig : Type 0 where
  pub endpoint : String
  pub public_endpoint : String
  pub access_key : String
  pub secret_key : String
  pub bucket_name : String
  pub region : String
  pub use_ssl : Bool

abbrev pub or_default : String → String → String
or_default value fallback = if is_empty value then fallback else value

-- One of the variables without which there is no client.
abbrev pub require : String → String → Result Error StorageConfig → Result Error StorageConfig
require value message rest = if is_empty value then err (failure message) else rest

module _ (e : Env) (parse_bool : String → Option Bool) where
  abbrev pub config_with : Bool → StorageConfig
  config_with use_ssl = record {
    endpoint = e.getenv "S3_ENDPOINT";
    public_endpoint = e.getenv "S3_PUBLIC_ENDPOINT";
    access_key = e.getenv "S3_ACCESS_KEY";
    secret_key = e.getenv "S3_SECRET_KEY";
    bucket_name = e.getenv "S3_BUCKET";
    region = or_default (e.getenv "S3_REGION") "us-east-1";
    use_ssl = use_ssl;
  }

  abbrev pub checked_config : StorageConfig → Result Error StorageConfig
  checked_config cfg = require cfg.endpoint "S3_ENDPOINT environment variable is required" (
      require cfg.access_key "S3_ACCESS_KEY environment variable is required" (
        require cfg.secret_key "S3_SECRET_KEY environment variable is required"
          (require cfg.bucket_name "S3_BUCKET environment variable is required" (ok cfg))))

  abbrev pub with_ssl : Option Bool → Result Error StorageConfig
  with_ssl none = err (failure "S3_USE_SSL must be true or false")
  with_ssl (some use_ssl) = checked_config (config_with use_ssl)

  -- readStorageConfig, for what `strconv.ParseBool` makes of a text
  unfoldable pub read_storage_config : Result Error StorageConfig
  read_storage_config = with_ssl (parse_bool (or_default (e.getenv "S3_USE_SSL") "false"))

-- What `url.Parse` finds of an address.
pub record Address : Type 0 where
  pub scheme : String
  pub host : String
  pub path : String

abbrev scheme_for : Bool → String
scheme_for true = "https"
scheme_for false = "http"

module _ (parse_url : String → Option Address) where
  abbrev plain_endpoint : String → Bool → Result Error String
  plain_endpoint raw use_ssl = ok (scheme_for use_ssl ++ ("://" ++ raw))

  abbrev full_endpoint : String → Address → Result Error String
  full_endpoint raw a =
      if is_empty a.host || not (is_empty a.path)
      then err (failure "invalid S3 endpoint")
      else if a.scheme == "http" || a.scheme == "https"
      then ok raw
      else err (failure "unsupported S3 endpoint scheme")

  abbrev pub endpoint_of : Option Address → String → Bool → Result Error String
  endpoint_of none raw use_ssl = plain_endpoint raw use_ssl
  endpoint_of (some a) raw use_ssl =
      if is_empty a.scheme then plain_endpoint raw use_ssl else full_endpoint raw a

  -- endpointURLForS3Client
  unfoldable pub endpoint_url_for_s3_client : String → Bool → Result Error String
  endpoint_url_for_s3_client raw use_ssl = endpoint_of (parse_url raw) raw use_ssl

-- isNotFoundError and isNoSuchBucketPolicyError, on the code of an error of the API
unfoldable pub is_not_found_error : Option String → Bool
is_not_found_error none = false
is_not_found_error (some code) = code == "NotFound" || code == "NoSuchBucket" || code == "404"

unfoldable pub is_no_such_bucket_policy_error : Option String → Bool
is_no_such_bucket_policy_error none = false
is_no_such_bucket_policy_error (some code) =
    code == "NoSuchBucketPolicy"
    || code == "NoSuchBucketPolicyException"
    || code == "NotFound"
    || code == "404"
