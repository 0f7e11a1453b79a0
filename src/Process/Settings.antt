-- ===== src/Process/Settings.antt =====
-- Settings from environment variables: handlers/limits.go, and `envDuration`, `archiveGCConfigFromEnv`
-- and the timeouts of `newHTTPServer` in main.go. An int64 or a time.Duration, which counts nanoseconds,
-- is its 64-bit pattern.
pub mod Bounds
use den_kit_stash.Base.{
  ℕ, ◌*◌, ◌^◌, String, Bool, false, Option, none, some, ◌==◌, text_eq, if◌then◌else◌,
}
use den_kit_stash.Model.{is_empty}
use den_kit_stash.World.{Env}
use den_kit_stash.Upload.Range.{lt64}
use den_kit_stash.Archive.Gc.{ArchiveGcConfig}

-- The parsers of Go's library, which give no number where they fail: `strconv.ParseInt(s, 10, 64)`,
-- `strconv.Atoi` and `time.ParseDuration`.
pub record Parsers : Type 0 where
  pub parse_int : String → Option ℕ
  pub atoi : String → Option ℕ
  pub parse_duration : String → Option ℕ

-- A number that is parsed and positive, or else the fallback.
abbrev pub positive_or : ℕ → Option ℕ → ℕ
positive_or fallback none = fallback
positive_or fallback (some n) = if lt64 0 n then n else fallback

module _ (e : Env) (p : Parsers) where
  -- positiveInt64Env
  unfoldable pub positive_int64_env : String → ℕ → ℕ
  positive_int64_env key fallback =
      let value = e.getenv key in
      if is_empty value then fallback else positive_or fallback (p.parse_int value)

  -- maxRequestBodyBytes
  unfoldable pub max_request_body_bytes : ℕ
  unfolding positive_int64_env
  max_request_body_bytes = positive_int64_env "DENKIT_MAX_REQUEST_BODY_BYTES" (2 ^ 20)

  -- maxUploadSessionBytes
  unfoldable pub max_upload_session_bytes : ℕ
  unfolding positive_int64_env
  max_upload_session_bytes = positive_int64_env "DENKIT_MAX_UPLOAD_SESSION_BYTES" (50 * 2 ^ 30)

  -- envDuration
  unfoldable pub env_duration : String → ℕ → ℕ
  env_duration key fallback =
      let value = e.getenv key in
      if is_empty value then fallback else positive_or fallback (p.parse_duration value)

abbrev pub second : ℕ
second = 1000000000

abbrev pub minute : ℕ
minute = 60 * second

abbrev pub hour : ℕ
hour = 60 * minute

-- DefaultArchiveGCConfig
abbrev pub default_archive_gc_config : ArchiveGcConfig
default_archive_gc_config = record {
  enabled = false;
  ttl = 720 * hour;
  interval = hour;
  batch_limit = 100;
}

-- The timeouts of newHTTPServer.
pub record ServerTimeouts : Type 0 where
  pub read_header : ℕ
  pub read : ℕ
  pub write : ℕ
  pub idle : ℕ

module _ (e : Env) (p : Parsers) where
  abbrev batch_or : ℕ → String → ℕ
  batch_or fallback batch = if is_empty batch then fallback else positive_or fallback (p.atoi batch)

  -- archiveGCConfigFromEnv
  unfoldable pub archive_gc_config_from_env : ArchiveGcConfig
  unfolding env_duration
  archive_gc_config_from_env =
      let cfg = default_archive_gc_config in
      record {
        enabled = e.getenv "DENKIT_ARCHIVE_GC_ENABLED" == "true";
        ttl = env_duration e p "DENKIT_ARCHIVE_TTL" cfg.ttl;
        interval = env_duration e p "DENKIT_ARCHIVE_GC_INTERVAL" cfg.interval;
        batch_limit = batch_or cfg.batch_limit (e.getenv "DENKIT_ARCHIVE_GC_BATCH");
      }

  -- newHTTPServer
  unfoldable pub new_http_server : ServerTimeouts
  unfolding env_duration
  new_http_server = record {
    read_header = env_duration e p "DENKIT_HTTP_READ_HEADER_TIMEOUT" (5 * second);
    read = env_duration e p "DENKIT_HTTP_READ_TIMEOUT" (30 * minute);
    write = env_duration e p "DENKIT_HTTP_WRITE_TIMEOUT" (30 * minute);
    idle = env_duration e p "DENKIT_HTTP_IDLE_TIMEOUT" (2 * minute);
  }
