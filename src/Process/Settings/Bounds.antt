-- ===== src/Process/Settings/Bounds.antt =====
-- What the settings are, whatever the environment says.
use den_kit_stash.Base.{
  ℕ, ◌*◌, ◌^◌, ◌≡◌, refl, String, true, Option, none, some, if_keeps, if◌then◌else◌, Bool-cases,
  inl, inr,
}
use den_kit_stash.Model.{is_empty}
use den_kit_stash.World.{Env}
use den_kit_stash.Upload.Range.{lt64}
use den_kit_stash.Process.Settings.{
  Parsers, positive_or, positive_int64_env, max_request_body_bytes, max_upload_session_bytes,
  env_duration, archive_gc_config_from_env, new_http_server, second, minute, hour,
}

-- Positive, as an int64.
abbrev pub IsPositive : ℕ → Type 0
IsPositive n = lt64 0 n ≡ true

positive_or-IsPositive :
    (fallback : ℕ) (o : Option ℕ) → IsPositive fallback → IsPositive (positive_or fallback o)
positive_or-IsPositive fallback none h = h
positive_or-IsPositive fallback (some n) h = elim (Bool-cases (lt64 0 n)) [
  | inl yes' ↦ rw yes' yes'
  | inr no' ↦ rw no' h
]

-- Whatever the variables say and however they are parsed, the worker that evicts archives gets a
-- positive time to live, a positive interval and a positive batch, the server gets positive
-- timeouts, and the limits on a request's body and on an upload session are positive.
pub settings-IsPositive :
    (e : Env) (p : Parsers)
    → let cfg = archive_gc_config_from_env e p in
      let server = new_http_server e p in
      IsPositive cfg.ttl
      × IsPositive cfg.interval
      × IsPositive cfg.batch_limit
      × IsPositive server.read_header
      × IsPositive server.read
      × IsPositive server.write
      × IsPositive server.idle
      × IsPositive (max_request_body_bytes e p)
      × IsPositive (max_upload_session_bytes e p)
unfolding archive_gc_config_from_env new_http_server max_request_body_bytes max_upload_session_bytes
    env_duration positive_int64_env
settings-IsPositive e p = (
  set p.parse_duration "DENKIT_ARCHIVE_TTL" (720 * hour) refl,
  set p.parse_duration "DENKIT_ARCHIVE_GC_INTERVAL" hour refl,
  set p.atoi "DENKIT_ARCHIVE_GC_BATCH" 100 refl,
  set p.parse_duration "DENKIT_HTTP_READ_HEADER_TIMEOUT" (5 * second) refl,
  set p.parse_duration "DENKIT_HTTP_READ_TIMEOUT" (30 * minute) refl,
  set p.parse_duration "DENKIT_HTTP_WRITE_TIMEOUT" (30 * minute) refl,
  set p.parse_duration "DENKIT_HTTP_IDLE_TIMEOUT" (2 * minute) refl,
  set p.parse_int "DENKIT_MAX_REQUEST_BODY_BYTES" (2 ^ 20) refl,
  set p.parse_int "DENKIT_MAX_UPLOAD_SESSION_BYTES" (50 * 2 ^ 30) refl,
)
  where
    set :
        (parse : String → Option ℕ) (key : String) (fallback : ℕ)
        → IsPositive fallback
        → IsPositive (
            if is_empty (e.getenv key)
            then fallback
            else positive_or fallback (parse (e.getenv key)))
    set parse key fallback h =
        if_keeps IsPositive (is_empty (e.getenv key)) fallback _ h
          (positive_or-IsPositive fallback (parse (e.getenv key)) h)
