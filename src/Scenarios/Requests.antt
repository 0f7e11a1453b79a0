-- ===== src/Scenarios/Requests.antt =====
-- The theorems on keys and upload sessions at concrete requests.
use den_kit_stash.Base.{
  ℕ, ◌≡◌, refl, ◌⊎◌, ◌-◌, ◌^◌, none, [], ◌∷◌, codes, length, arith, some, String,
}
use den_kit_stash.Model.{User, active}
use den_kit_stash.World.{ok, err, pure, call, ◌>>◌, unavailable, exec}
use den_kit_stash.Http.{Response, Handler, json, problem}
use den_kit_stash.Database.Users.{
  api_key_digest, api_key_hash_secret, get_user_by_api_key, create_user,
}
use den_kit_stash.Auth.{Credentials, extract_api_key, auth_middleware}
use den_kit_stash.Auth.Keys.{
  stored_digest_authenticates, bearer_key, auth_middleware_sound, IsKnown,
}
use den_kit_stash.Upload.Session.{
  put_chunk, stage_chunk, finish_chunk, upload_session_path, open_staging, truncate_staging,
  copy_to,
}
use den_kit_stash.Upload.Session.Staging.{Staged, stage_chunk-Staged}
use den_kit_stash.Archive.Rebuild.{proceed}
use den_kit_stash.Upload.Session.Limits.{put_chunk_over_limit, put_chunk_overflow}
use den_kit_stash.Auth.Accounts.{create_user-get_user_by_api_key}
use den_kit_stash.Scenarios.Stash.{stash_env, stash, stash_session, stash_user}

abbrev request : Credentials
request = record { authorization = "Bearer 0a0b"; query_api_key = ""; query_access_token = "" }

abbrev greet : User → Handler stash_env ℕ (Response ℕ)
greet user = pure (json user.id)

auth_middleware_sound_example : IsKnown request greet (auth_middleware request greet stash) stash
auth_middleware_sound_example = auth_middleware_sound request greet stash

bearer_key_example :
    extract_api_key
      (record { authorization = "Bearer 0a0b"; query_api_key = "other"; query_access_token = "" })
    ≡ "0a0b"
bearer_key_example = bearer_key "0a0b" "other" ""

stored_digest_authenticates_example :
    get_user_by_api_key "hmac-sha256:5ec2e7" stash ≡ get_user_by_api_key "0a0b" stash
unfolding api_key_digest api_key_hash_secret
stored_digest_authenticates_example =
    stored_digest_authenticates "0a0b" "hmac-sha256:5ec2e7" stash refl

put_chunk_over_limit_example :
    put_chunk 100 (stash_session 40 active) 40 120 none [] stash
    ≡ (err (problem 413 "upload session exceeds maximum size"), stash)
put_chunk_over_limit_example =
    put_chunk_over_limit 100 120 (stash_session 40 active) none [] stash (omega arith) (omega arith)
      (omega arith) (omega arith)

put_chunk_overflow_example :
    put_chunk 100 (stash_session 40 active) 40 (2 ^ 63 - 1) none (7 ∷ 8 ∷ []) stash ≡ (
      (do
        stage_chunk (stash_session 40 active) (2 ^ 63 - 40) (7 ∷ 8 ∷ [])
        finish_chunk (stash_session (2 ^ 63) active) none)
        stash)
put_chunk_overflow_example =
    put_chunk_overflow 100 (stash_session 40 active) (7 ∷ 8 ∷ []) stash (omega arith) (omega arith)
      (omega arith)

stage_chunk-Staged_example :
    Staged
      (upload_session_path (codes "session"))
      (some (7 ∷ 8 ∷ []))
      stash.db
      stash.objects
      (stage_chunk (stash_session 0 active) 2 (7 ∷ 8 ∷ 9 ∷ []) stash).1
    × (length {A = ℕ} (7 ∷ 8 ∷ []) ≡ 2)
unfolding stage_chunk open_staging truncate_staging copy_to proceed call
stage_chunk-Staged_example =
    stage_chunk-Staged (stash_session 0 active) 2 (7 ∷ 8 ∷ 9 ∷ []) stash tt refl

-- A user to be created, and the world after it.
abbrev newcomer : User
newcomer = record stash_user { username = "bob"; api_key = "hmac-sha256:b0b" }

create_user-get_user_by_api_key_example :
    (digest : String) × (api_key_digest stash_env "hmac-sha256:b0b" ≡ ok digest)
    × (((get_user_by_api_key "hmac-sha256:b0b" (create_user newcomer stash).1).0
          ≡ ok (record newcomer {
            id = 100;
            created_at = 1001;
            updated_at = 1001;
            api_key = digest;
          }))
        ⊎ ((get_user_by_api_key "hmac-sha256:b0b" (create_user newcomer stash).1).0
            ≡ err unavailable))
unfolding create_user api_key_digest exec
create_user-get_user_by_api_key_example =
    create_user-get_user_by_api_key newcomer
      (record newcomer { id = 100; created_at = 1001; updated_at = 1001 }) stash
      (create_user newcomer stash).1 (refl, tt) refl refl refl
