-- ===== src/Process/Routes.antt =====
-- The routes of http_api.go: what each operation is called, its method and path, the errors that it
-- declares, and which of the middlewares stands before its handler.
use den_kit_stash.Base.{
  ◌≡◌, refl, ℕ, String, Text, Bool, true, false, ◌||◌, ◌==◌, text_eq, codes_eq, number_eq, Option,
  none, some, List, [], ◌∷◌, reverse, codes, if◌then◌else◌,
}

-- The parameters of a path: a name, and whether its schema is an integer.
unfoldable pub is_integer_path_param : Text → Bool
is_integer_path_param name =
    name == codes "id"
    || name == codes "buildId"
    || name == codes "fileId"
    || name == codes "installedBuildId"
    || name == codes "targetBuildId"

-- The matches of `\{([^}]+)\}`; `open_name` holds the characters behind a brace, last first.
abbrev close_name : Text → List Text → List Text
close_name [] names = names
close_name name names = reverse name ∷ names

abbrev scan_names : Option Text → Text → List Text
scan_names open_name [] = []
scan_names none (c ∷ s) =
    let inside = scan_names (some []) s in
    let outside = scan_names none s in if c == b'{' then inside else outside
scan_names (some name) (c ∷ s) =
    let closed = scan_names none s in
    let longer = scan_names (some (c ∷ name)) s in
    if c == b'}' then close_name name closed else longer

abbrev with_schemas : List Text → List (Text × Bool)
with_schemas [] = []
with_schemas (name ∷ names) = (name, is_integer_path_param name) ∷ with_schemas names

-- pathParams
unfoldable pub path_params : Text → List (Text × Bool)
unfolding is_integer_path_param
path_params path = with_schemas (scan_names none path)

path_params_of_a_download :
    path_params (codes "/wharf/builds/{buildId}/download/{type}")
    ≡ ((codes "buildId", true) ∷ (codes "type", false) ∷ [])
unfolding path_params
path_params_of_a_download = refl

-- The security that an operation declares: a key, a key or nothing, and nothing.
pub data Security : Type 0 where
  key key_or_nothing nothing : Security

pub record Operation : Type 0 where
  pub id : String
  pub method : String
  pub path : String
  pub errors : List ℕ
  pub security : Security
  pub parameters : List (Text × Bool)

-- noSecurityOperation, authOperation and publicOperation
unfoldable pub no_security_operation : String → String → String → List ℕ → Operation
unfolding path_params
no_security_operation id method path errors = record {
  id = id;
  method = method;
  path = path;
  errors = errors;
  security = nothing;
  parameters = path_params (codes path);
}

unfoldable pub auth_operation : String → String → String → List ℕ → Operation
unfolding no_security_operation
auth_operation id method path errors = record (no_security_operation id method path errors) {
  security = key;
}

unfoldable pub public_operation : String → String → String → List ℕ → Operation
unfolding no_security_operation
public_operation id method path errors = record (no_security_operation id method path errors) {
  security = key_or_nothing;
}

-- authHandler or AuthMiddleware, optionalAuthHandler, and the handler alone
pub data Guard : Type 0 where
  required optional open_to_all : Guard

pub data Route : Type 0 where
  route : Guard → Operation → Route

-- registerCoreRoutes
unfoldable pub core_routes : List Route
core_routes =
    route required (auth_operation "get-profile" "GET" "/profile" (401 ∷ []))
    ∷ route required (auth_operation "list-profile-games" "GET" "/profile/games" (401 ∷ []))
    ∷ route optional (public_operation "get-game" "GET" "/games/{id}" (400 ∷ 404 ∷ []))
    ∷ route optional
        (public_operation "list-game-uploads" "GET" "/games/{id}/uploads" (400 ∷ 404 ∷ []))
    ∷ route optional (
        public_operation "create-download-session" "POST" "/games/{id}/download-sessions"
          (400 ∷ 404 ∷ []))
    ∷ route optional (public_operation "get-upload" "GET" "/uploads/{id}" (400 ∷ 404 ∷ []))
    ∷ route optional
        (public_operation "list-upload-builds" "GET" "/uploads/{id}/builds" (400 ∷ 404 ∷ []))
    ∷ route optional (public_operation "get-build" "GET" "/builds/{id}" (400 ∷ 404 ∷ []))
    ∷ []

-- registerWharfRoutes
unfoldable pub wharf_routes : List Route
wharf_routes =
    route required (auth_operation "get-wharf-status" "GET" "/wharf/status" (401 ∷ []))
    ∷ route required
        (auth_operation "list-wharf-channels" "GET" "/wharf/channels" (400 ∷ 401 ∷ 403 ∷ 404 ∷ []))
    ∷ route required (
        auth_operation "get-wharf-channel" "GET" "/wharf/channels/{channel}"
          (400 ∷ 401 ∷ 403 ∷ 404 ∷ []))
    ∷ route required
        (auth_operation "list-wharf-builds" "GET" "/wharf/builds" (400 ∷ 401 ∷ 403 ∷ 404 ∷ []))
    ∷ route required (
        auth_operation "get-latest-completed-wharf-build" "GET" "/wharf/builds/latest"
          (400 ∷ 401 ∷ 403 ∷ 404 ∷ []))
    ∷ route required (
        auth_operation "create-wharf-build" "POST" "/wharf/builds"
          (400 ∷ 401 ∷ 403 ∷ 404 ∷ 413 ∷ []))
    ∷ route required (
        auth_operation "list-wharf-build-files" "GET" "/wharf/builds/{id}/files"
          (400 ∷ 401 ∷ 403 ∷ 404 ∷ []))
    ∷ route required (
        auth_operation "create-wharf-build-file" "POST" "/wharf/builds/{id}/files"
          (400 ∷ 401 ∷ 403 ∷ 404 ∷ 413 ∷ []))
    ∷ route required (
        auth_operation "finalize-wharf-build-file" "POST" "/wharf/builds/{buildId}/files/{fileId}"
          (400 ∷ 401 ∷ 403 ∷ 404 ∷ 413 ∷ []))
    ∷ route required (
        auth_operation "download-wharf-build-file" "GET"
          "/wharf/builds/{buildId}/files/{fileId}/download" (400 ∷ 401 ∷ 403 ∷ 404 ∷ []))
    ∷ route required (
        auth_operation "head-wharf-build-file" "HEAD"
          "/wharf/builds/{buildId}/files/{fileId}/download" (401 ∷ 403 ∷ []))
    ∷ route open_to_all (
        no_security_operation "start-upload-session" "POST" "/wharf/upload-sessions/{id}"
          (404 ∷ []))
    ∷ route open_to_all (
        no_security_operation "put-upload-session" "PUT" "/wharf/upload-sessions/{id}"
          (400 ∷ 404 ∷ 413 ∷ []))
    ∷ route required (
        auth_operation "download-build-artifact" "GET" "/builds/{buildId}/download/{type}/{subType}"
          (400 ∷ 401 ∷ 403 ∷ 404 ∷ []))
    ∷ route required (
        auth_operation "head-build-artifact" "HEAD" "/builds/{buildId}/download/{type}/{subType}"
          (401 ∷ []))
    ∷ route required (
        auth_operation "get-upgrade-path" "GET"
          "/builds/{installedBuildId}/upgrade-paths/{targetBuildId}" (400 ∷ 401 ∷ 403 ∷ 404 ∷ []))
    ∷ route required (
        auth_operation "download-latest-channel-archive" "GET"
          "/{namespace}/{game}/{channel}/archive/default" (401 ∷ 403 ∷ 404 ∷ []))
    ∷ route required (
        auth_operation "head-latest-channel-archive" "HEAD"
          "/{namespace}/{game}/{channel}/archive/default" (401 ∷ []))
    ∷ []
