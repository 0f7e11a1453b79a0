-- ===== src/Lib.antt =====
-- DenKit Stash, the build server of this repository: it takes pushes of game builds as patches
-- against the previous build of a channel, keeps the archives that it makes from them, and hands out
-- downloads and upgrade paths. This library models the server's own logic.
--
-- World       the state that handlers share: the tables of models/postgres.go, the object store, the
--             staged bytes of upload sessions, and a count of the calls that left the process. `Env`
--             holds what is not the repository's code as parameters: the object store, the outcome
--             of each call (answered, refused, or done with the answer lost), the clock, uuids,
--             random bytes, HMAC-SHA256, the environment's variables, the printed form of a time,
--             and the wharf library and archivers. A handler is an action on this world; what it
--             wrote before it failed stays written.
-- Database    the queries of models/postgres.go, by table, and the key digests of models/api_keys.go.
--             `query_row` is QueryRow, `query` is Query, and `exec` is Exec with the UNIQUE and
--             REFERENCES clauses that models/postgres.go declares as its guard. Database.Integrity says
--             what the clauses promise.
-- Model, Http the rows of models/models.go, and the answers of a handler.
-- Names       the names made from user text: `sanitizeFilenamePart` (handlers/wharf_downloads.go), the
--             archive formats (handlers/wharf_archive.go), and the platforms of a channel
--             (handlers/wharf_support.go).
-- Auth        auth/auth.go and auth/user_management.go: the key of a request, the two middlewares, and
--             the management of users.
-- Archive     handlers/wharf_archive.go and handlers/wharf_rebuild.go for one archive (patch steps,
--             packing, the rebuild of an evicted archive from its chain under the advisory lock), and
--             handlers/archive_gc.go, the eviction of archives. Archive.Frame is about the tables that
--             a rebuild writes.
-- Build       handlers/wharf_builds.go, and `checkAndUpdateBuildState` of handlers/wharf_archive.go,
--             which decides by `verdict` what happens to an open build.
-- Download    handlers/wharf_downloads.go: upgrade paths, the three download handlers, which go through
--             the archive cache of Archive.Rebuild, and the names of the files that they hand out.
-- Upload      handlers/wharf_upload_sessions.go: sessions, content ranges and the staged bytes.
--             Upload.Session.Transfer is what a client may expect of it.
-- Listing     handlers/wharf_channels.go and handlers/core.go, which read only.
-- Serialize   handlers/serializers.go and the bodies of handlers/responses.go.
-- Process     main.go, handlers/limits.go and http_api.go: settings from the environment, the
--             endpoint of the object store, the development login, the commands and the table of routes. Go's
--             parsers of numbers, durations and URLs are parameters.
-- Scenarios   a small stash on which the theorems are applied.
--
-- Handlers call the actions of Archive and Build, which call the queries of Database. Build.Files
-- finalizes a file and then runs Build.State, which calls Archive.Patch for a new archive and
-- Archive.Rebuild for a parent whose archive is gone.
--
-- Numbers are natural numbers, for the code's ids, sizes and times are not negative; where an int64 may
-- overflow (Upload.Range) it is its 64-bit pattern, and the arithmetic wraps round. Times are in one
-- unit. `walk_back` of Download.UpgradePath takes fuel, since the source's loop has no bound; what is
-- stated of its paths holds for any fuel, and fuel above the target's id is enough where parents are
-- older than their children, as they are when they are created. `walk_parents` counts down from
-- `maxArchiveChainLength`.
-- `check_build_state` takes the number of rounds, which `check_and_update_build_state` sets to
-- two: the one call of itself finds the build claimed. The goroutine that `FinalizeBuildFile` starts
-- is run before its answer.
--
-- The worker of Archive.Gc.Worker takes the number of sweeps that it makes before the process ends; its
-- timer and the random delay of its first sweep are left out.
--
-- Not modelled: the OpenAPI schemas and their export, the dispatch by the router, how a body is written
-- as JSON, the CORS headers, the S3 client behind the object store's interface and its calls at the
-- start, the storage test handler, the wait for a lock that another process holds, and the scratch
-- directories, whose steps are single calls that may fail. A copy of a request's body into a staged
-- file writes all of it or fails as a whole. A request's body reaches a handler decoded, or as one of
-- the errors that decoding may have. The columns that the program always sets are taken as never NULL,
-- and the ids of upload sessions as names that a path's cleaning leaves alone.
pub mod Base
pub mod Model
pub mod World
pub mod Database
pub mod Http
pub mod Names
pub mod Serialize
pub mod Auth
pub mod Archive
pub mod Build
pub mod Download
pub mod Upload
pub mod Listing
pub mod Process
pub mod Scenarios
