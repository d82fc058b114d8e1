-- ===== src/Lib.antt =====
-- Verification of the gateway to TON Storage.
--
-- The gateway serves the files of TON Storage bags over HTTP. A request for a bag and a path is
-- checked and cleaned by the handlers (pkg/httpServer), looked up by the file service
-- (pkg/services/files) behind a cache of listings, and the service asks in turn the database of
-- bans (pkg/repositories/files, behind a cache of its own), the storage daemon
-- (pkg/clients/ton-storage) and the network (pkg/clients/remote-ton-storage).
--
-- Which file models which part:
--   Common, Text, FilePath, Dict: helpers. Text and FilePath hold the functions of Go's packages
--     strings and path/filepath that the gateway calls, over bytes, with FormatUint
--     (Text.Decimal) and QueryUnescape (Text.Unescape); the tables of the package unicode are a
--     parameter (Text.Unicode) with laws. Dict is the Go map with string keys.
--   Models: pkg/models/apperror.go, and the errors that pass between the layers.
--   Cache: pkg/cache/simple.go (SimpleCache). The clock is an argument of each method, and its mutex
--     makes each method one step.
--   Repositories: pkg/repositories/files/cache.go (cacheMiddleware: HasBan, UpdateBanStatus, ...)
--     over a repository that is a parameter; Coherence says what the cache relies on. Sql is
--     pkg/repositories/files/repository.go, each statement as a function of the tables, and meets
--     it (Sql.Bans); Sql.History is about calls through both. Measured is
--     pkg/repositories/files/metrics.go.
--   HttpServer.Validate: validateBagID and sanitizePath of pkg/httpServer/helpers.go.
--   HttpServer.Contained: the path from sanitizePath to the file that is opened.
--   Services.Files: pkg/services/files/service.go. Listing is `ls`; Local is getFromLocalStorage;
--     Monad holds getEnsureLock, and Locks its laws; Ensure is doEnsureBagInStorage and
--     ensureBagInStorage; Service is getFromRemoteStorage, streamRemoteFile and GetPathInfo. The
--     database, the daemon, the remote client, the clock and the mutexes act on a World that is a
--     parameter (Ensure.Outside).
--   Services.Files.Cached: pkg/services/files/cache.go.
--   Services.Files.Wired: the service over the tables and the storage daemon, as cmd/main.go puts
--     them together, without the metrics; the remote client stays a parameter there. Ending and
--     Ended are about the cached service over it.
--   Services.Reports: pkg/services/reports/service.go, over the repository of Repositories.
--   HttpServer.Response: errorHandler and mapPathInfoError of pkg/httpServer/helpers.go.
--   HttpServer.Tokens: the tokens in New (pkg/httpServer/handler.go) and requirePermission
--     (pkg/httpServer/middlewares.go); Format is the text of SYSTEM_ACCESS_TOKENS as cmd/config.go
--     describes it.
--   HttpServer.Routes: RegisterRoutes of pkg/httpServer/router.go and, in Debug, router_debug.go, and
--     securityHeadersMiddleware (pkg/httpServer/middlewares.go). A route of Get answers HEAD too.
--     Granted goes from the text of the configuration to the handlers.
--   HttpServer.Serve: serveFile (pkg/httpServer/methods.go), serveHTMLFile and the part of
--     streamWithDeadline that runs before the handler returns (pkg/httpServer/helpers.go). Copied
--     is the loop that it leaves running.
--   HttpServer.Metrics: pkg/httpServer/metrics.go, with requests that overlap in Counted. Metrics is
--     what a collector is made with.
--   HttpServer.Logged: loggerMiddleware (pkg/httpServer/middlewares.go), limitReached and health
--     (pkg/httpServer/methods.go).
--   IframeWrap: pkg/iframewrap, over html.EscapeString.
--   HttpServer.Gateway: getBag, getPath and getBagInfoResponse (pkg/httpServer/methods.go); Withheld
--     is about them over the cached service of Services.Files.Wired.
--   HttpServer.Admin: the handlers for reports and bans (pkg/httpServer/methods.go), over
--     Services.Reports.
--   Clients.BagsCache: pkg/clients/remote-ton-storage/cache.go. The loop of Set is given one round
--     more than there are entries: each round that goes on deletes one.
--   Clients.Remote: pkg/clients/remote-ton-storage. Torrents is getTorrent, Listed is ListFiles,
--     Stream is StreamFile with the goroutine that feeds its pipe, Metered is meteredStream, Opened
--     is NewClient and Close, and Virtual the rest of virtualStorage.go. The libraries tonutils-go
--     and tonutils-storage, the clock and the mutexes act on a World that is a parameter
--     (Remote.Network); the goroutine of a stream runs as one sequence of steps. Failed, Listing,
--     Content, Delivered and Streams hold the laws. Races is getTorrent as steps of many requests
--     for one bag, with its invariant; what stands between the second lookup and the insertion or the
--     error is one phase of a request there. Collectors is metrics.go.
--   Clients.Storage: pkg/clients/ton-storage/client.go, over an HTTP transport that is a parameter.
--   Templates: pkg/templates/templates.go and FormatSize of pkg/utils/network.go.
--   Cmd: Config is cmd/config.go, Postgres cmd/init.go with the connection string read back in Url,
--     Run main and run of cmd/main.go, with the steps that open and close something as events, and
--     Collectors the collectors of the database in run. Text.Escape holds QueryEscape and the way
--     in which net/url reads user names and passwords. The reader of the environment, the driver of
--     the database, the registry of Prometheus and the parser of the templates are parameters.
--   Tests: runs on concrete inputs, and each theorem at an input that meets its hypotheses.
--
-- Bounds and fuel: the polling loop of doEnsureBagInStorage is given 62 rounds. A round that does not
-- end the loop waits 500 milliseconds, and the loop ends after 30 seconds. Times are natural numbers
-- of milliseconds. The loops of a stream over its pieces are given one round more than there are
-- pieces, which is enough where the last piece is below 2 ^ 32 - 1: the loops count in 32 bits.
--
-- Not modelled: what is logged, but for the headers of a request; the help texts and the durations of
-- the collectors and the page that shows them, which is the library's; a call of the caching
-- repository that runs between the two halves of another one, whose cache alone has a mutex; the
-- spaces that PostgreSQL cuts off a value that is too long; the database itself with the triggers
-- that keep its history, the HTTP framework and the network libraries, which are parameters or stand
-- outside.
mod Common
mod Text
pub mod FilePath
pub mod Dict
pub mod Metrics
pub mod Models
pub mod Cache
pub mod Repositories
pub mod HttpServer
pub mod Services
mod Tests
pub mod Cmd
pub mod Clients
pub mod IframeWrap
pub mod Templates
