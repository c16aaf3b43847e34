-- ===== src/Lib.antt =====
-- mhserver is a home server for files: clients register, log in, and store and read files in chunks
-- over HTTPS. A main server checks limits and tokens and calls the data service by gRPC.
--
-- The parts, their code and their files here:
--   * internal/grpc/data (server.go, connections.go, config.go, errors.go): Data and below it. Data/Server
--     holds the state DataServer: the configuration, the map of open connections, the semaphore and
--     the state of the file system. Data/Opening models CreateConnection, Data/Transfer models GetData, GetSum
--     and SaveData, Data/Folders the four calls on directories, Data/Chunks the sizes of chunks,
--     Data/Connections the map with Push, Get, UpdateLoadedFileChunks, ExpectedSavedSpace and clean.
--     Data/Service puts calls and rounds of the cleaner into histories, Data/Upload sends a whole file,
--     Data/Download gets it back. Data/Overlap cuts SaveData into two steps, up to its tests and from
--     the write on, with other calls between them.
--   * internal/repository/dirs/dirs.go and the file-name pattern: Dirs; the patterns are regular
--     expressions of Regex, matched by derivatives.
--   * internal/repository/freemem/free.go: get_available_disk_space in Data/Server.
--   * internal/repository/ratelimit/ratelimit.go: RateLimit. Requests, the tickers of the users and the
--     cleaner are events.
--   * internal/config: Config, and Config/Application for Init and checkMemoryIncompatibility.
--   * internal/server/server.go: Server, the semaphore round the endpoints; Server/Endpoints and
--     Server/Routes, the endpoints that Serve registers as compositions of the middlewares;
--     Server/Routes/Histories puts requests and the limiters' goroutines into histories. Server/Crowd
--     cuts WithMainSemaphore into two steps, with other requests between them.
--   * internal/service/auth/auth.go: Auth; internal/http/auth/middleware.go: Auth/Middleware.
--   * pkg/httperror, pkg/httpjsonutils, internal/http/data/errors.go: Http; Http/Limits models WithRateLimit
--     of both middlewares. Http/Exchange holds what a handler works on: the response, the shared errors
--     and the state behind it. Http/ErrorText models the text and the comparison of errors.
--   * internal/http/data/handler.go: Http/DataHandlers, over a client that is an argument;
--     Http/DataHandlers/Service makes one of the model of the data service, over a connection that may
--     lose requests and replies.
--   * internal/http/auth/handler.go: Http/AccountHandlers, over Auth.
--   * internal/application/application.go, internal/di, cmd/main.go: Application, from a loaded
--     configuration to the servers that are started, and Application/Program for the whole program;
--     Config/Application/Loading reads the configuration and opens the database
--     (internal/repository/database/db.go). Application/Serving puts the started servers to work.
--
-- A call that changes a state is a function from the state to the new state and an outcome (Common/Methods):
-- a value, an error, a panic, or blocked for ever on a channel. What a call has changed stays changed
-- when it fails. Readings of the clock, new identifiers and salts are arguments. Machine integers
-- are natural numbers with their wrap-around written out (Common/Words), int64 values are integers.
--
-- make panics on sizes above what the allocator of Go can give on 64-bit Linux, 2^48 bytes (max_alloc in
-- Common/Words). That less memory may be left, which ends the process, is not modelled.
--
-- Code of other packages is an argument: the operating system (Os, with what is assumed of it in
-- HasFiles and IsWorking, for handles that are open for reading or writing and writes that are not empty,
-- and an instance in Os/Memory), floating-point arithmetic (Data/Chunks, Floats),
-- the Unicode tables (Dirs, Unicode), uuid and sha256 (Data/Server, Env), the database, bcrypt and
-- the signing of tokens (Auth, AuthEnv), JSON, strconv and fmt (Http/Exchange, Formats), jwt.Parse,
-- golang.org/x/time/rate and http.Error (Server/Routes, Web), the reading, download and decoding of the
-- configuration (Config/Application/Loading), grpc.NewClient, the listeners (Served in Application: they return
-- or serve for ever) and what becomes of a call on its way to the data service (Delivery in
-- Http/DataHandlers/Service). The tests instantiate each of them.
--
-- No definition needs fuel: all loops run over lists. The tests' logarithm takes 64 halvings, which
-- is enough for 64-bit numbers.
--
-- Not modelled: calls other than SaveData that overlap inside a call, and what requests that overlap at the
-- main server do to its services; the JSON texts, the router, the constant key of
-- pkg/httpcontextkeys, the interfaces of internal/http/*/models.go and the generated code.
pub mod Common
pub mod Regex
pub mod Os
pub mod Dirs
pub mod RateLimit
pub mod Config
pub mod Server
pub mod Auth
pub mod Data
pub mod Http
pub mod Application
