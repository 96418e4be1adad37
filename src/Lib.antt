-- ===== src/Lib.antt =====
-- A verification library for the cloud orchestrator of Android virtual devices (Cuttlefish) and the
-- client of its API.
--
-- The parts, and where they are modelled:
--
-- * The web API (pkg/app/app.go): App. `App.Defs` has the application with the services that it
--   uses, a request, and the world that a handler changes: database, outside world, random values
--   drawn, and the writes to the response in their order. `App.Sessions` has the session cookie,
--   `AuthHandler` and `parseAuthorizationResponse`; `App.Credentials` the storing, fetching and
--   refreshing of a user's build API credentials; `App.Oauth` the callback and the withdrawal;
--   `App.Hosts` the handlers of hosts and `ForwardToHost`; `App.Server` `ServeHTTP`,
--   `Authenticate`, the routes and the cross-origin headers.
-- * Its errors (pkg/app/errors): Errors. A Go error is a value of `GoError`, with its chain.
-- * Accounts (pkg/app/accounts): Accounts. A nil pointer inside a non-nil interface is a value.
-- * The databases (pkg/app/database): Database.Memory and Database.Spanner fill the record
--   `DatabaseService`, over which the application is written. Database.Refinement has the abstract
--   database of the former, and Database.Contract what both promise of stored credentials.
-- * Encryption (pkg/app/encryption): Encryption has `EncryptionService` and the fake one that fills
--   it, Startup.Kms the one by Google's key management.
-- * Instance managers (pkg/app/instances): Instances.Gce (gce.go, with the link pattern in
--   Instances.TargetLink) and Instances.Local (local.go) fill `InstanceManager`; Instances.HostClient
--   has the requests to a host (hostclient.go).
-- * The client of the API (pkg/client/client.go): Client. `Client.Requests` has `doRequest` with
--   its retries, and `Client.Requests.Wire` a network behind an HTTP library that may or may not
--   replay the body of a request that is sent again; `Client.Service` the methods of the service, `Client.Upload` the upload in chunks,
--   `Client.Poll` the polling and forwarding of signaling messages, with the goroutines that
--   `initHandling` starts in `Client.Poll.Handling`.
-- * The WebRTC client (pkg/webrtcclient): Webrtc. A `Controller` has what was written to the send
--   channel and whether it is closed, the caller's result and the observer's calls. Webrtc.Safety
--   has its callbacks and messages as the steps of a relation, `Webrtc.Signaling` the loop that
--   handles messages as a function, and Webrtc.Outcome relates them.
-- * The command line (pkg/cli): Cli. `Cli.Forwarder` (conn.go) has the forwarder, whose goroutines
--   and callbacks are the steps of a relation; `Cli.Agent` the controller of an agent's process with
--   its control socket; `Cli.Connections` the control directory through which agents are asked;
--   `Cli.Logs` the old logs; `Cli.Adb` the ADB server (adbserver.go). `Cli.LocalBuild`,
--   `Cli.Creation` and `Cli.Listings` have cvd.go and host.go over `Cli.Service`, the interface of
--   the client. `Cli.Selection`, `Cli.Console`, `Cli.Args` and `Cli.Commands` have cli.go: prompts,
--   printing, an agent's arguments, and one function for each command.
-- * Start-up (cmd/cloud_orchestrator, cmd/cvdr, pkg/app/config, secrets and oauth2): Startup. The
--   server's parts are chosen from the configuration by `Startup.Loading`, `main` up to the call of
--   `ListenAndServe` being `start`; `Startup.Cvdr` has the command line's own configuration.
-- * Exec is the effect of Go methods that change a state and return an error: a result, an error or
--   a panic, beside the new state, which an error does not undo. `defer` is `deferring`. Prelude and
--   Text have what the parts share: lists, maps, decimal and hexadecimal text.
-- * Tests runs the models on concrete data.
--
-- What the program does not contain is a parameter: the Compute Engine service (`ComputeApi`), the
-- OAuth2, JWT and JSON libraries (`OAuth2Api`, `Readers`), the Spanner client (`SpannerApi`), the
-- HTTP transport (`Transport`), the router's matching of paths, the random generator (`rng`), files
-- on the disk, the WebRTC library (`PeerConnection`), sockets and directories (`Sockets`), what a
-- connection agent is set up with (`Setup`), the terminal and child processes (`CommandEnv`), the key
-- management and secret clients (`KmsClient`, `SecretClient`). Where a theorem needs documented
-- behaviour of one of them, that is a hypothesis.
--
-- Numbers: the model's numbers are unbounded; page sizes are tested against 32 bits where the code
-- does (`strconv.ParseUint`), random values are 64-bit ones, chunk counts are exact as long as file
-- sizes stay below 2^63. Fuel: `itoa` has one unit more than the number, of which it uses one per
-- digit; the retries and the forwarding attempts count down what the code counts up to; the retries
-- of an upload job end with the durations that the back-off library gives; writing to a connection
-- has one unit more than the text has characters, since each call writes at least one.
--
-- Concurrency: workers and goroutines of an upload or a deletion of hosts are the order in which
-- their results arrive; the sends on the unbuffered channel of a poll's messages block where its
-- receiver receives no more, of which `receives` is the parameter; the steps of the forwarder and
-- of the WebRTC controller are what runs under the mutex or between two calls of the network, in
-- any order. The goroutines of a listing or of several connections, whose results are collected in
-- the order of their start, run in that order.
--
-- Not modelled: the wiring of commands and flags by the cobra library, the test for a terminal, what
-- the forwarder copies between its socket and its data channel, the reading of the ICE configuration
-- file, the mounting of handlers on the HTTP server, the texts of logs, and the web interface, which
-- is written in another language.
pub mod Prelude
pub mod Errors
pub mod Exec
pub mod Text
pub mod Database
pub mod Encryption
pub mod Accounts
pub mod Instances
pub mod App
pub mod Client
pub mod Webrtc
pub mod Cli
pub mod Startup
pub mod Tests
