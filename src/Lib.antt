-- ===== src/Lib.antt =====
-- A model of cloudeagent, which runs one agent instance for each user in a sandbox, and what holds
-- of it.
--
-- The control plane (cloud-backend/cmd/admin) keeps a record of each user's instance in a store and
-- drives a sandbox provider; it reaches the instances through the gateway (cloud-gateway), which maps
-- users to endpoints; each instance runs an agent engine (cloud-backend/cmd/runtime). The modules:
--
-- Prelude: shared tests, lists, texts (Go strings as lists of bytes) and maps (association lists).
-- Types, Db: cloud-backend/pkg/db. Types has the records and the errors, Db.Store the interface
--   `Store` with its laws, Db.Memory the store in memory, Db.Cache the configurations in memory, Db.Redis those in Redis.
--   Db.Postgres is postgres.go over Db.Tables, tables whose statements keep their laws, and the rows
--   of Db.Rows.
-- Sandbox: cloud-backend/pkg/sandboxprovider. UserId is `ValidateUserID`; Polling and Health are
--   `WaitHealth`; E2b is the provider of e2b/provider.go over the SDK, a parameter; Process is
--   process/provider.go over the files and the processes of a machine, Docker is docker/provider.go
--   over the Docker command.
-- Manager: cloud-backend/pkg/sandboxruntime/manager.go. Each method is a function that passes the
--   state on: the store, the cache, and a world that the outside calls act on. Manager itself has
--   `Create` and `Wake`, cut at their early returns (create_sandbox, create_started, ...), Control the
--   other methods that change records, Session those that forward to the instance. Lifecycle has any
--   sequence of calls.
-- Reaper: reaper.go of the same package. Restart: the part of cloud-backend/cmd/admin/main.go that
--   gives the E2B provider its mapping back.
-- Runtime: cloud-backend/pkg/agentruntime/session.go. Log is the file of messages and what is read
--   from it, Session the two ways to chat, over any engines, Http the pages and
--   Socket the WebSocket of cloud-backend/pkg/apiserver/agent/handler.go. Daemon is daemon.go with
--   the engine behind its session: what a program links, and how a configuration is set.
-- Reviews: cloud-backend/pkg/services/reviews.go, over any store. Pattern is its regular expression, over bytes, and
--   Scanning the scan of a directory, a tree in the order of the walk.
-- Scanner: bufio.Scanner, which the scan of a file and the client of the kernel process use.
-- Relay: how a session over WebSocket is passed on, by handleSessionWS of server.go and by
--   handleWSRelay of the gateway; Server.Sockets and Gateway.Tunnel are these two handlers.
-- Api, Server: cloud-backend/pkg/api/middleware.go, and auth.go and server.go of
--   cloud-backend/pkg/apiserver/controlplane: Server.Auth has the tokens, Server.Handlers the routes
--   and handlers, Server.Connections the counts of open sessions.
-- Gateway: cloud-gateway/internal/registry and cloud-gateway/internal/server; Gateway.Client is the
--   control plane's client of it, gateway.go of cloud-backend/pkg/sandboxruntime.
-- Transit: that client, the gateway's routes, the instance's pages and its session, composed.
-- Engine: cloud-backend/pkg/agentengine. Engine.Acp is the client of the kernel process
--   (qwenpaw/acp.go): its critical sections, as steps that interleave in Acp.Steps, in Acp.Reading
--   how it reads, and in Acp.Prompts its calls, which leave the lock while they wait; what happens
--   then is an operation of the host that may change the kernel's part in any way, but not the
--   configuration. Engine.Qwenpaw is
--   qwenpaw/engine.go over it, Engine.Json the decoded messages, Engine.Files the environment and
--   the files of the process.
-- Examples: runs on concrete inputs.
--
-- A method under a lock is one step; so is appendLog, which takes none, so that what is said of it is
-- of calls with no other in between. A time is a number of nanoseconds, read from the world. The
-- polling loop has one round of fuel for each pause that fits the timeout, and two more; the loop of
-- `chunkText` has one for each rune, and the wait of the process provider its 20 rounds. What is
-- called from outside (the providers, the gateway, the seat service, the SDK, the database, the
-- machine, the hash, the engines, the JSON encoding, the regular expression of headlines) is a
-- parameter.
--
-- Not modelled: how the kernel process is started, the summary of a workspace, CORS, the programs' flags, the
-- stubs for tests, and the web client: they are calls of libraries, files and processes; and the
-- timeouts of the clients' requests.
pub mod Prelude
pub mod Types
pub mod Db
pub mod Sandbox
pub mod Manager
pub mod Reaper
pub mod Restart
pub mod Api
pub mod Server
pub mod Gateway
pub mod Engine
pub mod Examples
pub mod Runtime
pub mod Scanner
pub mod Relay
pub mod Reviews
pub mod Transit
