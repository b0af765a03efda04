-- ===== src/Lib.antt =====
-- The appx control plane: a Go server that gives each project of a user its ports and subdomains,
-- guards them behind a login, and decides to which hosts the coding agent may connect.
--
-- Parts and files (paths from the repository's root):
-- Egress - internal/egress. Egress/Glob and Egress/Store are store.go (labelGlob,
--   wildcardHostMatch, IsAllowed, SetAllowlist, AddToAllowlist, the log). Egress/Pending is pending.go:
--   the agent's requests, each with the channel that its handler waits on; Resolve releases the lock
--   between its halves, so these are two steps of a run. Egress/Proxy is ServeHTTP of proxy.go,
--   Egress/Listener is handleEgressRequest of listener.go, Egress/Handlers is
--   internal/server/egress_handlers.go. An approval in Handlers goes through Pending into Store, which
--   Proxy asks for each connection.
-- Project - internal/project. Project/Name is ValidateName, Project/Ports the search of
--   nextAvailablePortPairTx, Project/Store store.go, Project/Manager manager.go, Project/Health
--   health.go, Project/Agent internal/agentserver/client.go, the client that Project/Manager calls,
--   Project/Handlers internal/server/project_handlers.go.
-- Auth - internal/auth. Auth/Sessions is the table of sessions and the middleware, Auth/Passwords
--   the settings table and the password, Auth/Handlers the handlers of
--   internal/server/auth_handlers.go and settings_handlers.go.
-- Server - internal/server. Server/RateLimit and Server/ClientIp are ratelimit.go, Server/Middleware
--   is middleware.go, Server/Mirror the paths that agent_proxy.go forwards, Server/Router the dispatch
--   by host of router.go, which reads the table of Project/Store and the URLs of Project/Manager.
-- Runtime - internal/containerruntime and cmd/appx/main.go. Runtime/Spec is spec.go and the drift test
--   of supervisor.go, Runtime/Config config.go with the image of agentversion.go, Runtime/Docker
--   docker.go, Runtime/Startup the functions of main.go that read the environment, build the
--   specification and bring the container up. The container publishes the ports that Project/Ports
--   allocates.
-- Terminal - internal/terminal. Terminal/Ring is ringbuf.go. Terminal/Fanout holds the loops over
--   subscribers that manager.go and local.go share; Terminal/Sessions is manager.go, Terminal/Local
--   local.go, Terminal/Container container.go, Terminal/Socket what handler.go decides. Terminal/Shell
--   holds the replies of internal/server/shell_handlers.go. A session keeps its output in a buffer of
--   Ring and sends it through Fanout; Sessions/Safe and Sessions/Reach take each critical section as a
--   step, so that calls of several goroutines interleave.
-- Base and Text hold what these share: Boolean tests and lists over the native numbers, Go strings
--   as lists of bytes with the operations of the package strings, strconv.Atoi and Itoa, and
--   net.SplitHostPort.
--
-- State is passed explicitly: an operation takes the state and gives its result with the new state.
-- A database call takes a Boolean that says whether it succeeds; a transaction takes effect as a
-- whole. Times are numbers of nanoseconds, read where the code reads the clock. Random bytes, new ids,
-- SHA-256, bcrypt, net.ParseIP, the network, the agent-server and the docker command line are arguments
-- or parameters. A call on a Go channel that would panic or block has that as its result.
--
-- Bounds and fuel: a number n is printed with n + 1 digits at most, and itoa is given that fuel;
-- the search for ports makes a round for each port of the published range, 200 in all; the wait for
-- the container's health makes no more rounds than its timeout, or the rest of
-- the caller's context, has nanoseconds, for each takes the poll
-- interval at least, and never runs out. Every other
-- recursion is on the structure of its input. Go's int is read with 64 bits by Atoi.
--
-- Not modelled: the bytes that flow through tunnels, proxies and WebSockets, the texts of
-- errors, TLS, SQLite itself, the wiring of listeners and signals, and the web dashboard.
mod Base
pub mod Text
pub mod Auth
pub mod Egress
pub mod Project
pub mod Server
pub mod Runtime
pub mod Terminal
