-- ===== src/Lib.antt =====
-- cc-tunnel runs the Claude Code CLI for a web chat: an API server (apps/cc-tunnel) keeps
-- conversations in PostgreSQL and runs one container of cc-remote-agent (apps/cc-remote-agent) per
-- conversation, on the local docker daemon or, through a container-manager (apps/container-manager),
-- on GCE VMs that it creates; a VM that hosts no agent for long enough deletes itself or is deleted by
-- the server. A message is sent as a request to the conversation's agent, which runs the CLI and
-- streams its events back.
--
-- Common                 helpers: Boolean tests, tables as lists, (value, error) results
-- Db, Db.Vms,            apps/cc-tunnel/internal/db/repository.go: one function per statement on the
-- Db.Endpoints           tables vm_instances and session_endpoints, with the constraints of
--                        migrations/ (UNIQUE, CHECK, foreign key)
-- Db.Constraints,        the constraints as a predicate, and the writes; the search for a free port
-- Db.Invariant, Db.Ports
-- Sessions               apps/cc-tunnel/internal/docker/session_manager.go, every method
-- Sessions.Laws,         the map of sessions after each call; Stop and the idle timer; the timer of
-- Sessions.Timers,       a session whose container has died
-- Sessions.Stale
-- Sessions.Provider      apps/cc-tunnel/internal/provider/local/docker_provider.go
-- Cli                    apps/cc-remote-agent/internal/claude/executor.go: the CLI's arguments
-- Cli.Args               how a reader of options takes those arguments
-- Cli.Search             containsAny against substrings
-- Cli.Run,               runStream and StreamToWriter; what a client gets when a session cannot be
-- Cli.Run.Fallback       resumed
-- SelfReaper             apps/container-manager/internal/selfreaper/reaper.go: New, tick, Run
-- Gce                    apps/cc-tunnel/internal/provider/dockergce/provider.go: the provider's world
-- Gce.Reconcile          ReconcileVMs; which rows it deletes (Safety), and VMs that still have an
--                        endpoint (Orphans)
-- Gce.Pick, Gce.Wait,    pickHealthyAvailableVM; createGCEVM and the waits; getOrCreateEndpoint and
-- Gce.Endpoint           Execute
-- Gce.Endpoint.Found     the endpoint that a conversation is given
-- Gce.Flight             concurrent calls of getOrCreateEndpoint through singleflight
-- Gce.Flight.Serves,     a conversation's endpoint stays the one found; what concurrent calls come
-- Gce.Flight.Agrees,     back with, and what they start
-- Gce.Flight.Once
-- Gce.Operations         the provider's methods in any order, and the VMs' counters through all of
--                        them (.Counters)
-- Gce.Keeps, and Kept,   what each method keeps, given what its statements keep (Common.Keeping has
-- Reuse, Counters, Room, the rules); the room on the VM that an endpoint is put on
-- Obtained, Lookup
-- Db.Counts              the counters of VMs against the rows of endpoints, and what each write does
-- Gce.Cleanup            CleanupOrphans; which rows it removes (Rows, Sound, Forgets) and which
--                        instances it deletes (Spares)
-- Stream                 apps/cc-tunnel/internal/remoteclient/client.go: the events of a stream
-- Stream.Aggregate       apps/cc-tunnel/internal/api/message_service.go: Handle and what it calls
-- Stream.Blocks,         the blocks, and the tool calls, of a stream described independently
-- Stream.Results,
-- Stream.Tools
-- Turn.History           message_service.go: findResumeSessionID, buildExecuteRequest
-- Turn.Persist           message_service.go: executeAndPersist and Finalize
-- Turn.Resume,           which session is resumed; what a turn writes
-- Turn.Writes
-- Turn.Apply,            those writes on the tables, and the session id that they leave
-- Turn.Session
-- Turn.Title             apps/cc-tunnel/internal/api/title.go, and the shape of a title
-- Chat, Chat.Rows        db/repository.go: the tables conversations and messages
-- Chat.Merging           the keys of a merged jsonb object
-- Vault, Vault.Service   apps/cc-tunnel/internal/credential: encryptor, table, service
-- Vault.Book,            the service as a map of credentials in the clear; a fetch after a store
-- Vault.Refines,
-- Vault.Stored
-- Server                 apps/cc-tunnel/internal/api: the server's state and its checks
-- Server.Accounts,       app_auth_handler.go; conversation_handler.go and mapping.go;
-- Server.Conversations,  message_handler.go
-- Server.Send
-- Server.Relogin,        credentials_handler.go; auth_handler.go and getSessionClientOrRespond;
-- Server.Proxy,          apps/cc-tunnel/internal/admin/reconcile_vms.go
-- Server.Admin
-- Server.Gate,           who is served; what a message starts; a turn followed by the
-- Server.Starts,         conversation's next message; a login in a container and the next message
-- Server.Resumes,
-- Server.RoundTrip
-- Login, Login.Steps     apps/cc-remote-agent/internal/auth/manager.go, as steps in any order
-- Login.Invariant        what holds in each of its states
-- Remote                 apps/cc-remote-agent/internal/api/handler.go
-- Remote.Client,         apps/cc-tunnel/internal/remoteclient/client.go, and the session id of a
-- Remote.Client.Last     stream
-- Gce.Clients, Gce.Loops provider.go: the clients of sessions; idle_checker.go and vmscaler.go
-- Agents, Agents.Api     apps/container-manager/internal: docker/manager.go and api/handler.go
-- Agents.Labels,         the labels of a container; what docker is asked for; its limits; the
-- Agents.Creates,        response
-- Agents.Limits,
-- Agents.Answers
-- Agents.Client,         apps/cc-tunnel/internal: cmclient/client.go; docker/cmrunner.go
-- Agents.Runner
-- Setup, Setup.Start     apps/cc-tunnel/cmd/cc-tunnel/main.go: reading the environment; main
-- Setup.Providers        main.go: newLocalRunner and newProviderFromEnv
-- Setup.Emails,          the emails that splitAndTrim reads back; who may use the reconcile endpoint
-- Setup.Route            of a server that has started
-- Examples               runs on concrete inputs
--
-- A UUID is a number, since the code only compares it, and so are times and durations. A Go string
-- is the list of its bytes. PostgreSQL, GCE, and container-manager answer through the record
-- Gce.Outside, a function of the number of calls made so far, so that any call may fail at any
-- time. The records Sessions.Docker and Cli.Run.Process do the same for the local docker daemon
-- and the CLI. Within one operation the database is changed by that operation only, but for
-- Gce.Flight: there the calls of getOrCreateEndpoint for one conversation interleave with each
-- other and with the writes of other goroutines, in the steps that singleflight leaves (the lookup
-- before it, and the function it is given, which no other call for the conversation runs at the
-- same time). Log output and HTTP are not modelled. A wait polls a number of times that comes from
-- outside, since its deadline does. In executeAndPersist the handling of an event and a batch tick
-- are single steps, as both take the aggregator's mutex, and their order is a list. Decoding JSON
-- is a library's, so requests and message data come decoded; a response is its status and what its
-- body tells. AES-GCM is a parameter of Vault, the reader of the CLI's options one of Cli.Args,
-- and what encoding/json makes of a string one of Remote; docker answers container-manager through
-- the record Agents.Daemon. A title is made of runes; the fuel of its passes is the length of the
-- text. Not modelled: the copying of pty streams, and the entry points of the other two programs;
-- logging, generated code and clients of cloud services stay outside. The idle rows that
-- CleanupOrphans lists come in the order of their table, not by time.
pub mod Common
pub mod Db
pub mod SelfReaper
pub mod Gce
pub mod Stream
pub mod Chat
pub mod Turn
pub mod Vault
pub mod Server
pub mod Login
pub mod Agents
pub mod Remote
pub mod Setup
pub mod Examples
pub mod Cli
pub mod Sessions
