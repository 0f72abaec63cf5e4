-- ===== src/Lib.antt =====
-- vanitykeygen: a server that keeps search targets and collects matching SSH keys, and clients that
-- generate keys and test them.
--
-- The server (pkg/server) answers HTTP requests. A handler reads and writes the database through the
-- store (pkg/store), sends an event to the hub (pkg/server/sse.go) that feeds the streams of the
-- dashboards, and replies. Clients fetch the compiled patterns of the active targets, register, send
-- heartbeats and post matches; the server attributes a match to a target itself. A reaper marks and
-- deletes the clients that have gone quiet.
--
-- Which file models which part:
-- Vkg, Vkg/Id          pkg/vkg/vkg.go: the data types, Match.Summary, NewID
-- Runtime              what comes from outside (below), and the actions that methods and handlers are
-- Table, Table/*       the SQL statements of pkg/store/store.go on a table as the list of its rows
-- Store, Store/*       pkg/store/store.go: the schema, New, and every method, a file for each table
-- Store/Clean, Integrity, Ids  failures that change no table; unique IDs, and matches of stored targets; NewID
-- Hub, Hub/*           pkg/server/sse.go: Subscribe, Close, Broadcast, the channels
-- Server/Compile       pkg/server/compile.go
-- Server/Validation    pkg/server/routes_targets.go: the checks of a target
-- Server/TargetRoutes  pkg/server/routes_targets.go: the handlers
-- Server/MatchRoutes, Server/Attribution  pkg/server/routes_matches.go, cachedCompile
-- Server/ClientRoutes  pkg/server/routes_clients.go
-- Server/Limit, Server/Background  parseLimit, seeding and the reaper of pkg/server/server.go
-- Server/Stream, Server/Stream/*  handleSSE of pkg/server/sse.go, and what others do with the hub meanwhile
-- Server/Run, Server/Run/Ends  FlagSet and Run of pkg/server/server.go
-- Server/Requests, Requests/*  the routes of setupRouter, and requests, event streams and reaper ticks in
--                      any order
-- Server/Keeps, Clean, Lists  handlers that keep a property of the tables, that fail cleanly, that list
-- Server/Valid, Stored, Reaping, Privacy  what is proved of the handlers, the checks and the reaper
-- Regexp               compiled expressions, for both sides
-- Keygen               pkg/keygen/keygen.go
-- Client, Client/Seeker  pkg/client/main.go: requests and the main loop; the loop of a seeker
-- Client/Run, Client/Run/*  FlagSet, the start and end of Run, and LogValue of pkg/client/main.go
-- Command, Command/Endings  cmd/vkg/main.go
-- Client/Counting, Totals, Genuine, InStep, Reports, Drains, Attributed, Attributed/*
--                      what is proved of it
-- Text, Dedup, Members, Common  the uses of Go's strings, and shared lemmas
-- Tests, Tests/*       a concrete environment, runs, and the theorems at concrete inputs
-- Names are those of the code in snake_case.
--
-- What comes from outside is the record Env of Runtime, an argument of every operation that uses it:
-- whether the database call with a given number fails and how, the random bytes, the clock, the order
-- that ORDER BY … DESC gives, json.Marshal, %q, float64 addition, unicode.ToUpper and ToLower, and
-- regexp. The records Crypto of Keygen and Net of Client hold the cryptography and the answers of the
-- HTTP client, and a Turn of Client/Seeker what one turn of a seeker's loop meets: the patterns that
-- the client holds, the key, the ticker, and whether the context is done. No law of these is assumed
-- unless a theorem names it. A call that fails changes no table.
--
-- State is passed explicitly: an operation takes the store or the server and returns an outcome, the
-- error paths included, beside the new state. A handler's request is what the path, the query and the
-- JSON decoder give. Times are nanoseconds since the zero time; a TEXT column of RFC 3339 holds whole
-- seconds. An int64 and a float64 are their bit patterns; the number of seekers is a signed integer. No
-- loop needs fuel: all go over lists, the loops of the client over the list of what they meet until they are stopped.
--
-- A handler runs to its end before the next one where several are in play (Server/Requests); the
-- operations of the hub, which hold its mutex, are interleaved freely (Hub/Reach, Server/Stream). An
-- event stream is what its loop takes, in order, between the operations of others; a receive of another
-- stream is from a channel of its own and is left out there. Run of the server goes through a list of
-- requests, reaper ticks, event streams that open and turns of their loops until its context is done;
-- what the streams do after Close is Server/Stream, and the handlers that still run then, for up to 5
-- seconds, are not in it. Run of the client goes through what its loop takes and the keys that its
-- seekers count in between; the seekers themselves are Client/Seeker.
--
-- Of Env three laws are assumed, where a theorem names them: ORDER BY only rearranges the rows
-- (Runtime/Order), rand.Read fills its 8 bytes (Store/Ids), and an expression that compilePatterns
-- builds from quoted words matches only a text with a part that is one of them, in the case that its
-- flag asks for (Client/Attributed/Words); that the server's own search finds such a part is proved.
-- What the flag package makes of the arguments is an argument of both Run functions and of main, which
-- takes the Run functions too: how they end includes that the flag package, or a panic, ends the
-- process. The greatest capacity of a channel is an argument of Run of the client.
--
-- Not modelled: logging, net/http below the handlers with its listener and shutdown, signals, the flag
-- package, the files of the database below SQL, the web assets, and the process priority of the client.
pub mod Common
pub mod Vkg
pub mod Runtime
pub mod Table
pub mod Text
pub mod Store
pub mod Hub
pub mod Server
pub mod Dedup
pub mod Members
pub mod Tests
pub mod Regexp
pub mod Keygen
pub mod Command
pub mod Client
