-- ===== src/Lib.antt =====
-- gitrdone: a service that keeps bare Git repos behind an HTTP API. This library models the Go
-- package internal/http, and the configuration of its command, as total functions on explicit states,
-- and proves what they promise.
--
-- The parts, and how they interact. A control client, who holds the control token, creates repos and
-- mints repo tokens through handlers that check each request and call the repo store; a Git client
-- presents a repo token to the Git handlers, which ask the store for a grant and hand it to a backend.
--
--   Text, Time              the strings, instants and durations of Go that the program uses
--   Validation              internal/http/validation.go
--   Ids                     internal/http/ids.go
--   Result, Repository      the errors, inputs, records and interfaces of internal/http/repository.go,
--                           and repoGitStorage of internal/http/git_storage.go
--   Secrets                 newUUID, generateRepoToken and hashRepoToken of repository.go
--   Memory                  memoryRepoStore of repository.go: its four maps are the fields of
--                           MemoryRepoStore, and each method is a function of the same name
--   Idempotency             internal/http/idempotency.go
--   Postgres                internal/http/postgres.go: Postgres/Tables the tables of its migrations
--                           and its statements, Postgres/Session a connection with its transaction,
--                           Postgres/Store postgresRepoStore, Postgres/Idempotency
--                           postgresIdempotencyStore; Postgres/Represents says which maps of
--                           MemoryRepoStore the tables stand for
--   Http                    internal/http/json.go
--   Control                 internal/http/auth.go, git_url.go, repos.go (Control/Repos) and tokens.go
--                           (Control/Tokens)
--   Git                     internal/http/git.go; Git/Revisions the specs and handlers of git_diff.go
--                           and git_raw.go; Git/Buffer cappedBuffer of git_diff.go;
--                           Git/Storage filesystemGitStorage of git_storage.go
--   Lfs                     internal/http/git_lfs.go (Lfs/Protocol, Lfs/Handler) and git_lfs_storage.go
--                           (Lfs/Store)
--   Config                  configFromEnv of cmd/gitrdone/main.go
--   Common                  tests, lists, integers and maps that the parts share
--   Tests                   the definitions on concrete inputs
--
-- How the state is modelled. A method of a store holds its mutex from start to end, so it is one step:
-- a function from the state, the clock's reading and the input to a result and the next state. A
-- history is any sequence of steps (Memory/History). A handler is a function from what it reads of the
-- request and the state to the response and the next state. Go's zero time is 0 nanoseconds, and
-- durations wrap around at 64 bits. Strings are their bytes.
--
-- Parameters. SHA-256, the JSON encoding of the hashed request, the format of times, the disk under the
-- Git storage and the Git backends are arguments. The random source is a list of reads; behind its end
-- a read is an error. JSON bodies are the outcomes of the decoder's two reads.
--
-- A step of a history that draws an identifier is given one that is not in use; the program relies on
-- 122 random bits for this and does not check it.
--
-- A statement of Postgres is one step on the tables. It has an outcome, from a list: done, failed, or
-- done with its answer lost. An error inside a transaction ends it, and what follows fails until the
-- rollback, as PostgreSQL documents it. There is one connection: what another session does between two
-- statements is left out. The conversions of a text to uuid and to jsonb and of an instant to
-- timestamptz are parameters. The choice that CreateRepoToken makes between the pool and the
-- transaction of the context is left out, since there is one connection.
--
-- The loops that draw a token have no bound in Go, and end when a token is new; crypto/rand does not
-- fail there. The end of the list of reads is the model's. The loop of the in-memory store recurs on
-- that list; the loop of the PostgreSQL store has a bound, one more than the reads that are left, which
-- lies behind their end since every round that another follows has used up a read. What is proved of
-- a loop holds for every list of reads; that the loops end is not proved of the program.
--
-- The functions that read numbers, durations and network addresses from the environment are parameters.
-- The object store of LFS calls a file system that is a parameter, as are the functions of
-- path/filepath. A request body is the bytes that it gives, and an error behind them or the end.
--
-- Not modelled: opening and migrating the database (postgres.go), the processes behind the Git backends
-- (git_exec_backend.go, and the exec parts of git_diff.go and git_raw.go), the access log, the
-- route table, the server options, the agent documentation (static text), and of
-- cmd/gitrdone/main.go what starts and stops the server.
pub mod Common
pub mod Text
pub mod Validation
pub mod Ids
pub mod Result
pub mod Secrets
pub mod Time
pub mod Repository
pub mod Memory
pub mod Idempotency
pub mod Http
pub mod Control
pub mod Git
pub mod Postgres
pub mod Lfs
pub mod Config
pub mod Tests
