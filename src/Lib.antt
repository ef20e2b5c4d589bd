-- ===== src/Lib.antt =====
-- Verification of mirrortools: mirrord, the daemon that queues mirror jobs and keeps what it knows of
-- them, its HTTP server and its configuration, and of the programs that it runs, the crawl of a web
-- server and the sources of Git.
--
-- The daemon keeps its jobs in a SQLite database (internal/daemon/store.go): a job is enqueued,
-- claimed by the dispatcher, run by a worker, and finished, retried or quarantined; clients pause,
-- resume, cancel, delete and list jobs, one by one or in batches. A job's output goes to the table
-- job_logs and to the hub (internal/daemon/loghub.go), which keeps the last lines of each job and
-- sends new ones to those who follow it. The server (internal/daemon/server.go) checks who calls,
-- fills in a request from the configuration (internal/config/config.go) and the registry of backends
-- (mirror/mirror.go), and passes it to the queue. The backend for HTTP (httpmirror/httpmirror.go)
-- keeps the URLs of its crawl in a database of its own.
--
-- Files, and what they model:
--   Prelude      tests on numbers, lists, maps, orders, integers, and Go's functions on strings.
--   FilePaths    filepath.Clean, Join, Rel and IsLocal of Go's library, as they are documented, and
--                what they make of names; NetUrl, a parsed URL and the functions of net/url.
--   Job          internal/daemon/job.go: the states, the data of a job and of requests,
--                ExtractRoot, ExtractPath, FlagsJSON, SetFlagsJSON and Validate.
--   Store        internal/daemon/store.go. Store.Tables has the tables, the errors and the calls
--                of the driver; Store.Sql has UPDATE, DELETE, INSERT and SELECT on the tables;
--                Store.Jobs, Claim, Batch, Logs, Settings and Listing have the methods.
--                Store.Lifecycle says what the methods on one job promise, Store.Retry what
--                failures and restarts do, Store.Invariant what every call keeps.
--   LogHub       internal/daemon/loghub.go: the rings, the channels and the sends. LogHub.Follow
--                has the ways to use the hub, and LogHub.Delivery what a client gets.
--   Queue        internal/daemon/queue.go: the dispatcher and the workers; Queue.Methods has the
--                methods that the server calls, and Queue.Steps lets them interleave.
--   Auth         internal/daemon/auth.go: the password, the sessions and ValidateRequest;
--                Auth.Access says who is let in, Auth.Sessions for how long.
--   Registry     mirror/mirror.go: the registry of the backends, Detect and SafeName;
--                Registry.Subdirs says where the directories of SafeName lie.
--   Config       internal/config/config.go: the values of a file, the paths and the defaults;
--                Config.Load reads a file, Config.Valid and Known say what comes of it.
--   Server       internal/daemon/server.go: Server.Queues has the handlers of jobs and of the queue,
--                Server.Submit that of a new job, Server.Sessions the access check, the login and
--                the configuration.
--   Git          git/git.go: Match, parseSource and localPath; Git.Contained says where a clone goes.
--   Http         httpmirror/httpmirror.go: the URLs, the scope and the table of the crawl; Http.Css,
--                Html and DirListing read pages, Http.Fetch has fetch, save and process, and
--                Http.Crawl has run, resolveStart and Mirror. Http.Keeps and Runs carry an
--                invariant through a run; Http.Safety, Termination, Complete and Attempts use it.
--   Tests        runs of the model on small inputs.
--
-- State and operations. The daemon's database is the record Tables: the rows in the order of their
-- ids, the log lines, the settings and the two counters of AUTOINCREMENT. A method of Store is a
-- function on a connection, Conn, and gives a result and the connection after it. A connection also
-- holds the answers that the driver will give: each statement, the start of a transaction and its
-- commit take the next one, and a call that fails changes nothing. Where the theorems say that the
-- driver does not fail, no answers are left, and all calls succeed. Store holds one lock for the whole
-- of each method, so methods do not interleave. The queue's goroutines do: each region under the
-- queue's lock and each call of the store is one event of Queue.Steps, and a run is any list of
-- events; an event that is not possible changes nothing. A worker's context is a number, and a wait of
-- the dispatcher is no event, since it only decides when the dispatcher looks again. A handler of the
-- server is a function on the record Server, and gives its reply and the server after it. The crawl
-- is sequential: the record Crawler has its rows, its counters, the files that it has written and the
-- temporary ones that it has created, and each function gives the crawler after it. The time is an argument. Text is a list of bytes, and
-- the functions on letters are those of ASCII. Integers are natural numbers where the code has counts
-- and ids, and integers with a sign where a caller may give any.
--
-- Parameters. net/url and encoding/json are the record Platform of Job, and net/url is NetUrl for the
-- crawl and for Git. The record World of Http.Fetch gives the answer to each request by the number of
-- the attempt, the state of the context, the files that are there and the tree of a page; an answer
-- says too which step on the file system fails, if one does. The record Env of Config gives the
-- variables of the environment, the files, the values of a TOML file and the names of the methods.
-- The tokens of sessions, ProbeHTTP and the faults of the file system in handleSaveConfig are
-- arguments. SQLite is modelled by what its documentation says of the statements used: LIKE ignores
-- the case of letters, ON DELETE CASCADE deletes the log lines of a job, and ON CONFLICT replaces a
-- setting or updates a row. Where ORDER BY leaves two rows level, the model takes the one with the
-- least id. Lists of states and of ids are not bounded, where SQLite has a limit on the number of
-- parameters. The statements on the crawl's database succeed.
--
-- Not modelled: OAuth; OpenStore, which sets pragmas and migrates old databases; cancelled contexts in
-- the daemon; the time since the start in GetStatus; the broadcast of a worker's lines to the hub; the
-- server's routes, streams and pages; the pauses of the crawl and the times of its files; the commands that run Git, ProbeHTTP and the conversion of dumb repositories; and the
-- other parts of the repository, which are the executor and the client, the command lines and the
-- other backends.
--
-- Fuel. All definitions recurse on their data, but for two loops of the crawl. The run, whose table
-- grows while it runs, takes one unit for each round, and no more rounds are needed than there are
-- URLs, and one. The loop of process takes one for each attempt, and has as many as there are
-- attempts, which is enough: with more it does the same.
mod Prelude
pub mod FilePaths
pub mod NetUrl
pub mod Job
pub mod Store
pub mod LogHub
pub mod Queue
pub mod Auth
pub mod Registry
pub mod Config
pub mod Git
pub mod Server
pub mod Http
mod Tests
