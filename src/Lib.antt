-- ===== src/Lib.antt =====
-- A verification library for the server of moblog-cloud, which hosts blogs that their owners push
-- with git. Users and blogs are managed through the admin server, over a user store and a session
-- store. The git server asks the admin server whom a request's cookie belongs to, serves the
-- repositories of that user's blogs, and posts a render job to a work queue after each push. A worker
-- picks the jobs, and renders and publishes the blog.
--
-- The files and the code that they model, all of it in Go under server/pkg:
--   Prelude: what the program uses of the language: strings as lists of bytes, maps, error values.
--     The errors of the packages are constructors of one type, as callers compare them. A call that
--     returns an error returns `Result`, which also has the panic.
--   UserStore: userstore/userstore.go (User, Blog, the interface, validateUser, validateBlog).
--     UserStore.Spec is the abstract view, accounts by name, and what each method promises.
--     UserStore.Memory is userstore/memoryuserstore.go; its children are the invariant (a record is
--     keyed by the name of its user, a blog by its slug), the refinement and the passwords.
--     UserStore.Sql is userstore/sqluserstore.go over a record of the calls of its database, with its
--     transaction; UserStore.Tables is what its statements mean on the tables of server/sql. Databases
--     has the two kinds of database: one whose connection may fail at any call, and one that answers.
--   SessionStore: sessionstore/sessionstore.go, with what the interface promises; Memory is
--     memorysessionstore.go and Redis is redissessionstore.go. A call takes the time at which it is
--     made, in nanoseconds; a session that was never set is Go's zero value, as the map returns it.
--   AdminServer: adminserver/server.go: the methods of the users and blogs services, and `dispatch`
--     from a call to its method. AuthSession is session.go; Login is the login and the logout handler.
--     The handlers are written over the two interfaces, and the theorems take their contracts.
--   RpcClient: rpcclient/client.go. AdminClient: adminserver/client.go, with the cookie that it keeps;
--     its state is threaded beside the network's, which has the cookie jar. Its child Sessions
--     joins it to the login handler.
--   GitServer: gitserver/server.go: Paths (repositoryPath, with path.Join), Packets
--     (writeGitPacket), Handlers (userSessionFromRequest to serveReceivePackHTTP), Router (the routes of
--     New, and ServeHTTP).
--   IdGenerator: idgenerator/string.go. WorkQueue: workqueue/workqueue.go; WorkQueue.Memory is
--     memoryworkqueue.go, and WorkQueue.Memory.System its goroutines as a step relation: `Post`,
--     `Pick` in its two halves, `Finish`, and the grooming goroutine one entry at a time, which holds
--     the mutex from its start to its end. A call that would block is no step.
--     WorkQueue.Redis is redis.go: the two lists on the server, the two scripts, and the calls of any
--     number of processes as steps, over connections that may fail before or after a command ran;
--     its child Grooming is NewRedisQueue and Stop, with the lock that lets one process groom.
--   NetscapeCookies: netscapecookies/cookie.go.
--   DistLock: distlock/distlock.go, of which its child Making is New. Connection is what both Redis
--     users make of a failing connection.
--   Worker: worker/worker.go (consumeOneJob and clearDirectory). Worker.Loop is its loop with Stop and
--     Wait as a step relation. Worker.Rendering is renderworker.go, with
--     runGit: the steps of a rendering over the admin client, the disk, the programs and a blob store.
--
-- Bounds and fuel: identifiers are printed from a 64-bit counter, which wraps around in `next`; 20
-- digits are enough for it. The channel of the memory queue holds 1000 jobs. A packet's length is an
-- int16 in writeGitPacket and is kept so. Times do not overflow.
--
-- Parameters, for code that is not in the repository: the order in which Go ranges over a map, the
-- secure cookie codec, the HTTP, Redis and SQL clients, Argon2, JSON, the disk and the programs that
-- are run. The git server takes the admin server's client as the record of the calls that it makes.
--
-- Not modelled: the RPC plumbing of the admin server and its routes; the text of response bodies and
-- the log; the tickers; the commands, the browser application and the deployment.
pub mod AdminClient
pub mod AdminServer
pub mod Connection
pub mod DistLock
pub mod GitServer
pub mod Http
pub mod IdGenerator
pub mod NetscapeCookies
pub mod Prelude
pub mod RpcClient
pub mod SessionStore
pub mod Tests
pub mod UserStore
pub mod WorkQueue
pub mod Worker
