-- ===== src/Tests.antt =====
-- Tests of the packages, by package; Fixtures holds their data.
mod Fixtures
mod UserStores
mod Databases
mod SqlUserStores
mod Sessions
mod AdminClients
mod Services
mod Logins
mod Queues
mod Git
mod Routers
mod RedisQueues
mod Cookies
mod Locks
mod Workers
mod Loops
mod Renderings
