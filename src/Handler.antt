-- ===== src/Handler.antt =====
-- backend/src/handler: the parser of queries, the upstream resolvers and the query handler.
pub mod Parser
pub mod Upstream
pub mod Pool
pub mod Serve
pub mod Redis
