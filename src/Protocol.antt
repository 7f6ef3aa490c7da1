-- ===== src/Protocol.antt =====
-- sysprog/afina/src/protocol: the parser of the memcached text protocol.
pub mod Command
pub mod Parser
mod Tests
