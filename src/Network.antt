-- ===== src/Network.antt =====
-- sysprog/afina/src/network: the servers, from the bytes of their connections to the answers.
pub mod Session
pub mod Connection
pub mod Epoll
pub mod Loads
pub mod Pool
pub mod Worker
mod Inputs
mod Tests
