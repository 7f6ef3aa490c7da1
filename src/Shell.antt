-- ===== src/Shell.antt =====
-- sysprog/2: the shell, which splits a line into words and the words into the commands of a pipeline.
pub mod Scan
pub mod Build
pub mod Tokens
pub mod RoundTrip
pub mod Main
mod Tests
