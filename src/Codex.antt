-- ===== src/Codex.antt =====
-- src/adapters/codex: what a notice and its removal ask of the Codex client.
--
-- A JSON text, a socket and a process are of other packages and of the host: a connection is the
-- list of the frames that it will receive, and the log of the requests that were written to it.
pub mod Json
pub mod Rpc
pub mod Identity
pub mod Notify
pub mod Cli
pub mod Dismiss
pub mod Sent
pub mod Receipts
pub mod Removed
