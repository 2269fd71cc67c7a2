-- ===== src/Lib.antt =====
-- harness-talk: a mailbox that coding agents share on one machine.
--
-- Each command of the program opens one SQLite database, reads and writes it in a few statements
-- and ends; many commands of many agents run at once. A message is a request or the one answer to a
-- request. Its recipient acknowledges it, a sender waits for its answer, and a notifier tells the
-- recipient of it.
--
-- The program and its model:
--
--   src/error.rs              Error: the error type and its fixed codes
--   src/model.rs              Model: rows, peers, messages, outcomes; Model/Words: the words stored
--   src/validate.rs           Validate: the checks of arguments; Validate/Bodies: bodies, previews
--   src/schema.rs             Db: the tables of version 3; their constraints stand with the INSERTs
--                             of Db/Peers and Db/Save; Schema: ensure and change
--   src/store.rs              the statements and transactions: Db (reads), Db/Peers, Db/Save,
--                             Db/Update, Db/Page; the operations: Store (peer, load, skip_reason),
--                             Store/Peers (register, retire, restore, session_peer),
--                             Store/Messages (save, ack), Store/Notify (notify_once),
--                             Store/Wait (wait), Store/Listing (inbox, sent)
--   src/adapters/mod.rs       Harness: the harnesses and the contract of their adapters
--   src/notify.rs             Notice: notify, dismiss, native_peer
--   src/catalog/mod.rs        Catalog: the checks of IDs and texts
--   src/catalog/profile.rs    Catalog/Profile: load, current, directory, publish, unpublish
--   src/catalog/trust.rs      Catalog/Trust: accept
--   src/catalog/discover/mdns.rs
--                             Catalog/Browse: browse
--   src/catalog/discover/mod.rs
--                             Catalog/Choose: select_profile
--   src/catalog/mailbox.rs    Catalog/Mailbox: peers, message, page
--   src/catalog/binding.rs    Catalog/Binding: bindings, their match, the scope of the commands
--   src/cli.rs                Commands/Caller: Context::session
--   src/commands/peer.rs      Commands/Registry: registration, list
--   src/commands/read.rs      Commands/Watch: page_parameters, watch
--   src/commands/mail.rs      Mail: one attempt of send or reply, with its exit code
--   src/guidance.rs           Db/Page/Walk: next_page
--   src/identity.rs           Identity: claude_session, ancestry
--   src/adapters/codex        Codex: Codex/Rpc (call), Codex/Identity (check_live,
--                             saved_identity_at), Codex/Notify (notify_socket), Codex/Cli
--                             (notify_cli, notify_in_store), Codex/Dismiss (dismiss); Receiver:
--                             the receiver of receive.rs, with Receiver/Check
--                             (needs_notification), Receiver/Stream (the loops of operate),
--                             Receiver/Start (run, maintain) and Receiver/Lives (one after
--                             another)
--
-- A statement is a function from the tables to a result and the tables. An operation is a process
-- (Proc): a function from a world to a result and a world. Before each of its statements the
-- world may move, by time, an interrupt or any transactions of other processes (Db/Txn lists them
-- all), and SQLite may refuse the statement; `future` in the world says what happens when, so a
-- theorem about all worlds is one about all interleavings and failures. Proc/Runs relates a
-- process to the transactions that it leads through, Store/Steps and Store/Moves show it
-- for each operation, and
-- Store/Session runs commands one after another. Db/History and Db/Valid hold what the
-- transactions keep, Db/Claim the claim of a notification, Store/Notify/Once and
-- Store/Session/Invariants what follows for the processes. The world has one log of the notifiers'
-- calls for all processes: its own process adds to it where notify_once calls, and a claim that
-- another process wins adds the call that may follow it. Proc/Calls counts them beside the claims.
--
-- A receiver is a function from a script, of what the stream, the mailbox and the client answer, to
-- the list of its actions: a state that is saved, a call of the client, a line that is printed. A
-- life that ends early, for whatever reason, has done a part of that list from its front, and the
-- next one starts from the state that was saved last. A connection to the Codex client is the list
-- of the frames that will come, with a log of the requests that were written; a notice or a removal
-- answers with that log.
--
-- Numbers are natural numbers: `seq` counts up from 1, and times are milliseconds where the
-- source has `f64` seconds. `now - 60.0` and `until - now` are compared with the difference moved
-- to the other side, or stop at 0 as `clamp` does. Strings that are walked are lists of code
-- points.
--
-- The loops of the store run on fuel. The grace of a notification lasts at most 1000 ms and is read every 20
-- ms, so 51 rounds are enough; a wait lasts at most 45000 ms and is polled every 100 ms, so 451
-- are enough. A walk through pages has one unit for each page, and the walk
-- through the ancestors of a process stops after 64 as the source does. The loops of a receiver go
-- on as long as their script.
--
-- Parameters: the reader of the uuid crate (`parse_str`); what the system says of a file
-- (`stamp`, `is_absolute`) and the contents of a catalog file; the backup of an upgrade; the
-- adapters and the text of a notice; the notifier and the cleaner, which move the world as any
-- process may but make no call of the notifier themselves (IsClient); the connection on which an
-- adapter repeats the check of a notice (`reopened`); of the host, the environment,
-- the process table, the session files, the locks and the sockets; `os::same_workspace`.
--
-- Not modelled: the opening of files and connections, the pauses between attempts at a lock (a
-- busy database is a refused statement), the copying of a backup, `summarize`, the commands'
-- arguments and output, the adapters of the other clients, the search for sessions, the writing of
-- catalog files, the network, the MCP server and the systems.
pub mod Prelude
pub mod Error
pub mod Model
pub mod Validate
pub mod Db
pub mod Proc
pub mod Store
pub mod Harness
pub mod Notice
pub mod Catalog
pub mod Mail
pub mod Schema
pub mod Identity
pub mod Commands
pub mod Receiver
pub mod Codex
pub mod Tests
