-- ===== src/Lib.antt =====
-- A verification library for offdesk (the webmux repository): a hub that shows the terminals of many
-- machines in a browser, a node on each machine, a command line, and an encrypted channel to the app.
-- Each file models the Rust code that its first comment names; a definition keeps the name of the
-- function that it translates.
--
-- The parts, and the files that model them:
--
--   Base            shared names: tests on numbers, lists, results, keyed maps (HashMap), UTF-8.
--   Secure          crates/secure. Noise: the snow crate, a parameter with laws. Bytes: big-endian
--                   integers. Channel: src/lib.rs, messages cut into fragments and put together.
--                   Writer: src/outbound.rs, the senders, their queues and budget, and the loop
--                   that picks the message whose next fragment goes out.
--   Machine         crates/machine. Title: src/osc_title.rs, titles found in a terminal's bytes.
--                   Watcher: src/session_watcher.rs, the report of sessions that are gone.
--                   Acp: src/acp.rs, the session of a coding agent: Values and Texts, what it reads
--                   in JSON (serde_json is a parameter); Outputs, Commands, Handshake and Lines, the
--                   methods of its actor, whose loop is `run`; Registry, the sessions of a
--                   connection (AcpManager); Arrivals, its messages as the hub of
--                   Hub.Agents handles them.
--                   Codex: src/codex_title.rs, the search for the one Codex process of a terminal;
--                   the file system and Codex's database are parameters.
--   Hub             crates/hub. Router: src/attach_router.rs, where the bytes of each attach go.
--                   Mode: src/machine_manager.rs, which device of a user controls which machine.
--                   Events: src/machine_manager.rs, the history of events and how a browser that
--                   comes back catches up. Composer: src/composer.rs, messages of the editor, sent at
--                   most once; its child System lets the calls interleave. Machines:
--                   src/machine_manager.rs, which machines are connected, their terminals and tabs,
--                   and what each message of a machine changes; its database is the tables of
--                   Sessions (src/db/terminal_sessions.rs), Groups (src/db/workspace_groups.rs),
--                   Layouts (src/db/workspace_layouts.rs; the check of a layout's tree is in
--                   src/routes/terminals.rs) and Agents (src/db/agent_sessions.rs). Wire:
--                   crates/protocol/src/lib.rs, the messages of machines and the events of browsers.
--                   Routes: src/routes/terminals.rs, the requests of browsers on tabs.
--   Protocol        crates/protocol. Composer: src/composer.rs, which messages of the editor are let
--                   through. Frames: src/lib.rs, the binary frames of a terminal's output.
--   Cli             crates/cli. Resolve: src/resolve.rs, ids, prefixes and names of machines.
--
-- How the parts interact: the node reports titles, terminals and the events of agents to the hub;
-- the app reaches the hub through the secure channel, whose fragments of several messages
-- interleave: its writer takes the next one of the messages that wait. A message of a machine runs
-- whole in the hub: it changes the manager and its tables, and has effects in order, which are events
-- for browsers (numbered and kept by Events) and answers to requests that wait. A method of Mode is
-- its change under the lock and the events that it sends, some of them after the lock is let go.
--
-- Conventions. A method that takes `&mut self` returns the new state with its result. Numbers are
-- natural numbers; a width is written out where the code depends on it (`% 2 ^ 32`, a checked
-- addition at the last u64), and `usize` has 64 bits. A HashMap is an association list with one entry
-- for each key: the model iterates in list order, the program in any order. Bytes and characters are
-- numbers.
--
-- Fuel. `Secure.Channel.encode` gives its loop one round more than the message has bytes; each round
-- that does not fail sends at least one byte, so the rounds are enough. `Machine.Codex.candidates_of`
-- gives its search one round more than there are processes: each process is pushed at most once, when
-- its parent is first visited.
--
-- The database. A table is an association list from its key; an SQL statement is a function on it that
-- succeeds while the database answers, unless a key is taken or a foreign key has no row. The clock's
-- time and the random ids are arguments.
--
-- Not modelled: cryptography (snow), the network and its tasks, the SQL engine and the queries that
-- only list rows, the file system and the processes of a machine, the requests of browsers on agent
-- sessions and on users, the pairing of a device, the output of the command line, the generated and
-- platform code of the desktop application.
pub mod Base
pub mod Cli
pub mod Hub
pub mod Machine
pub mod Protocol
pub mod Secure
