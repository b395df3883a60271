-- ===== src/Lib.antt =====
-- The servers of nymstr: the discovery and relay server and the group server, and the parts of the
-- shared crates that they stand on.
--
-- The program. nymstr-server is a message relay on the Nym mixnet. Clients reach it with messages
-- that carry an anonymous reply tag (a SURB); it keeps user accounts, a directory of group
-- servers, a queue of messages for users that cannot be reached, and published key packages. Each
-- message goes through `MessageUtils::process_message` (nymstr-server/src/message_utils.rs), which
-- drops stale handshakes, parses the JSON and calls one handler; the handler reads and writes the
-- database (nymstr-server/src/db_utils.rs) and hands replies to the transport.
--
-- nymstr-group is the server of one group. It admits users, whom its admin approves, keeps the log
-- of the group's encrypted messages, welcomes for those who join, and the commits that members
-- catch up with. It has its own `process_message` (nymstr-group/src/message_utils.rs) and database
-- (nymstr-group/src/db_utils.rs), and shares the rate limiter, the name checks and the transport.
--
-- The clients buffer MLS messages whose epoch has not come (crates/nymstr-crypto), and the desktop
-- client retries them every five seconds (app/desktop).
--
-- The model.
--   Prelude        tests, lists, maps and integers that the other files share
--   Json           `serde_json::Value`, its accessors and `json!`
--   Common         crates/nymstr-common: rate_limiter.rs, validation.rs
--   Transport      crates/nymstr-transport/src/lib.rs: `ReplyTag`
--   Db             nymstr-server/src/db_utils.rs, a file for each table
--   Server/State   the state of `MessageUtils`, the replies and `cleanup_stale_entries`
--   Server/Accounts, Server/Legacy       the handshakes of registration and login, in both formats;
--                  Server/Legacy/Chat has the sends of the legacy format
--   Server/Registry       queries and group registration
--   Server/Delivery       sends, sealed sends and `relay_with_persistence`
--   Server/Inbox, Server/Freshness       fetchPending, ping and ack, and the age of a timestamp
--   Server/KeyExchange    key packages: publishing, challenge, proof of work, fetching
--   Server/Dispatch       `process_message`, and the invariants over sequences of messages
--   GroupServer/Tables    nymstr-group/src/db_utils.rs: users, members and groups, with their foreign
--                  keys; GroupServer/Tables/Queues has messages, welcomes, commits and hashes
--   GroupServer/State     the state of its `MessageUtils`, replies, rate limits, authentication
--   GroupServer/Requests  the four requests that both formats carry, and their parsing
--   GroupServer/Accounts, GroupServer/Messages       registration and approval, sendGroup, fetchGroup
--   GroupServer/Welcomes, GroupServer/Commits        welcomes, and the commits of the epochs
--   GroupServer/Process   its `process_message`
--   GroupServer/Steps     the specification of the group server: a step relation on its tables that
--                  says who may bring about which change, and what follows over any run
--   Crypto/EpochBuffer    crates/nymstr-crypto/src/mls/epoch_buffer.rs, which the app has a copy of:
--                  messages of groups that wait for their epoch, in memory and in a table
--   App/Messages, App/BufferProcessor        app/desktop/src/core/db/messages.rs, and the loop of
--                  app/desktop/src/tasks/buffer_processor.rs that retries messages
--   Tests          a small world, and every theorem with hypotheses applied in it
--
-- Functions bear the source's names. A handler takes the server's state to the next; `Server`
-- has the fields of `MessageUtils`, with the database as lists of rows and `sent` as the log of
-- what was handed to the transport. A long handler is cut into stages where it parses, checks and
-- acts, and a stage is called where the source goes on. The handlers of the group server are do
-- blocks: a `Handler` takes the state to the next, and to a value or, where it has returned after
-- a reply, to none.
--
-- What is outside. `Env` holds the code that the server calls: PGP signing and checking, the JSON
-- printer and parser, UTF-8, HMAC, SHA-256, base58 and dates; `GroupEnv` adds base64. `World`
-- holds what is read anew for each message: both clocks, a UUID, a random byte, the free SURBs.
-- Both are arguments, and no law is assumed of them but where a theorem names it. Database calls
-- fail as the list `faults` says, call by call, so every theorem holds for every pattern of
-- failures unless it says otherwise. Clocks do not move while one message is handled.
--
-- Bounds. Lists and texts have no bound. The decimal printer `show_ℕ` runs on n + 1 rounds of
-- fuel, and a number n has fewer than n + 1 digits. The age of a signed timestamp is computed in
-- 64 bits with wrap-around, as a release build does (Server/Freshness, GroupServer/Accounts). Key
-- package counts and row ids are below the bounds of their types. A page of fetchGroup holds 100
-- rows; the client that reads page after page (GroupServer/Paging) has fuel for its fetches, and
-- as many as there are messages to read, and one more, are enough.
--
-- Not modelled: SQLite and its connection pool beyond the calls' results, the wire, logging,
-- start-up and configuration of both servers, the column device_id of key_packages (it is never
-- read), tables and calls of the group server's database that no handler uses (member_epochs),
-- the rest of the MLS code (crates/nymstr-crypto), and the rest of the clients (app): decryption
-- by the client's handlers is a parameter of the buffer processor, which any answer may come from.
pub mod Prelude
pub mod Json
pub mod Common
pub mod Transport
pub mod Db
pub mod Server
pub mod GroupServer
pub mod Crypto
pub mod App
pub mod Tests
