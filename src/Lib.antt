-- ===== src/Lib.antt =====
-- porla: models of the core of the torrent client porla, and what is known of them.
--
-- The program keeps sessions of libtorrent. A session's jobs are run by a scheduler on its io
-- thread; clients list torrents over RPC with a query, which is parsed and built into a filter on a
-- torrent's status. The query language splits and compares texts with the string utilities.
--
-- Text*: src/utils/string.cpp. `levenshtein`, `split` and `to_lower` are the functions of these
--   names, on bytes as numbers, in the C locale. `split` runs on fuel, one more than the length of
--   the text, since each turn removes the delimiter at least.
-- Scheduler*: src/sessions/scheduler.cpp. `State` has the entries, the waits on their timers and a
--   log of the runs; each method is a function on states, and `Run` is two, `begin_run` and
--   `finish`, between which the job may call the scheduler. asio and the jobs are the environment:
--   a history is a list of events, and a wait ends with an error only if it was cancelled. A
--   suspension count is a number that is not negative, which the source's `int` is as well.
-- Query*: src/query/pql.cpp, and the enumeration of kinds in src/fields.hpp. Errors are values of
--   `Result`, with the span that a `QueryError` has. Query.Text has escapes, text matchers and hash
--   prefixes; Query.Glob the glob matcher, on fuel (length of the text + 1) * (length of the pattern
--   + 2), since the place of the last star moves on in the text each time the loop goes back;
--   Query.Depth the depth check on tokens, and Query.Shallow what it demands of them; Query.Flags the
--   flags; Query.Number and Query.Interval the numeric fields; Query.Tree the building of filters
--   over parse trees, with the builder of a leaf as a parameter; Query.Build the builders of leaves
--   and `PQL::Parse`, over any table of fields, with the lexer and the parser as parameters.
-- HashMap*: src/sessions/infohashmap.hpp, the map of a session's torrents by their info hashes, with
--   an index for each half. A `std::map` is a function to options.
-- HostGuard*: src/httphostguard.cpp, which rejects requests with a foreign Host header.
-- Tokens*: src/auth/tokens.cpp, the tokens that clients authenticate with, over the table of
--   src/data/models/tokens.cpp, which is a function from ids to rows.
-- Auth*: src/auth/authenticator.cpp, which takes a token from a request's headers and gives the
--   context of the caller, by Tokens.
-- Rpc*: src/rpc/jsonrpc.cpp, responsewriter.hpp and functionmethod.hpp there, and src/errors.hpp. Rpc has
--   the writer of replies; Rpc.Handler and Rpc.Exchange the handlers of a request's headers and
--   body, as a step relation (`Run`) on parts of the body, lost connections, the end of the server,
--   and later calls of the writer by a method, whose `Invoke` is a function to lists of calls;
--   Rpc.Methods the methods that are made of functions.
-- Listing*: `torrents.list` and `torrents.count` of src/rpc/methods/torrents.cpp, with
--   src/rpc/methods/resolve.cpp, and `Fields::Key` and `Fields::Compare` of src/fields.cpp. The
--   response is a function of the request and of the sessions; an error is its code.
-- Loading*: src/sessions/jobs/loadtorrents.cpp, the job that loads a session's torrents. A run is a
--   function of what `Count` returns or that it throws, of the chunk's outcome, and of which call of
--   `Finish` throws; it returns its effects in order.
-- Torrent*: `RefreshTimestamps` of src/sessions/torrent.hpp.
-- Sessions*: `Load` and `LoadById` of src/sessions/sessions.cpp, with the counter on which the
--   callback waits.
-- Saving*: `MarkDirty` and `SaveDirty` of src/sessions/session.cpp, on a list of marks.
-- Tracking*: `Add`, `Find` and `UntrackTorrent` of src/sessions/session.cpp, on the map of HashMap, and
--   `Torrents::Add` of src/torrents.cpp, which calls the first. Whether libtorrent takes a torrent is
--   an argument.
-- Preparing*: `Torrents::Prepare` of src/torrents.cpp, which chooses a session and applies presets. The
--   tables of presets and sessions are the fields of `Known`.
-- Http*: src/curlmulti.cpp, the HTTP client. `CurlMulti` has the transfers, the sockets and the timer,
--   and the handlers that the event loop holds. An event is a call of a user or a handler that runs,
--   with what libcurl does meanwhile: the callbacks that it calls and the messages that it leaves.
--   Http.Sockets has the callbacks, Http.Transfers the transfers, Http.Events the handlers,
--   Http.Body the bodies of replies.
-- Stored*: `AddTorrentParams::Next` of src/data/models/addtorrentparams.cpp, by which a session's
--   torrents are read in chunks as they are loaded: the statement is a function on the rows of a
--   table, and the cursor a record. `next_all` runs on a list of calls, each of which may throw.
-- Base*: Boolean tests, lists and bytes, shared by all. Examples*: runs at concrete inputs.
--
-- Parameters: `Doubles` stands for `double` and `std::stod`, `FlagSet` for libtorrent's flags, of
-- which `IsBitField` says that they are a bit field with one bit for each name; `parse_date` stands
-- for the dates that are read with `std::mktime`, `StateSet` for the status of a torrent in
-- libtorrent, `loopback` for the loopback addresses that boost recognises,
-- `Crypto` for libsodium, of which `IsCrypto` says how long encoded texts are and that what was
-- encoded can be decoded. `Library` stands for nlohmann::json and zlib, `Sorts` for `std::sort` and
-- `std::partial_sort`, of which `IsSort` and `IsPartialSort` say that they permute a list and what
-- they put in order; `IsComparison` says of the orders of doubles and of hashes that they are total
-- preorders.
--
-- Not modelled: the lexer and the parser of queries, which are generated; the getters of the table
-- of fields; the order of the keys in the map of torrents; the statements of SQL, but those on
-- tokens and that of `AddTorrentParams::Next`; the Lua bindings, the conversions to JSON and the calls of libtorrent, which pass values
-- between libraries; the alerts and the shutdown of a session, and the other methods of RPC.
pub mod Base
pub mod Text
pub mod Scheduler
pub mod Query
pub mod HashMap
pub mod HostGuard
pub mod Tokens
mod Examples
pub mod Rpc
pub mod Auth
pub mod Listing
pub mod Loading
pub mod Torrent
pub mod Saving
pub mod Sessions
pub mod Http
pub mod Stored
pub mod Tracking
pub mod Preparing
