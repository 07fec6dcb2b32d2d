-- ===== src/Lib.antt =====
-- monitostr: a terminal monitor of Nostr relays, modelled file by file.
--
-- A byte is a number below 256 and a std::string is a list of bytes (Prelude/Texts). size_t and
-- uint64_t keep their wrap-around as `% 2 ^ 64`, uint32_t as `% 2 ^ 32`.
--
-- The parts and the files that model them:
--   StringUtils: include/monitostr/utils/string_utils.hpp.
--   Model/LogBuffer, Model/Window: include/monitostr/model/log_buffer.hpp, a bounded log.
--   Model/RelayStats: src/model_relay_stats.cpp, the table that the sessions write and the UI reads.
--     The std::unordered_map is an association list in its iteration order, whose keys stay distinct.
--     Each call holds the lock, so it is one step.
--   Net/RelayTarget: src/net/relay_target.cpp, relay URLs.
--   Net/Json, Net/Services: the values of nlohmann::json, and the library functions that the network
--     side calls (JSON parsing and printing, std::hash, the random draw, SHA-256, libsecp256k1), as a
--     record that every definition which uses them takes.
--   Net/SessionSupport: src/net/relay_session_support.cpp, messages, reconnect policy and backoff.
--   Net/RelaySession: src/net/relay_session.cpp. A session is a record of its members together with
--     the list of asynchronous calls that are pending; Handlers has one function for each handler of
--     the strand, named after it, and Steps the relation by which the environment runs them: any
--     pending call may complete, with any outcome, and Stop and SetAuthKey may come at any time. A
--     cancelled call is one that completes with an error. Fetch is FetchRelaySupportedNips, given what
--     the HTTP request meets, and Table its effect on the table of relays.
--   Net/Bootstrap: src/net/bootstrap_client.cpp. What the network does in the query of one seed is data
--     (an exception, a failed SNI call, or the payloads of the two queries).
--   Net/SessionManager: src/net/session_manager.cpp, the sessions of one key; the stopped ones are kept,
--     as their handlers keep them alive.
--   Nip19/Hex, Nip19/Convert, Nip19/Bech32: src/nip19/bech32_internal.hpp; Nip19/Keys: src/nip19/npub.cpp
--     and src/nip19/nsec.cpp.
--   Nostr/Signer, Nostr/AuthKey: src/nostr/signer.cpp and src/nostr/auth_key.cpp.
--   Security: include/monitostr/security/secure_memory.hpp, as what a buffer holds afterwards.
--     Nostr/AuthKey/Memory and Nostr/Signer/Memory are the two calls that handle the private key, with
--     the buffers that they leave behind.
--   Ui/Navigation: src/ui/navigation_controller.cpp.
--   Ui/Command: src/ui/command_processor.cpp. Clipboard, files and callbacks are an environment, and
--     what is asked of them is a list of effects.
--   Ui/App: src/ui/app.cpp and include/monitostr/ui/app.hpp. Handler has one function for each mode of
--     the event handler, View the frame that the renderer is given, Report the text about a relay.
--     What an event asks of the program (a key, an exit, a text to copy or save) is a list of requests.
--   Ui/Render: src/ui/ui_renderer.cpp. Context is the data that it draws, Dom the calls to FTXUI as a
--     tree, and Screen, Logs, Table and Parts its functions, which build that tree. The one computation
--     on doubles, the height of a latency on the graph, is a parameter.
--   Program: src/main.cpp. One function for each callback, on a state of the UI, the session manager,
--     the key, and the lookups that are under way, which the bootstrap's one worker serves in order.
--     Steps is the relation of all that may happen: a key, a frame, the end of the oldest lookup, or a
--     handler of a session that runs or was retired, in any order.
--   Examples: instances of the theorems at concrete values.
--
-- Fuel: the decimal printing of Prelude/Texts divides by ten in each round and is given one round
-- more than the number; the inner loop of ConvertBits (`emit`) takes away `to_bits` in each round and
-- is given one round more than the bits it holds, which is enough for widths of 1 and more. All
-- other loops are structural.
--
-- A steady_clock reading is a number of nanoseconds; the latencies are whole milliseconds, for which
-- the rounding of the average is exact.
--
-- Not modelled: the help and version texts, the threads and the TLS set-up of src/main.cpp; the FTXUI
-- loop and the ticker thread of App::Run in src/ui/app.cpp, which only post events; the layout that
-- FTXUI makes of the tree; sockets, TLS, HTTP and the clocks, whose results are arguments; the wiping
-- of the texts of the UI and of the buffers of src/nip19, on which no value depends.
pub mod Examples
pub mod Model
pub mod Net
pub mod Nip19
pub mod Nostr
pub mod Prelude
pub mod Program
pub mod Security
pub mod StringUtils
pub mod Ui
