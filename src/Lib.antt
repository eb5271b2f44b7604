-- ===== src/Lib.antt =====
-- A verification library for the core of the poker trainer: a server that receives the frames of a
-- hooked poker client, asks a decision backend ("EYE") for hints, and answers frames with at most one
-- action per device at a time.
--
-- How the parts interact. The trainer (core/trainer.py) reads the frames of each table and keeps the
-- table's state (core/state.py). At the hero's turn it asks the backend for a hint, and the watchdog
-- (core/hints.py) keeps one hint per table outstanding. The decision that comes back (a "CC") is turned
-- by the policy (core/policy.py) into an `Action`, which the scheduler (core/actions.py) takes if its
-- device has none in flight. The next binary frames of the table pull the action, until a new turn
-- acknowledges it or the deadline of the last attempt fails it, and the ledger (core/ledger.py) writes
-- down the outcome. A device's connection is claimed by a display slot (core/discovery.py) and gets its
-- callback port from the allocator (core/bootstrap.py). The client's packets and the backend's frames
-- have their codecs (core/coin_wire.py, core/eye_frames.py).
--
-- Around this stand the connections. A hook says a hello to the bootstrap server (core/bootstrap.py),
-- which leases it a port and listens there, or to the trainer's endpoint (core/transport.py), which
-- registers its table and claims a slot; both speak the frames of core/protocol.py. The channel to the
-- backend (core/eye_backend.py) reconnects by itself and queues the CCs. The bridge (core/bridge.py)
-- is the loop of a device that pushes its actions, one thread for each, over the same scheduler,
-- watchdog, policy and ledger as the trainer. Captures go to rings of files (core/pcap_ring.py), and
-- the log gets the records of core/logging.py and the events of core/events.py.
--
-- Files:
--   Prelude   the library names, the tests, integers and keys that the parts share.
--   Dict      a Python dict as an association list, with the laws of `get`, `put` and `remove`.
--   Json      values of `json`.
--   Actions   core/actions.py: `ActionScheduler` (create, next_attempt, acknowledge, timeout_unknown,
--             finish_failed, active, has_active); Actions.Delay: `HumanDelay.compute`.
--   Hints     core/hints.py: `HintWatchdog` (observe_hint, cancel, observe_finish, poll).
--   Street    core/state.py: `StreetState` with every method; Street.Tables: `TableState`.
--   Ledger    core/ledger.py: `Ledger` (load, finalize, has, count).
--   Trainer   core/trainer.py: `_enqueue`, `_take_due_action`, `_mark_acked_if_pending`,
--             `_confirm_action`, `_ack_deadline` and the end of `_on_cc`; Trainer.Events: these as the
--             steps of the trainer's threads.
--   Slots     core/discovery.py: `SlotPool`.
--   Callbacks core/bootstrap.py: `CallbackAllocator`.
--   Sessions  core/sessions.py: `SessionRegistry`.
--   CoinWire  core/coin_wire.py: the codec (`_enc_value`, `_dec_value`, `encode_packet`,
--             `decode_packet`, `build_game_user_action_packet`).
--   EyeFrames core/eye_frames.py: varints, fields, the hint frames and `eye_envelope`.
--   Server    core/trainer.py: `_ws_handler`, `_observe_frame`, `_on_eye_frame`, `_on_cc` around the
--             actions of Trainer, and `turn_identity` of core/state.py. Server.Responses: the response
--             of `_ws_handler` and `_room_from_url`; Server.Requests: `_request_hint`;
--             Server.Routing: `_on_callback_message` and `_on_device_connect`.
--   Policy    core/policy.py and core/anomalies.py: `decide_cc_action`, `assess_call_zero`;
--             Policy.Resolve: `resolve_eye_cc_action` of core/coin_wire.py.
--   Bridge    core/bridge.py, `BridgeContext`. Bridge.Context: its state, `table`, `_finalize`,
--             `_finalize_hint`; Bridge.Turns: `on_hero_turn`, `poll`; Bridge.Settling: `on_cc`,
--             `on_ack`, `on_action_uncertain`; Bridge.Attempts: `_attempt_loop`, where a turn of the
--             thread goes from one wait to the next; Bridge.Steps: the runs of these.
--   Protocol  core/protocol.py: `frame`, `recv_frame`, `proof`, `verify_hello`; Protocol.Reading:
--             `_read_exact`.
--   Transport core/transport.py: `TrainerServer`, with `_handle` as `connect`, `answer` and
--             `disconnect`, and `_decide`.
--   Bootstrap core/bootstrap.py: `BootstrapServer` (`_handle_bootstrap`, `_invalidate_callback`,
--             `_ensure_callback`, `_accept_callback`, `_close_callback_lease`, `stop`, and
--             `_handle_callback` as `verify_callback` and `callback_closed`); Bootstrap.Messages: its
--             message loop.
--   PcapRing  core/pcap_ring.py: `PcapRing`, `PcapRingPolicy`, and `_enforce_global_quota`.
--   EyeChannel core/eye_backend.py: `EyeChannelClient` (`_run` as `connect_failed`, `connect` and
--             `finish`; `_read_loop` as `read_frame`; `send`), `lp_pack`, `lp_read_sock`.
--   Events    core/events.py: `coin_frame`, `eye_frame`, `FrameEvent.as_dict`, `parse_cc_data`.
--   Logging   core/logging.py: `_safe`, and `SessionLogger` with `emit` and `close`.
-- Each part has child modules named for what they prove, and Runs with concrete runs and witnesses.
--
-- Correspondence. A method is a function from the state and the arguments to the new state and the
-- result. Each handler of the bridge, each handler of the bootstrap server and each event of the
-- trainer is one step, with nothing between its locked regions; Transport.Regions has the locked
-- regions of a connection as steps of their own. `None` is `none`, and so is an exception where the
-- comment says so. Times are natural numbers of milliseconds, chips of the street state are natural
-- numbers, and a float amount is an integer that counts 1e-8 units. `Action` objects are shared
-- between the scheduler and its callers, so they are kept in a store by identity; every other object
-- is owned by its container. A dict keeps the order of insertion. What a call reads from outside, such
-- as the time, a random number or a token, is an argument.
--
-- Bounds. The packet decoder runs on fuel for the nesting of objects, one more than the bytes of the
-- payload, each of which can open one object at most. A varint and a decimal number
-- get one more unit of fuel than the number has value, and need one per digit; the reader of messages
-- gets the length of the message; the search for the lowest free number gets the length of its range.
-- Numbers of the wire formats are kept to their 16, 32 or 64 bits as the code does, with its errors.
--
-- Parameters. `zlib.decompress`, the random generator, `float` of a text and the text that `json.dumps`
-- writes for a bet are arguments of the definitions that use them, as are `str`, `json.loads` and the
-- digest of a turn in Server, and `json.dumps`, `json.loads`, `str`, SHA-256 and HMAC-SHA256 in the
-- frames and the events (`Codec` of Protocol). Whether a sender took its message, a port could be
-- bound or a file deleted is an argument of the step. A socket is the list of the pieces that `recv`
-- returns.
--
-- Not modelled: sockets, threads and their locks, what can come between two locked regions of one
-- handler (but for Transport.Regions), the trainer's start, stop and status lines, the manager of the
-- capture rings and their `_enforce_cap`, which nothing calls, the loggers of devices and tables, the
-- broadcast of the slots, and the Java code. JSON snapshots, log messages, reasons and diagnostics are
-- left out of the modelled functions. The delays of the channel are whole microseconds, rounded down.
-- Python's text methods are modelled for ASCII, and option keys are texts, as they are in json. Left
-- out are Python's recursion limit for a payload nested hundreds deep, the rounding of float
-- arithmetic where an amount is resolved, texts that UTF-8 cannot encode, a torn end of the ledger's
-- file inside a character, pieces of a cut ledger line that are JSON by themselves, and a `stat` that
-- fails in the quota.
pub mod Prelude
pub mod Dict
pub mod Json
pub mod Actions
pub mod Hints
pub mod Street
pub mod Ledger
pub mod Trainer
pub mod Slots
pub mod Callbacks
pub mod Sessions
pub mod CoinWire
pub mod EyeFrames
pub mod Policy
pub mod Server
pub mod Bridge
pub mod Protocol
pub mod Transport
pub mod Bootstrap
pub mod PcapRing
pub mod EyeChannel
pub mod Events
pub mod Logging
