-- ===== src/Lib.antt =====
-- Beatblock Online: the decisions that its companion makes when it hosts a race.
--
-- The companion (companion/src) hosts a room for players, referees them and shows them to spectators.
-- `RoomEngine` (companion/src/room.rs) is the referee: it admits participants, keeps the setlist,
-- starts races, takes score events and gives verdicts and ranks. The network hub
-- (companion/src/network.rs) limits failed password attempts before a session reaches the room, and
-- lets chart archives in only after consent. `AppState` (companion/src/app_state.rs) lets what arrives
-- from peers and what the host decides act on the room, the renderers and the storage. Render
-- sources send samples as datagrams of fixed size, and the host tells the renderers what to show by a
-- broadcast plan (companion/src/model.rs). The renderer manager (companion/src/renderer.rs) buffers the
-- samples and shows them to the renderer processes in step and with a delay, and the storage
-- (companion/src/storage.rs) keeps the room and the events of a race. The sessions that the renderers
-- play on the desktop are muted and restored by companion/src/audio_sessions.rs.
--
-- Files:
--   Base, Base/*         lists, texts, association lists and machine words, with the names of the
--                        Rust standard library
--   Float                the floating point numbers, a parameter
--   Model                model.rs: participants, charts, modifiers, score totals, lifecycles
--   Room/State           `RoomEngine` as a record, errors, and the monad of fallible operations
--   Room/Parts, Rank     the private helpers of `RoomEngine`, and `rank`
--   Room/Roster          admit, set_role, set_host_participating, set_commentator_access, kick
--   Room/Presence        request_join_with_id, disconnect, close, expire_disconnect(s)
--   Room/Policy, Setlist modifiers, integrity and build policies; lock_chart and the setlist
--   Room/Race, Score,    start, runs and their time limits; score events; invalidation and the end
--     Verdict            of a run
--   Room/Create          `offline` and `host`
--   Room/Commands        the public operations as one data type, a step, and histories of steps
--   Room/Seats,          proofs: who has a seat; what errors leave behind; what a race freezes; the
--     Membership,        life of a run; the start of a race; ranks; score reports
--     Outcome, Freeze,
--     Runs, Start,
--     Ranking, Reports
--   Network/RateLimit    prune_password_failures, password_attempt_allowed, record_password_failure
--   Network/Transfer,    network.rs: ChartTransferHeader, authorize_incoming_chart_transfer and
--     Transfer/Consent   consume_incoming_transfer_authorization; proof: what is accepted
--   Render, Render/Codec `RenderSample`, and proofs
--   Broadcast,           `RendererSlot`, `BroadcastPlan`, and proofs
--     Broadcast/Clock
--   Renderer/State       `RendererManager` as a record
--   Renderer/Buffers     push_sample_at, push_render_anchor, push_tap, push_score_state,
--                        push_player_state, aligned_featured_state
--   Renderer/Slots       configure
--   Renderer/Stop        set_error, budget_warning, begin_run, stop_autoplay, stop_slot,
--                        stop_participant, stop_all
--   Renderer/Publish     publish_input, publish_score
--   Renderer/Epoch,      write_aligned_inputs and write_warmup_inputs: the epoch, and what is shown
--     Align
--   Renderer/Calls       the public methods as one data type, and histories of calls
--   Renderer/Bounds,     proofs: the buffers; the slots; the delay; the taps; what readers find in a
--     Frame, Buffered,   page
--     Configured,
--     Featured, Delay,
--     Delay/Tick, Taps,
--     Pages, Scores
--   Storage              the tables, queue_event, flush_pending_events, save_room, recover_room,
--                        append_event, events, prune_raw_events, delete_history
--   Storage/Backlog,     proofs: the bounds and the order of what waits; what the tables hold
--     Durable
--   Audio, Audio/Poll    audio_sessions.rs: isolate_exact, restore, restore_with_retries,
--                        poll_pending_isolations
--   Audio/Isolation,     proofs: what is muted; what is restored; what failed calls leave; what a
--     Restored,          poll leaves
--     Failures, Polled,
--     Attempts
--   Host/Message, State  app_state.rs: messages of peers and their classes; what the host's side of
--                        `AppState` changes, its actions, and what an event finds
--   Host/Chart, Publish, transferable_chart_for_participant, require_admitted_peer; broadcast_room,
--     Telemetry, Runs    refresh_broadcast_plan, stop_participant_renderer; ingest_render_event;
--                        apply_run_to_room, sync_renderer_player
--   Host/Control,        the state messages and prepare_chart_transfer_offer; the host's settings,
--     Operations,        charts and start; handle_network_event at the host, admit, kick,
--     Events             set_participant_role, set_commentator_access, expire_due_disconnects
--   Host/History         what happens to a hosting runtime as one data type, and histories of it
--   Host/Opening,        host_room, close_room, leave_room, and histories of rooms from the start of a
--     Session            runtime on
--   Host/Refines,        proofs: the host's actions are histories of the room and of the renderers;
--     Refinement, Sound, what they promise holds in every runtime; whose messages are not acted on
--     Promises,
--     Authority
--   Examples, Examples/* concrete inputs
--
-- State and operations. A `&mut self` method is a function of the room; a method that returns a
-- `Result` is an action of `Exec`, which returns the room as it is then, with the value or the
-- error. A write before an error stays, as in Rust. Each text of a `bail!` is a constructor of
-- `RoomError`, and each reason of a verdict one of `Reason`. A write through `participant_mut`
-- changes the first participant with the id.
--
-- Readings of the clock (`now`) and fresh UUIDs are arguments. Texts are lists of code points; `trim`
-- and the ASCII tests are written out. Hash sets and maps are lists of keys without repetition in the
-- order of iteration. Integers are natural numbers with the saturation or wrap-around that the source
-- has. Floating point operations are fields of `Float`, with the laws of `total_cmp` alone. The
-- library's stable sort is an insertion sort. An `f32` on the wire is its bit pattern, SHA-256 a
-- parameter that yields bytes, an `Instant` a number of nanoseconds. Loops over lists are structural
-- recursion, so there is no fuel; the 20 attempts of a restore are counted down.
--
-- The renderer manager's locks are left out: its methods are steps, one after the other. A memory map
-- is the list of its bytes, and a publication is the list of its writes in the order in which a reader
-- may see them. What the file system answers is an argument (`Disk`). The `f32` numbers that the manager
-- compares are bit patterns, and the comparisons are fields of `Single`, without any law. In the
-- storage, whether SQLite carries out a transaction is an argument, and one that it refuses changes no
-- table; the size of an event in memory is a parameter (`event_size`), and `usize` has 64 bits. The
-- answers of the operating system to the calls on audio sessions are a list (`Desktop`).
--
-- The host's handlers are actions (`Act`) on a record with the fields of `AppState` that they change.
-- An action runs to its end before the next one begins: the locks are left out. The room's, the
-- renderers' and the storage's own operations are called as they are. A payload is what its typed
-- accessors return for a key. The readings of the clock, the answers of the storage and the network and
-- the texts that are made are one record for an event (`World`); calls of the network, events for
-- subscribers and tasks that are spawned are logged, the latest first, in `sent`. Packing an archive is
-- such a task, and its end an event of its own.
--
-- Not modelled: JSON and the schema of messages, so a score event is its decoded payload; QUIC, TLS
-- and SPAKE2; the client's side of app_state.rs, the control interface of the game, reconnection,
-- NAT renewal and the removal of archives that are not offered, and what the host does with
-- renderer processes (configure_renderer, set_autoplay_audio, relaunch_active_renderers). The
-- hosting runtime's own game events (apply_local) are not among the events of a history either, so
-- a history of a host has the samples and runs of remote peers alone, and gives no slot a
-- participant, since only configure_renderer does; the renderers' own histories have all of their
-- calls. The renderer processes, their frame rings and the polling of their health (launch_slot,
-- launch_autoplay, refresh_health, create_frame_ring), and the thread that polls for audio
-- sessions, with the states that it reports; archives, journals, updates, the installer and the
-- user interface; the game mod and the OBS plugin.
mod Base
pub mod Float
pub mod Model
pub mod Room
pub mod Network
pub mod Render
pub mod Broadcast
pub mod Renderer
pub mod Storage
pub mod Audio
pub mod Host
pub mod Examples
