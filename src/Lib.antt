-- ===== src/Lib.antt =====
-- Verification of lan-mouse-pro, a program that shares one mouse and keyboard, and the clipboard, among
-- several computers.
--
-- The program. A daemon (src/service.rs) keeps a list of clients, the computers beside this one
-- (src/client.rs). The frontends change the list through requests; for every active client the
-- service asks the capture task (src/capture.rs) for a barrier on a side of the screens, which the
-- task puts up through the backends of input-capture. A pointer that crosses a barrier is captured:
-- its events, and those of the keyboard, go to the client as messages of lan-mouse-proto. Clipboard
-- contents travel over the same protocol; what was announced is kept in two caches with a byte
-- budget and a time to live (src/clipboard/cache.rs, src/clipboard/file_cache.rs) until the other
-- side asks for it.
--
-- The files, and the code they stand for.
--   Common      shared names, Boolean tests and lemmas on lists over the native numbers.
--   HashMap     Rust's HashMap as an association list with distinct keys.
--   Wire        lan-mouse-proto/src/lib.rs and codec.rs: Wire/Types has the events, Wire/Fields the
--               writers and readers of fields, Wire/Bodies the variable-length bodies, Wire/Fixed the
--               fixed-size codec (From<ProtoEvent> for ([u8; MAX_EVENT_SIZE], usize) and TryFrom back),
--               Wire/EventTypes the type bytes, Wire/Dispatch the two dispatchers over Vec<u8>.
--               Wire/Outcome is Result with a panic, so that a slice out of range is visible.
--   Cache       src/clipboard/cache.rs: ClipboardCache with insert, lookup and remove, in the Option
--               monad for a usize that would overflow. Time is the argument `now`.
--   FileCache   src/clipboard/file_cache.rs: FileCache, which shares the code of Cache.
--   Client      src/client.rs: Client/Types has ClientConfig and ClientState of lan-mouse-ipc/src/lib.rs,
--               ConfigClient of src/config.rs and BarrierKey of input-capture/src/geometry/mod.rs;
--               Client/Manager has one definition for each method of ClientManager; Client/Calls is a
--               sequence of calls. The slab crate, which the repository does not hold, is the record
--               Client/Slab of its operations and documented laws, a parameter of all that uses it.
--   Capture     input-capture/src/lib.rs: InputCapture. Capture/Barriers has create and destroy over a
--               backend that may fail, Capture/Stream the event stream (poll_next) and the pressed keys;
--               Capture/Run is how such a step ends.
--   Session     src/capture.rs: Session/Types has CaptureTask and its State (Idle, Pending, Sending),
--               Session/Release release_capture, Session/Events handle_capture_event, Session/Received
--               the messages of the peers and the requests of the service, Session/Watchdog the ticks,
--               Session/Steps the branches of do_capture_session in any order, Session/Lifetime run and
--               do_capture. What the task calls is the record Session/Outside, a parameter: the backend,
--               the connections and the clock, with one state for all of them, which a session may
--               replace between two branches by any other. What the task sends and emits is kept in two
--               lists of its state.
--   Service     src/service.rs: Service/Handlers has the handlers of the frontends' requests about
--               clients, Service/Requests the dispatch of them, Service/Start the start of run,
--               Service/Monitors reconcile_monitors_changed and its helpers. The service's state is the
--               client manager and the log of what it sends; Service/Barriers serves that log on the
--               barriers, as the capture task does with its channel, in order.
--   Transport   src/quic_transport: Transport/Frames has write_frame, read_frame, write_stream_c_frame and
--               read_stream_c_frame of protocol.rs, Transport/Routing route_input, Transport/Hello and
--               Transport/Sides the Hello handshake (client_hello, server_hello), Transport/Loops the
--               reader tasks of streams B and C of streams.rs, Transport/Sending send_input and the send
--               functions of PeerSession in session.rs. The receiving half of a stream is the record
--               Transport/ByteStream, a parameter: read_exact, and the bytes that the peer sends; what
--               else is called of quinn is the records Remote and Quic, parameters too.
--   Connection  src/connect.rs: RetryState, record_retry_failure, the gate of dial and send, the ends of
--               connect_to_handle and the redial of spawn_peer_supervisor; the tasks that run are a list
--               of handles.
--   Loopback    LruFingerprints of src/service.rs, the fingerprints of the daemon's own writes.
--   Examples    concrete inputs; Examples/Slots is a slab that meets the laws.
--
-- How the proofs are put together. Wire goes field by field and body by body: the record IsReader of
-- Wire/Reading says that what is read behind what was written is what was written, and the bodies
-- compose it. Cache/Invariant says when a cache is valid: the count is the sum of the sizes, and
-- every key is in the queue. Service/Armed calls a service Sound when serving its log neither panics
-- nor leaves barriers that differ from those of the active clients, and goes through the handlers
-- one by one; Service/Exclusive and Service/Sides do so for the rule that two active clients do not
-- share a side of a monitor. Service/Detach is about the barrier that is taken down while a monitor
-- is away. Session/Held, Session/Ghost and Session/Runs follow the state and the active client
-- through every branch, Session/Kept and Session/Quiet what only a few branches change, and
-- Session/Known says when the task's captures, the barriers and the queue agree.
--
-- Bounds and fuel. A number of w bits is a natural number, and what the code wraps or casts is taken
-- modulo 2 ^ w where the code does so; the theorems on encoders ask for the ranges of the Rust
-- types. The one loop on fuel is decode_items of Wire/Fields, the loop of read_vec_var over a list
-- of files; it gets as many rounds as its bytes. Every reader of an item takes a byte at least, so
-- that the fuel is enough, and running out of it would be a panic of the model. The eviction loop is
-- a recursion on the queue, which is what bounds the loop of the code. The reader tasks of
-- Transport/Loops take fuel for their frames, of which there are fewer than bytes.
--
-- What is not modelled. Strings and byte arrays are lists of bytes; the set of ips is a list without
-- repetitions. The log messages, serde, the tasks and locks, and the writing of the configuration
-- file are left out. An Instant is read from the state of the world, so that two readings without a
-- call between them agree; the receiver of the capture task's events lives as long as the task. Of
-- the service what concerns neither clients nor the loopback fingerprints is left out, and of the
-- transport its connections: quinn, TLS, HTTP/3 and the main loop of a session. Of the connection
-- tasks what dials and waits is modelled, not what they do on sockets. The listening
-- task, the emulation, the clipboard backends of the platforms, the capture and emulation backends,
-- the command line and the frontends are not modelled: they are I/O or bindings of a platform.
pub mod Common
pub mod HashMap
pub mod Cache
pub mod FileCache
pub mod Wire
pub mod Client
pub mod Capture
pub mod Service
pub mod Loopback
pub mod Session
pub mod Transport
pub mod Connection
mod Examples
