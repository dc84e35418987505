-- ===== src/Lib.antt =====
-- A client prototype's network core: sockets' sessions, their buffers, the reliable layer above UDP,
-- the lock and the job queues that its threads share, and the game state above it. Paths are from the
-- repository's root.
--
-- Prelude: Boolean tests, lists, bits and maps over the native numbers.
-- RecvBuffer: ClientNetworkCore/RecvBuffer.cpp (`Clean`, `OnRead`, `OnWrite`). A session stores the
--   bytes of a receive with `store` and then calls `on_write`. The `memcpy` of `Clean` is an instance
--   argument with the law of the library's: it moves bytes between ranges that do not overlap, and
--   nothing is known of others. Where a theorem needs it, that `Clean` copies no overlapping ranges
--   is a hypothesis; the code does not see to it.
-- Framing: `IsParsingPacket` of ClientNetworkCore/Session.cpp and UdpReceiver.cpp, a loop on fuel. The
--   fuel is one more than the bytes left, which is enough since each packet has a header; with it the
--   loop stops by its own tests (Framing/Loop).
-- TcpSession: `TcpSession` of ClientNetworkCore/Session.cpp, on RecvBuffer and Framing. Each method is
--   a function on the session; what it asks of the socket and the service is appended to `log`.
--   TcpSession/Senders has the threads in `Send`, under any interleaving of its block under the lock,
--   `RegisterSend` and the completion of a write.
-- Sequence, ReliableUdp: `ReliableUdpSession` of ClientNetworkCore/Session.h and Session.cpp. The map of
--   pending packets is an association list, the history a list of 1024 Booleans.
-- Lock: ClientNetworkCore/Lock.cpp; Lock/System has its users, under any interleaving of their calls.
-- JobQueue: ClientNetworkCore/JobQueue.cpp with its entries in the global queue; JobQueue/Threads has
--   the threads, and a schedule is a list of thread and choice.
-- SendBuffer: ClientNetworkCore/SendBuffer.cpp; a failed `ASSERT_CRASH` is the outcome `crash`.
-- PacketHandler: DummyClient/ServerPacketHandler.h: ids, handler tables, dispatch with acknowledgements
--   (on ReliableUdp), and packets written into send buffers (on SendBuffer). The protocol's parser and
--   serialiser and the handlers are arguments.
-- Service: ClientNetworkCore/Service.cpp: the sets of sessions and the UDP handshake.
-- UdpReceiver: ClientNetworkCore/UdpReceiver.cpp, on RecvBuffer, Framing and Service.
-- DeadLockProfiler: ClientNetworkCore/DeadLockProfiler.cpp. `Dfs` is a function on fuel, one more than the
--   number of locks; each level of the recursion discovers a lock, so it is enough. The loop that
--   prints has one round per slot of `_parent`, which is enough for the same reason.
-- Memory: ClientNetworkCore/Memory.cpp and Allocator.cpp with `_STOMP`, as CoreTypes.h defines it. Each
--   `for` loop of the constructor has 64 rounds of fuel, more than it takes (Memory/Table).
-- MovementInterpolator: DummyClient/MovementInterpolator.cpp. Player: the inputs of DummyClient/Player.cpp.
-- GameScene: DummyClient/Scene.cpp, GameScene.cpp and the loops of the actor handlers of
--   DummyClient/ServerPacketHandler.cpp, on Player and MovementInterpolator.
-- ServerPackets: the handlers of DummyClient/ServerPacketHandler.cpp with SceneManager and
--   SessionManager, on GameScene. The class of the session that a packet came on, whether its service
--   is there, and Boost's `make_address` are arguments; a cast to a wrong class, a null pointer and an
--   exception that nothing catches are the outcome `crash`.
-- FloatOps: the operations of `float` and `double` as an interface, which these take as an instance:
--   Vector: DummyClient/Types.h. Compression: DummyClient/TransformCompressor.cpp. Player/Motion: the
--   drawn state of DummyClient/Player.cpp, Actor.cpp and Utils.h. TimeManager: DummyClient/TimeManager.cpp.
-- GameSession: DummyClient/GameTcpSession.cpp, GameUdpSession.cpp and GameUdpReceiver.cpp, which join the
--   network core to PacketHandler; GameSession/Stream goes from one side's packets to the other's handlers.
-- ServiceStart: `Start` and `CreateSession` of ClientNetworkCore/Service.cpp, on UdpReceiver and ThreadManager.
-- RoomMenu: the windows with buttons of DummyClient/Renderer.cpp, on ServerPackets.
-- ThreadManager: ClientNetworkCore/ThreadManager.cpp, LockQueue.h and GlobalQueue.cpp. The rounds of
--   `DoGlobalQueueWork` are fuel; one more than the round that begins late is enough.
-- TypeCast: ClientNetworkCore/TypeCast.h. The instances of `MakeTable` are fuel: one for each pair of
--   types, one for each end of a row, and the last one.
-- InputManager: the keys of DummyClient/InputManager.cpp.
-- RefCounting: ClientNetworkCore/RefCounting.h, with the pointer variables as slots of a store.
-- JobTimer: ClientNetworkCore/JobTimer.cpp. BufferWriter, BufferReader: the files of these names.
--
-- Machine integers keep their wrap-around (`uint16` sequence numbers and counts, the `uint32` lock
-- flag); sizes and positions that the code keeps inside their arrays are plain numbers, and that they
-- stay inside is proved where they are used. Sockets, the executor and the clock are arguments.
--
-- What is one step: Lock, JobQueue and TcpSession/Senders split a method where other threads can come
-- between. Elsewhere a method runs as one step. The source does not see to that for the methods of
-- Player against the handlers, which run on network threads, nor for the frames of RoomMenu against
-- them, nor for the other methods of a session outside its lock: their theorems are about calls that
-- do not overlap in time.
--
-- Not modelled: generated protocol code; the drawing itself, which calls the graphics library; the
-- pools that `_STOMP` leaves out; the mouse and the window; the threads and the executor. No law of
-- floating-point arithmetic is assumed.
pub mod Prelude
pub mod RecvBuffer
pub mod Framing
pub mod TcpSession
pub mod Sequence
pub mod ReliableUdp
pub mod Lock
pub mod JobQueue
pub mod SendBuffer
pub mod BufferReader
pub mod BufferWriter
pub mod Compression
pub mod DeadLockProfiler
pub mod FloatOps
pub mod GameScene
pub mod GameSession
pub mod InputManager
pub mod JobTimer
pub mod Memory
pub mod MovementInterpolator
pub mod PacketHandler
pub mod Player
pub mod RefCounting
pub mod RoomMenu
pub mod ServerPackets
pub mod Service
pub mod ServiceStart
pub mod ThreadManager
pub mod TimeManager
pub mod TypeCast
pub mod UdpReceiver
pub mod Vector
