-- ===== src/Lib.antt =====
-- The game server of GameServer/Server: players and NPCs in a world of 2000 by 2000 tiles.
--
-- Clients connect through a completion port. GameServer/Network/BufferQueue.cpp collects the bytes
-- of a client, `ProcessPackets` of GameServer/Server/IOCPServer.cpp cuts them into packets and handles
-- each, and the handlers change sessions (GameServer/Server/Session.cpp), the grid of sectors
-- (GameServer/Server/SectorManager.cpp), the timer's queue (GameServer/Server/Timer.cpp) and the
-- database (GameServer/Server/DBHandler.cpp), and send packets to those who see the change.
--
-- The files, by the part that they model:
--   Base, Base/*            shared names, tests, lists, sets of ids, integers with C's conversions
--   Network/BufferQueue     BufferQueue.h and .cpp; children for valid indices, for contents,
--                           and Split (a buffer of whole packets)
--   Network/Bytes           the fields of the structures in Protocol.h as bytes
--   Network/Protocol        the packets of Protocol.h; RoundTrip, Blocks (their bytes read, and counted)
--   Network/MemoryPool      MemoryPool.h; Blocks (who holds them)
--   Network/Overlapped      WSAOverlappedEx.h; Batch (what one operation sends), Allocation (the memory
--                           of records)
--   Rudp/PeerKey, Socket    RUDP/Network/RUDPSocket.cpp: addresses as texts, and the queue of messages;
--                           Sender (what its thread sends)
--   Asio/Message, Stack     Asio/AsioNet/message.h; what comes out of a message
--   Asio/TsQueue, Fifo      Asio/AsioNet/tsqueue.h; the order of the items
--   Asio/Connection         Asio/AsioNet/connection.h; Writer and Reader (the messages in their order)
--   Asio/ClientSide         Asio/AsioNet/client_side.h
--   Asio/Chat               the chat of Asio/AsioServer/server_main.cpp (Server) and
--                           Asio/AsioClient/client_main.cpp (Client); Texts (texts in messages), Talk
--                           (from one client to the others), Lines (what is shown), Keys (what is typed)
--   Asio/ServerSide         Asio/AsioNet/server_side.h; Broadcast (whom a message reaches)
--   Server/PlayerInfo       PlayerInfo of GameServer/Network/stdafx.h, constants of Protocol.h
--   Server/Geometry         the helpers of GameServer/Server/common.h
--   Server/SectorManager    SectorManager.cpp; Sets (what each operation does to the sets of ids),
--                           Cover (which sectors are near)
--   Server/Session          Session.cpp; Level (the level-up loop)
--   Server/Timer            Timer.h and Timer.cpp; Order (the queue as a schedule)
--   Server/DbHandler        ConnectWithID of DBHandler.cpp
--   Server/World            the state of IOCPServer and its Send methods; Frame (what they leave)
--   Server/Npc              ActivateNPC, MoveNPC, HandleNPCAttack, HandleDeadNPC, ReviveNPC, InitNPC;
--                           Strike (what an attack does to its victim)
--   Server/Sight            HandlePlayersInSight, HandleDisappearedPlayers, SendNearPlayersInfo and
--                           the loops over nearby sectors; Views, Gather (what they compute)
--   Server/Clients          GetAvailableID, AcceptNewClient, ProcessLoginPacket, Disconnect; Slots
--   Server/Packets          ProcessPackets and ProcessAttackPacket; Settle, Move, Order (a move and
--                           its sight), Attack (the nine tiles), Buffers, Loop (the loop),
--                           Stream (a buffer of whole packets)
--   Server/Completion       HandleCompletionInfo, NetworkThreadFunc, TimerThreadFunc, the constructor
--                           and the destructor; Drain (the rounds of the timer)
--   Server/Threads          Run, SignalHandler and the loop of NetworkThreadFunc, as far as they start
--                           and end the threads, where a handler is taken to return or to throw, which
--                           ProcessPackets does not do on a packet of size 0; Shutdown
--   Client/GameObject       GameServer/D2DApp/GameObject.h and .cpp, without the drawing
--   Client/Scene            GameServer/D2DApp/Graphics.cpp, likewise; Frames (null pointers)
--   Client/NetClient        GameServer/D2DApp/NetClient.cpp and the texts of the two windows; Screen
--                           (what a packet shows), Ready (frames and packets), Stream, Cut and
--                           Segments (packets as a stream of bytes in pieces)
--   ClientApp/ClientSocket  GameServer/ClientApp/clientSocket.h and .cpp; Stream (a queue of packets)
--   ClientApp/GameScene     the players of GameServer/ClientApp/gameScene.cpp, pipeline.cpp and
--                           gameFramework.cpp; Frames (one frame), Packets (frames and packets), Bytes
--                           (from received bytes to the next frame)
--   System/Runs             the steps of the server's threads, in any order, from its start
--   System/Keep             the few ways in which steps change the world (`Leaves`), and from these to
--                           whole steps, once for every statement about all runs: a child each for what
--                           NPCs do, for sight, for packets and for the threads
--   System/Screen           an instance: the packets sent to a client against his view list; Play (a
--                           client who handles them), Reuse (the next client of a slot)
--   System/Grid             an instance: the sectors against the positions of the clients
--   System/Queue            an instance: the order of the timer's queue
--   System/Keys             from a key of a client to the move on the server
--   Tests                   the theorems at concrete buffers, messages, positions and worlds
--
-- `World` is the state that the handlers share: gClients is a function from ids to sessions, the
-- grid a function from sectors to lists of ids, and what leaves the server is a list of packets, of
-- receive requests and of updates. A method is a function from a world to a world, named as in the
-- source. One handler runs at a time: the six network threads and the timer interleave at the level
-- of whole handlers, although the source guards single operations only. The clock stands still during
-- a handler. `rand` is a stream, and the database a function from names to answers.
--
-- Iteration over an `unordered_set` follows the order of the list; positions and sets do not depend
-- on it. `short` and `int` wrap where the source stores a result; a difference of two `short`s is an
-- exact `int`.
--
-- Fuel: ProcessPackets takes one unit a round, and one unit more than the bytes unread is enough where
-- no packet has size 0 or a size from 128 on. The level-up loop has 65600 units, which is more than a
-- `short` has levels; up to level 25 as many units as levels are enough.
--
-- A client's scene is a map from ids to pointers; each method of it is one step, also those that the
-- source does not guard. The texts are bytes, and the coordinates are tiles. ProcessPackets of the client
-- takes one unit of fuel more than there are packets. A stream of bytes reaches the client in pieces
-- that are no longer than the room in the buffer when they were asked for. The 3D client, whose queue
-- of bytes is a parameter with laws, since RingBuffer is not in the repository, needs one round more than
-- there are packets; its map of pawns names the objects of the pipeline by the ids of their players.
--
-- Not modelled: sockets, the completion port beyond the order of its entries, and the Windows
-- structures of an overlapped operation, which only call the system; Lua beyond the two events of
-- Script/npc.lua; connecting to the database; the drawing and the windows of GameServer/D2DApp; of
-- GameServer/ClientApp the Direct3D objects, the camera, and the quit packet, which Protocol.h does not
-- have; the sockets of Asio/AsioNet, the start and stop of the context of its two sides, and the
-- screen of its chat; the sockets of RUDP, and the separate exercise BasicSocket; third-party headers.
pub mod Asio
pub mod Base
pub mod Client
pub mod ClientApp
pub mod Network
pub mod Rudp
pub mod Server
pub mod System
pub mod Tests
