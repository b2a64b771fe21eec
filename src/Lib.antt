-- ===== src/Lib.antt =====
-- osIROSE-new is a set of game servers (login, char, map, and a node that proxies them). They speak to the
-- game's client, and to each other, in packets. This library models how a packet is built, enciphered, sent,
-- received, deciphered and read, and what the login, the char and the map server do with a player's packets.
--
-- Common: Boolean tests, lists and words over the native numbers, exclusive or, and byte memory.
-- Crypt: PacketCodec and RoseRandomNumber (src/rosecommon/include/crosecrypt.h,
--   src/rosecommon/src/crosecrypt.cpp). Head has the bit-field structs and FlipHeadMain and FlipHeadFinal,
--   Crc the table, Codec the encoders and decoders, Rng the generators. The table m_Rt is any table.
-- Packet: CRosePacket (src/rosecommon/include/crosepacket.h): the operators << and >>, getPacked and the
--   constructors. Types has the numbers of the packets (src/rosecommon/include/epackettype.h).
-- Messages: the classes of requests (src/rosecommon/include/packets, src/rosecommon/src/packets), one record
--   with pack_ and unpack_ each, and Request, which is what fetchPacket returns
--   (src/rosecommon/include/packetfactory.h, src/core/include/factory.h). Reply has the replies that carry
--   their own members.
--   Lobby and CharacterList have the replies that hold lists (srv_loginreply.cpp, srv_channellistreply.cpp,
--   srv_characterlistreply.cpp), as far as they are built and packed.
--   Entities has the replies that read the components of an entity, as far as they are modelled.
-- Delivery: CRoseSocket::send, and OnSend and OnReceived around it (src/rosecommon/src/crosesocket.cpp): one
--   packet here, and in Requests a stream of them.
-- Socket: a connection. It reads by recv_data (src/core/src/cnetwork_asio.cpp), whose callback OnReceived or
--   OnServerReceived (src/rosecommon/src/crosesocket.cpp), or OnReceived of CRoseISC
--   (src/rosecommon/src/croseisc.cpp), cuts the bytes into packets and has HandlePacket called. SendQueue has
--   send_data and ProcessSend. HandlePacket, OnSend and asio are arguments.
-- Server: CRoseServer (src/rosecommon/src/croseserver.cpp): SendPacket here, and in Peers OnAccepted and the thread
--   that removes those that are gone.
-- Map: the map server (src/map). Client is CMapClient (src/map/src/cmapclient.cpp) over any EntitySystem.
--   Inventory has the slots and InventorySystem
--   (src/map/src/systems/inventorysystem.cpp, src/rosecommon/include/components/inventory.h), Ids has IdManager
--   (src/map/src/id_manager.cpp), Party has PartyBase (src/rosecommon/include/partybase.h).
--   Saving has the part of EntitySystem::saveCharacter and loadCharacter (src/map/src/entitysystem.cpp) that keeps
--   the inventory, Items the item database (src/rosecommon/src/itemdb.cpp) and what items are built of.
--   Systems has SystemManager (src/map/include/systemmanager.h) and the queues of EntitySystem.
-- Escape: escapeData (src/core/src/connection.cpp), which the servers apply to texts before they go into a
--   query.
-- Login: the login server (src/login/src): Isc is CLoginISC, Database the tables it uses
--   (src/Database/osirose.sql), Client the class CLoginClient, one function per handler. Access and Grants
--   have its proofs.
-- Isc: the connections between the servers, CCharISC (src/char/src/ccharisc.cpp) and CMapISC
--   (src/map/src/cmapisc.cpp). Char.Link has the runs of the char server's list of connections, Char.Told what the
--   login server is sent of a map server.
-- Char: the char server (src/char/src): Tables as before, Client and Select the class CCharClient, Choice its
--   proofs.
-- Node: the node server (src/node/src): NodeClient, which relays, and NodeISC.
-- Tests: each result applied at a concrete input.
--
-- A buffer is a function from offsets to bytes; a pointer that is cast reads and writes little-endian
-- numbers in it. What an uninitialised array holds is an argument. Integers keep their wrap-around; floats,
-- enums and signed members of a packet are their bit patterns. The reader of a text has MAX_PACKET_SIZE
-- characters as fuel: a text ends where the buffer ends. The receive loop has a fuel of one round per read; a round for
-- each byte of the stream, and one, are enough (Socket.Bounds.receive-IsDone). What is outside, the database
-- with its failures, the time, the connected servers and the scheduling of writes, is an argument of each
-- handler or a step of its own.
--
-- Not modelled: the filling of m_Rt from the seed; the opening and accepting of connections, and the errors of a
-- read; the other replies that read an entity (SrvPlayerChar, SrvSelectCharReply); the systems of the map server but for
-- those above, its entities and Lua; the constructors from a buffer of the replies that hold lists.
mod Common
pub mod Crypt
pub mod Packet
pub mod Messages
pub mod Delivery
pub mod Server
pub mod Socket
pub mod Map
pub mod Escape
pub mod Isc
pub mod Node
pub mod Login
pub mod Char
mod Tests
