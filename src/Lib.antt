-- ===== src/Lib.antt =====
-- GTProxy stands between a Growtopia client and its server. It decodes the packets that pass, keeps a
-- model of the world that the player is in, and forwards or changes the packets. This library models
-- the two ends of the proxy with their peers, the reading and writing of packets, the world that they
-- build, the item database, the schedulers of tasks, the order of event listeners, the commands, and the
-- web server that sends the game to the proxy:
--
-- * Utils.ByteStream is src/utils/byte_stream.hpp: the buffer with its read position. A reader is a
--   function from a stream to an Outcome, either `done` with a value and the stream after it, or
--   `fault` where the code would touch memory outside the buffer or go through a null pointer. The
--   read position is a std::size_t and wraps at 2 ^ 64. Its children hold the bytes of a word (Words),
--   a calculus for readers on input that is all there (Reads), the same for single fields (Fields),
--   reads on any input (Safety) and what writing leaves behind (Writes).
-- * Utils.TextParse is src/utils/text_parse.hpp: lines of a key and values, behind
--   `std::views::split`, `std::from_chars` and `std::to_chars` (Numbers), with Split, Entries and
--   RoundTrip for the proofs.
-- * Utils.Zlib is src/utils/zlib.hpp, Utils.Network src/utils/network.hpp and Utils.Hash
--   src/utils/hash.hpp.
-- * Packet.Variant is src/packet/packet_variant.hpp: the arguments of a call. Packet.Types is the
--   struct GameUpdatePacket of src/packet/packet_types.hpp. Packet.Payload is src/packet/payload.hpp;
--   Packet.Ids and Packet.Registry are packet_id.hpp and packet_registry.hpp, which say what class a
--   payload has. The classes are Packet.TextPackets (src/packet/message), Packet.GamePackets and
--   Packet.CallPackets (src/packet/game), with the `read` functions of world.hpp in
--   Packet.WorldPackets. Packet.Helper is src/packet/packet_helper.hpp, from a packet to its bytes, and
--   Packet.Decoder src/packet/packet_decoder.cpp, the way back.
-- * World.TileExtra is src/world/tile_extra.hpp and tile_extra.cpp: Data has the structs, Kinds a
--   function `serialize_*` for each (which reads, in spite of its name), Unknown the bytes passed over
--   for the other types. Wire says which bytes stand for which data; Parts and Reading compare the
--   two. World.Tile, World.TileMap and World.ObjectMap are the files of these names, and World.State
--   is src/world/world.hpp with src/player/player.hpp.
-- * Core.WorldHandler is src/core/handlers/world_handler.cpp: `handle` is one packet on the world, and
--   `handle_all` a session.
-- * Core.Scheduler is src/core/scheduler.hpp and scheduler.cpp: each function is one critical section
--   under the mutex, Steps puts them in any order, and Pending, Runs, Cancel and CancelMany hold the
--   proofs. A clock gives the time as a number, and a callback is only named. The ids are below
--   2 ^ 64 and are given out once each for fewer steps than that.
-- * Core.ConnectionHandler is src/core/handlers/connection_handler.cpp: `handle` gives the calls that a
--   listener makes.
-- * Event is src/event/event.hpp: Order says what the two lists of the dispatcher stand for, Types has
--   the numbers of the events and the ids of the packets, Casts the casts of an event's packet, and
--   Scoped the class ScopedHandle.
-- * Scripting.ScriptScheduler is src/scripting/script_scheduler.cpp: Quiet is a round whose callbacks
--   leave the scheduler alone, Rounds one in which they may call it, Waiting the rounds of the main
--   loop of src/core/core.cpp until a callback is due.
-- * Command is src/command/command_registry.cpp with command_handler.cpp; Bodies are the commands of
--   src/command/commands, as the packets that they write and what they ask of the scheduler.
-- * Item is src/item/item_database.cpp: Info has the struct of item_info.hpp in the groups in which
--   Reading reads it, Cipher the cipher of the names, and Wire which bytes stand for which item. Items and
--   Database read what was written, Safety any bytes, Ended and Malformed files that end early, and
--   Lookup gives the types of the items to the parser of the tiles.
-- * Network is src/network/client.cpp, server.cpp and src/core/handlers/forwarding_handler.cpp. The two
--   ends are one definition with a Side, and the few places where they differ are functions of it.
--   Loop is `process` of src/network/enet_wrapper.cpp, Dns src/network/dns_resolver.cpp, Commands the
--   command handler among the listeners; Relay, Effects, Peers and Process hold the proofs.
-- * Core.WebServer is src/core/web_server.cpp: the handler of server_data.php and the two listeners.
-- * Prelude holds the shared names and lemmas, Tests the runs on concrete input.
--
-- A byte is a natural number below 256 wherever a theorem needs it, and so for wider words; a float,
-- and an int32_t that only passes through, is its bit pattern. Objects that the code changes in place
-- are passed in and out: a reader takes the value that its target held, which a failed read leaves
-- there. A loop runs along a list or down a count that was read; with fuel are made the decimal digits
-- of a number, ten of them, which is enough for 32 bits, and `process`, whose fuel is enough where it is
-- more than the number of events that the host gives.
--
-- Parameters stand for what is outside. `item_types` is the lookup in the item database, where the
-- parser of the tiles does not say which; `none` is its null pointer. `junk` is what memory holds in a local
-- struct that is not initialised. `via_float` is the conversion of a coordinate to a float and back
-- in `Player::from_on_spawn`. No theorem asks anything of these two beyond what it says itself. `breaks`
-- says where the anchors of a std::regex see the end of a line, which differs between libraries.
-- `inflate` and `deflate` are the calls of zlib, `print` the log configuration, `lua` what the callback
-- of a script does, and CallbackList the lists of eventpp, whose documented behaviour is Documented.
-- Enet is what the two ends call of ENet, on a host of any type. FileSystem is what a path holds, and
-- Services and Environment are the HTTP client, the JSON reader and the configuration.
--
-- Allocation is taken to succeed. Not modelled are the command debug, which prints floating-point
-- numbers, making the hosts and httplib's server with its thread, logging, the configuration, the main
-- program, and the Lua bindings, which call other libraries. src/utils/randutils.hpp is a copy of
-- another project.
pub mod Prelude
pub mod Utils
pub mod Packet
pub mod Item
pub mod World
pub mod Core
pub mod Event
pub mod Scripting
pub mod Command
pub mod Network
pub mod Tests
