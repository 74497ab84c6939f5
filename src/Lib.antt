-- ===== src/Lib.antt =====
-- NDLCom: packets on a byte stream between devices, and a bridge that passes them on.
--
-- A packet is a header of four bytes, up to 255 bytes of payload and a checksum of two bytes. The
-- encoder writes it between two flags with the reserved bytes escaped; the parser reads a stream in
-- pieces of any size and reports each packet whose checksum is right. A bridge holds external
-- interfaces, each with a parser of its own and with callbacks that read and write bytes. It passes a
-- message on by its receiver: a routing table names the interface behind which a device was seen, a
-- mirror gets every message, and a message for an unknown device or for all devices goes to every
-- interface but the one that it came from. A node is a handler of the bridge: it fills in the headers
-- of what it sends and gives what is for its own id, or for all devices, to its own handlers.
--
-- The files and the code:
--   Crc                 src/Crc.c, include/ndlcom/Crc.h, and the generator of the table in
--                       test/printTable.c; Crc/Linear, Crc/Residue and Crc/Bursts hold the algebra
--   Wire                include/ndlcom/Types.h
--   Encoder             src/Encoder.c; Encoder/Frame says what an encoded message is
--   Parser              src/Parser.c, include/ndlcom/Parser.h; Parser/Invariant says which bytes of
--                       a frame a state stands for, Parser/Feed takes one byte, Parser/Run many,
--                       and Parser/Streams and Parser/Traces compare it with the stream on the line
--   Routing             src/Routing.c, include/ndlcom/Routing.h
--   HeaderPrepare       src/HeaderPrepare.c, include/ndlcom/HeaderPrepare.h
--   LinkedList          the calls of include/ndlcom/list.h, as an interface
--   ExternalInterface   src/ExternalInterface.c, include/ndlcom/ExternalInterface.h
--   BridgeHandler       src/BridgeHandler.c, include/ndlcom/BridgeHandler.h
--   Bridge              src/Bridge.c, include/ndlcom/Bridge.h; Bridge/Recipients says whom a message
--                       is to reach, Bridge/Handling holds the handlers and Bridge/Dispatch their loop,
--                       Bridge/Reading the loops that read the interfaces; Bridge/Reading/Internal
--                       is about an id that leads to the bridge itself
--   NodeHandler         src/NodeHandler.c, include/ndlcom/NodeHandler.h
--   Node                src/Node.c, include/ndlcom/Node.h; Node/Delivery puts a node on its bridge,
--                       and Node/Arrival the bytes of an interface before it
--   MissEvents          the classes of src/BridgeHandler.cpp that count lost packets
--   Statistics          the classes of src/BridgeHandler.cpp and src/NodeHandler.cpp that count bytes
--   ExternalInterfaceBase src/ExternalInterfaceBase.cpp, the base of the drivers, which are a
--                       parameter
--   Sockets             the functions of src/ExternalInterface.cpp that write to and read from TCP, UDP
--                       and CAN sockets
--   Ids                 the functions of src/Bridge.cpp that read a list of device ids from a text
--   BridgeClass         the class Bridge of src/Bridge.cpp and include/ndlcom/Bridge.hpp with the class
--                       Node of src/Node.cpp and include/ndlcom/Node.hpp: what they own;
--                       BridgeClass/Ownership says how their vectors and the lists of the C library
--                       belong together, BridgeClass/Uris makes interfaces from a text,
--                       BridgeClass/Lifetime goes from the constructor to the destructor
--   Pipe                the class ExternalInterfacePipe of src/ExternalInterface.cpp: bytes as text
--   Payload             src/Payload.cpp, include/ndlcom/Payload.hpp, and the functions that send one
--   Prelude             numbers, lists and bits
--   Tests               the definitions on concrete values
-- A definition has the name of the function, in snake case and without the prefix `ndlcom` and the
-- name of the component (`ndlcomParserReceive` is `Parser.receive`); the names of src/Bridge.c keep
-- `bridge_` where the short one would say too little.
--
-- A function that changes a struct returns the new struct. A struct is a record, an array a list of
-- its fixed length, a pointer into an array the index, an address of an interface a number. Bytes are
-- numbers below 256, and each sum that C reduces is reduced here: the counters modulo 2 ^ 8, the
-- failures of the checksum modulo 2 ^ 32, `size_t` modulo 2 ^ 64. NDLCOM_MAX_NUMBER_OF_DEVICES and
-- NDLCOM_MAX_PAYLOAD_SIZE have their defaults, the checksum is the one of 16 bits, and the order of
-- the bytes of a `uint16_t` in memory is an argument. A loop runs over a list that is
-- given, but for the loops of the bridge over its handlers, its interfaces and the bytes of one read,
-- and of a node over its handlers, whose body may change what they run over: each has a number of
-- rounds and gives no result when they are not enough. One round more than there are handlers is
-- enough when no handler is added or taken out, and one round for each byte that was read.
--
-- The bridge is one bridge with its interfaces in memory. Its lists are the list of the Linux kernel,
-- taken as a record of the calls and of what they promise. A write or read callback changes the world
-- outside and not the bridge; a handler may change everything. The nodes and their handlers stand in
-- that world. What the operating system answers to the calls on a socket is a list, one answer for
-- each call. The address of a new object, the regular expressions of the drivers and their
-- constructors are parameters too; the loops of the destructors have one round more than there are
-- objects, which is enough, and the loops over the pieces of a text and over the bytes in a pipe one
-- round more than there are characters. For the pieces Ids/Pieces shows that more rounds give nothing
-- else (`split_loop_enough`), and for the pipe Pipe/Progress that the rounds do not run out. Not
-- modelled: the C++ classes that only pass calls on or print, the opening and
-- configuring of devices and the other drivers, and the command line tools.
pub mod Prelude
pub mod Crc
pub mod Wire
pub mod Encoder
pub mod Parser
pub mod Routing
pub mod HeaderPrepare
pub mod LinkedList
pub mod ExternalInterface
pub mod BridgeHandler
pub mod NodeHandler
pub mod Bridge
pub mod Node
pub mod MissEvents
pub mod Statistics
pub mod ExternalInterfaceBase
pub mod Sockets
pub mod Ids
pub mod BridgeClass
pub mod Pipe
pub mod Payload
mod Tests
