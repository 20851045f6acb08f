-- ===== src/Lib.antt =====
-- The simulator of a DLMS/COSEM electricity meter in simulator_meter: the session of a meter with
-- a client of simulator_meter/fee/meter_simulator, the frame codecs of
-- simulator_meter/common/ptcl_codec, the message blocks of simulator_meter/common/channel and the
-- frame buffer of simulator_meter/fee/meter_simulator. A channel reads bytes into a message
-- block, a frame buffer collects them, a frame class finds and checks a frame in them, and a
-- protocol module above it takes sequence numbers, BCD numbers, time stamps and ASN.1 values out
-- of the data area; answers go the same way back. A session takes the messages of one client in
-- turn: it opens and releases an association, serves requests for data, and protects messages
-- with AES-GCM.
--
-- - Prelude: shared names, tests on numbers, lists, facts by tables (Prelude.Tables), and C's int
--   (Prelude.Int). Memory: byte arrays as functions from an offset, with blocks of bytes
--   (Memory.Block) and words in the byte order of the machine and of the network (Memory.Word).
-- - MessageBlock: message_block of simulator_meter/common/channel/message_block.cpp; the pointers
--   are offsets.
-- - FrameBuffer: frame_buffer of simulator_meter/fee/meter_simulator/frame_buffer.cpp; every
--   method is one step, since a mutex guards it.
-- - Packet: ptcl_packet, the base of the frame classes; Packet.Dlms47: ptcl_packet_dlms47, the
--   wrapper of the TCP profile; Packet.Hdlc: ptcl_packet_hdlc, with its table in
--   Packet.Hdlc.Table; Packet.Gateway: ptcl_packet_gw_dlms47; Packet.In: ptcl_packet_in;
--   Packet.Mass: ptcl_packet_mass; Packet.Mbus: ptcl_packet_mbus; Packet.Ansi: ptcl_packet_ansi,
--   with the check sum of boost::crc_optimal as a parameter.
-- - Module: ptcl_module, the frame counters and BCD; Module.Time: its time stamps;
--   Module.Formats: the formats that are time stamps, and check_bcd; Module.Hdlc:
--   ptcl_module_hdlc, which puts the messages of the wrapper in HDLC frames.
-- - Asn: asn_codec, where a parser takes the list of the bytes from its pointer on and none is a
--   read behind them.
-- - AsnParser: the types of asn_codec; AsnParser.Grammar: create_parser of
--   simulator_meter/common/ptcl_codec/asn_parser.cpp; AsnParser.Parse: parse_buf of the parsers
--   of asn_parser.h; AsnParser.Items, AsnParser.Block and AsnParser.Request: result_data,
--   ptcl_cosem_block and ptcl_cosem_request of ptcl_cosem_dlms.cpp.
-- - Client: the messages of a client of ptcl_module_dlms47, to open and to release an association
--   (Client.Association) and to ask for attributes, set them and run methods (Client.Request).
-- - Security: data_security and the GCM functions of
--   simulator_meter/fee/meter_simulator/common.cpp; the record Crypto is what they use of
--   Crypto++, the hexadecimal filters and the cipher, and IsSound its documented behaviour;
--   Security.Toy is an instance.
-- - Meter: the state of meter_handler and access_security of simulator_meter/fee/meter_simulator
--   in one record; Meter.Protect: call_encrypt and call_decrypt; Meter.Apdu and
--   Meter.Apdu.Profile: the answers of ptcl_module_dlms47; Meter.Association: what
--   access_security reads, with its answers in Meter.Association.Reply, and the layout of an AARQ
--   in Meter.Association.Layout and Meter.Association.Message; Meter.Handler: handle_response of
--   meter_handler; Meter.Handler.Data: its process_data, where the record Objects is what it uses
--   of object_transfer; Meter.Transfer: object_transfer.cpp, with the tables of
--   simulator_config.cpp in Meter.Transfer.Config, which fills that record in
--   Meter.Transfer.Response.objects.
--
-- Integers are natural numbers with the wrap-around of their width written out (% 2 ^ w); C's int
-- is the type of Prelude.Int where a negative value can occur. A function that can touch memory
-- outside its array has the result none in that case, never an invented value; an area that a
-- caller passes as a bare pointer has no size in the model. The machine is little-endian, as the
-- code assumes. Every loop is structural recursion on a count or a list, but for the loop over
-- the components of an AARQ, which has fuel for 1600 of them: a component has two bytes at least,
-- and a read outside the buffer of 1536 bytes ends the loop; and for the parsers of
-- AsnParser.Parse, which call each other to the depth of the message: their fuel is the depth of
-- calls, five for a request for one attribute, and a message that none is enough for is one that
-- the code does not come back from.
--
-- Not modelled: sockets, serial ports, threads, the logger, configuration and database access
-- (I/O through third-party libraries); the ciphers and hexadecimal filters (Crypto++,
-- parameters); formats whose result is a double; the frame classes and protocol modules other
-- than those named, the XML file of the configuration, random numbers (arguments, and for the
-- events of a profile a sequence of draws for each attribute), the time, sscanf, localtime and
-- mktime (parameters).
pub mod Prelude
pub mod Memory
pub mod MessageBlock
pub mod FrameBuffer
pub mod Packet
pub mod Module
pub mod Asn
pub mod AsnParser
pub mod Client
pub mod Security
pub mod Meter
