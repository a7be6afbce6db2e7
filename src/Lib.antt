-- ===== src/Lib.antt =====
-- xiu: the parts of the live server that turn messages into bytes and bytes into messages, and the
-- hub between its sessions.
--
-- The program receives and sends audio and video over RTMP, RTSP, HTTP-FLV, HLS and WebRTC. All of
-- these stand on library/bytesio, which reads and writes bytes and bits in a buffer in front of
-- the network. RTMP (protocol/rtmp) cuts its messages into chunks: a packetizer compresses the
-- headers and cuts the payloads, an unpacketizer puts them together again on whatever bytes have
-- come. The commands in the messages are AMF0 values (library/container/flv/src/amf0), and what is
-- relayed to clients that come late is kept in a cache of groups of pictures. The sessions of all
-- protocols publish and subscribe at the hub (library/streamhub), which starts a transceiver for
-- each stream; the transceiver hands the publisher's frames to the subscribers. WebRTC puts the
-- packets it receives in order, and HLS writes MPEG transport streams (library/container/mpegts).
--
-- Files and what they model:
--   Prelude: Boolean tests, lists over the native numbers, words and byte orders, bit fields, and
--     `Outcome`, what a method returns: a value or an error with the object after the call, a
--     panic, or `stuck` for a loop of the model that has run out of fuel.
--   Bytesio: library/bytesio. Reader is BytesReader and AsyncBytesReader, Writer is BytesWriter
--     and the flush of AsyncBytesWriter, BitsReader and BitsWriter are the readers and writers of
--     bits.
--   Chunk: protocol/rtmp/src/chunk. Header has the types of mod.rs; Unpack is ChunkUnpacketizer,
--     one child for each of read_basic_header (Basic), read_message_header and
--     read_extended_timestamp (Message), read_message_payload (Payload), read_chunk and
--     read_chunks (Chunks); Pack is ChunkPacketizer; Wire has the bytes between the two as plain
--     lists.
--   Amf0: library/container/flv/src/amf0. Reader and Writer are Amf0Reader and Amf0Writer.
--   Flv: library/container/flv. TagHeader is flv_tag_header.rs, Muxer is muxer.rs, Demuxer is the
--     FlvDemuxer of demuxer.rs.
--   Rtp: protocol/rtsp/src/rtp. Header is rtp_header.rs, Report is rtcp_header.rs and rtcp_rr.rs,
--     Sender, Bye and App are rtcp_sr.rs, rtcp_bye.rs and rtcp_app.rs, Packet mod.rs; H264 is
--     rtp_h264.rs, with what it uses of define.rs and utils.rs.
--   Cache: protocol/rtmp/src/cache/gop.rs.
--   Hub: library/streamhub. Define, Events and Platform have the data and what is taken from
--     outside; Statistics is statistics/mod.rs with receive_statistics_data; Transceiver is
--     StreamDataTransceiver; StreamsHub, Api and EventLoop are StreamsHub. Frames and Handling
--     have the lemmas on its calls and events, the other modules one subject each.
--   Message: the messages of protocol/rtmp/src. Define and Parser are messages, Control
--     protocol_control_messages, Event user_control_messages, NetWriter, NetConnection and
--     NetStream netconnection/writer.rs and netstream/writer.rs; Signal and Command list the
--     calls, Delivery and CommandDelivery have the lemmas on them.
--   Session: Url is protocol/rtmp/src/utils/mod.rs, Define, Common, Server and Commands are
--     define.rs, common.rs and server_session.rs of protocol/rtmp/src/session, Server the state
--     and Commands the handlers. The hub, the network and the cache are at the other ends of a
--     session and parameters of it, and so is library/common/src/auth.rs. Leaves, Safety and Steps
--     have the lemmas on the calls and steps, Admission those on the handlers.
--   Webrtc: protocol/webrtc/src/rtp_queue.rs.
--   Mpegts: library/container/mpegts. Crc32 is crc32.rs, Tables has pes.rs, pmt.rs and pat.rs,
--     Programs the programs and streams of ts.rs. Polynomial and Receiver say what ITU-T H.222.0
--     makes of a checksum and of the tables; Table, Linear, Checksum, Remainder and Seal have the
--     lemmas on them.
--   The modules called Runs hold examples.
--
-- How the code is read. A method is a function from the object before the call to an `Outcome`; an
-- error keeps what the method had changed before its early return. Numbers are naturals, with the
-- wrap-around of shifts and casts written out; an addition or subtraction that overflows, an index
-- out of range and a failed assertion are panics, as in a build with overflow checks. A byte
-- buffer is a list of bytes, a HashMap is an association list, a float is its 64 bits, a string
-- its UTF-8 bytes. The byte orders of byteorder are the usual ones. The network is the list of the
-- packets to come, behind which a read fails, and for a flush whether it is taken. Logging is left
-- out. The test of String::from_utf8 and the insertion of IndexMap are parameters. So are the
-- channels of tokio, the notifier, the handlers of the protocols and serde_json, which work on a
-- world that the hub and the transceivers pass on; the result of a send and of a wait is up to
-- this world, and a wait that does not end is `stuck`. Each task is a function on what it
-- receives, and the tasks are not interleaved.
--
-- Loops. read_chunk, read_chunks, read_properties, read_all and the loop of write_n_bits recur on
-- fuel: four rounds for each byte in the reader and six more, one for each byte and three more,
-- one more than the bytes, the same, and eight. The loops over payloads, over the packets to come
-- and over the events and frames that a task receives recur on the lists, and api_statistic on the
-- number of answers to come. The loops over a frame in Annex B and over the payloads of H264 have
-- one round for each byte that is left, and a round takes a byte at least, that of the packer for an
-- mtu above 14.
--
-- Not modelled: sockets, timeouts and random bytes; the handshake, the session's read loop, its
-- frames for players and its data for statistics, the client session, the PES packets of MPEG-TS,
-- HLS, HTTP-FLV, RTSP sessions and other payload formats, the sessions of WebRTC, H264 parameter
-- sets, configuration and start-up.
pub mod Prelude
pub mod Bytesio
pub mod Chunk
pub mod Amf0
pub mod Rtp
pub mod Flv
pub mod Cache
pub mod Hub
pub mod Webrtc
pub mod Message
pub mod Session
pub mod Mpegts
