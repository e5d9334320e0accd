-- ===== src/Lib.antt =====
-- A model of the RTSP streaming library (src/streaming_lib), and what is proved of it.
--
-- The library has two halves. rtp_lib carries JPEG frames over UDP: rtp_packet.hpp reads and writes
-- packets, rtp_endsystem.cpp has the sender, its FEC generator, the receiver and the receiver's
-- validation of sequence numbers. rtsp_lib is the control protocol: rtsp_headers and rtsp_message read
-- and write texts, rtsp_server_internals.cpp keeps the server's sessions and calls the methods of
-- rtsp_methods.cpp, which create, start and stop the RTP sender of a session.
--
-- Files, each with the code that it is about (paths below src/streaming_lib):
--   Common          shared names, Boolean tests, lists over the native numbers, bit operations.
--   Rtp/Sequence    rtp_lib/.../rtp_endsystem: rtp_receiver_squence_utility. Accounting has the invariant and
--                   the counts, Validation which numbers are accepted.
--   Rtp/Spirit      the binary parsers and generators of Boost.Spirit, as a record of operations and laws.
--   Rtp/Packet      rtp_lib/include/rtp_packet.hpp. Generator and Grammar are the code, HeaderRoundTrip,
--                   RoundTrip and Parsed what holds of it.
--   Rtp/Fec         rtp_lib/src/rtp_endsystem.cpp: fec_generator. Xor, BitString and Mask are the lemmas on its
--                   octets, Base on its sequence numbers, Block what a block of packets gives.
--   Rtp/Sender      the same file: unicast_jpeg_rtp_sender. Sending is the handler of its timer, Strand the runs of
--                   its timer and queue in any order, Handlers, Life and Frames what holds of it.
--   Rtp/Receiver    the same file: unicast_jpeg_rtp_receiver. Reconstruction, Recovery and Handlers are the code;
--                   Effects and Runs say what a call and a run can do, Buffers, Delivery, Gapless, Bounds,
--                   Reports and Rebuilt what holds of them.
--   Rtsp/Definitions, Rtsp/Headers
--                   rtsp_lib/include/rtsp_definitions.hpp and rtsp_lib/src/rtsp_headers.cpp.
--   Rtsp/Transport  the transport header's data, get_acceptable_transport of rtsp_lib/src/rtsp_methods.cpp, and
--                   the reading of the answer in rtsp_lib/src/rtsp_client.cpp. Grammar has the grammar
--                   and the generator of the header in rtsp_lib/include/rtsp_headers.hpp, Numbers an instance
--                   of their parameter; Parameters, ParameterList, Written and RoundTrip are what is
--                   read of what is written.
--   Rtsp/Options    the Require header and the option of the channel, in the same file.
--   Rtsp/Methods    rtsp_lib/src/rtsp_methods.cpp. Setup is the method SETUP; Refusals, Machine and Success
--                   are its theorems and the state machine of a session.
--   Rtsp/Text, Rtsp/Message
--                   rtsp_lib/include/rtsp_message.hpp: the character classes, and the grammars and generators.
--                   Headers, RoundTrip and Pipelined are the theorems, Text/Decimal an instance of the
--                   parameter for numbers.
--   Rtsp/Network    rtsp_lib/src/rtsp_server.cpp: the TCP connections and the datagrams. Exchange follows a
--                   request from its text to the text of the response.
--   Rtsp/Server     rtsp_lib/src/rtsp_server_internals.cpp. Sessions, Answers, Invariant, Timeout, Calls and
--                   Lifetime are its theorems.
--   Rtsp/Client     rtsp_lib/src/rtsp_client.cpp: requests, responses and the session of the client on an open
--                   socket. Responses has its theorems. Url is process_url, and Offer the settings of the
--                   client and the headers of its SETUP, as the grammars of the server read them.
--
-- Correspondence. An object is a record of its members, and an operation that changes it returns the
-- new record. Integers of w bits are natural numbers with the wrap-around written out. An exception, a
-- null dereference and an early return are values (Outcome, Result, Answer, Early), and so is what C++
-- leaves undefined. The server's maps are lists of their entries in the order of insertion; every
-- access to them holds the mutex, so a run is a sequence of calls. Members and functions keep the
-- names of the code.
--
-- Parameters. The code of Boost and of the operating system is not in the repository: Spirit stands
-- for the binary parsers, Numbers, HeaderNumbers and OptionNumbers for the parsers and generators of
-- numbers of the text grammars, uint_ for that of the sender, Platform for lower case, the file
-- system, the binding of a port and the header grammars as the methods call them, Environment for what
-- the client calls of these, and Draws for the numbers that the random engines give during a request.
-- The timer of the sender does what the documentation of Boost.Asio says: to set it or to cancel it
-- queues the handler of a pending wait with an error, and leaves a handler that is queued already.
-- What the simulated channel of the sender draws is an argument of its handler. An address, and the
-- bits of a double, are numbers that the code only hands on.
--
-- Fuel. The loop of handle_timeout_of_host runs on fuel, one round more than the host map has entries;
-- each round erases an entry, so there are no more rounds. The queue of a sender runs on rounds, which
-- its theorems count. The rules of header lines, header bodies, transport
-- specifications, their parameters and option tags run on fuel, as much as the text has characters, of
-- which each round takes one. Everything else is by structural recursion.
--
-- Not modelled: how long the destructor of a sender waits when a session is erased. delete_session is
-- the state once it has returned; when it returns is said of destroy, in Rtp/Sender. Further the
-- sockets and threads of rtsp_server.cpp, the connection of the client, logging, the graphical client,
-- and the main functions.
pub mod Common
pub mod Rtp
pub mod Rtsp
