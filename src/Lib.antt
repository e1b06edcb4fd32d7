-- ===== src/Lib.antt =====
-- Verification of the QC Bridge firmware: the C++ of firmware/app/src, which talks to a Quad Cortex Mini
-- over USB HID, lists the presets of the unit and hands the listing to its transports.
--
-- The program's parts, in the order in which a message passes them, and the modules that model them:
--   * Hid: HID reports of 129 bytes. Hid/Report has the constants and flags, Hid/Chunker is HidChunker of
--     HidChunker.hpp, Hid/Reassembler is HidReassembler of HidReassembler.hpp. Framing, RoundTrip, Bounds
--     and Strays prove.
--   * Proto: the protobuf wire format of QcProtobuf.hpp. Proto/Writer has its writers, Proto/Reader is
--     ProtoFieldReader. Varint, Fields and RoundTrip prove.
--   * Message: the trailer of eight bytes, encodeMessage and decodeMessage of QcMessage.hpp.
--   * Messages: what is sent and received in these messages. Messages/Requests has the builders of
--     QcHandshakeMessages.hpp, QcFileRequest.hpp and QcStateReads.hpp, Messages/Replies has
--     decodeVersionReply, decodeModelRepo and decodeSetlistPosition, Messages/File is decodeFile of
--     QcFileMessage.hpp. Sizes, LastField, Decode and Listing prove.
--   * Gzip: hasMagic, crc32, inflate and peekDecompressedSize of QcGzip.hpp.
--   * Mailbox: the slot of QcDispatcher.hpp and QcGzipInflater.hpp between the usbh thread and a worker.
--   * FileStream: QcFileStream of QcFileStream.hpp, the stream of File messages after a File READ.
--   * Catalog: QcPresetCatalog of QcPresetCatalog.hpp; Catalog/Snapshot is QcCatalogSnapshot.hpp.
--   * Tally: QcMessageTally of QcMessageTally.hpp.
--   * Json: encodeCatalogJson of QcCatalogJson.hpp, the text that a transport serves. Append, Rendering,
--     Parts, Document and Strings prove.
--   * Session: QcSession of QcSession.hpp, which joins them. Session itself has handleMessage, onMessage,
--     onInflateFailed and the counters, Session/Workers a round of each worker's run, Session/Bridge the
--     onReportIn and feedReport of QcHidBridge.hpp, Session/Handshake runHandshake and sendMessage,
--     Session/Settle waitForInTrafficToSettle, Session/Stream the start and the end of the File stream and
--     what runHeartbeat publishes. Transfers, Shift, Routing, Listing and Script prove.
--     Session/Races the Version READ and what the threads see of each other, Session/Device the members
--     that drive the printer, the transports and the threads, with a whole round of runHeartbeat.
--     Session/Arrivals and Session/Published join the parts from the reports to what is served.
--   * Web: QcWifiWebTransport of QcWifiWebTransport.hpp, the transport that serves the listing. Web itself
--     has its operations, Web/Threads its worker among the other threads, Web/Station onWifiEvent and
--     Web/AccessPoint the start of the network. Effects, Listing, Clients and LastChange prove.
--   * Printer: QcPresetPrinter of QcPresetPrinter.hpp. Extends, Growth and Listing prove.
--   * Usb: the USB host class of usbh_shim.c and UsbHostClass.hpp, below the bridge: Usb itself the claim
--     of the device and the receive loop, Usb/Send the start and what is sent. Endpoints, Receive, Delivery
--     and Claim prove.
--   * Prelude: names, lists, bytes and bits that all of them share.
--
-- How the code is read:
--   * An object is a record of its members, a method a function from the record to the record. A vector or
--     span is a list, a byte or character a number below 256, `nullptr` and `nullopt` are `none`.
--   * Numbers are natural numbers; a counter of w bits is taken modulo 2^w where it is changed. `size_t`
--     has 32 bits, as on the boards. Times are milliseconds since boot and arguments of the operations.
--   * A ProtoFieldReader is the list of the bytes it has not read. A loop over `next` runs over the list
--     `all_fields`, whose fuel is the number of bytes: each field takes one at least. The chunker's loop has
--     the message's length and one round as fuel: each round but the last takes 126 bytes. `writeVarint`
--     recurses on the value, which shrinks, and the other loops on lists.
--   * A mutex makes the block that it guards one step. The two threads at a mailbox are interleaved as a
--     list of events, in any order; those at the web transport are a step relation, Web.Threads.Step, in
--     which every thread may be between any two of its blocks, and between a block and the semaphore that
--     it gives behind it; the printer's blocks have lists of operations
--     on the catalog between them. A semaphore of limit 1 is a Boolean; to wait is to answer `none`.
--   * The printer's log lines and the calls of Zephyr's network API are the output of their functions. The
--     loops of the worker and of the heartbeat have no end, and the model has one round of each.
--   * A round of the heartbeat runs without another thread at the session in between. The two blocks of
--     logFileStreamSummary are also there one by one, with what others do before each of them, in
--     Session.Stream.log_summary_among; Session/Races has a start of a stream that comes before both.
--
-- What is not in firmware/app/src is a parameter. The assignment of etl::string is a record EtlString: what
-- fits is kept, and the result fits. tinfl_decompress of miniz is a record Tinfl: it reads no more than
-- there is and writes no more than there is room for. What sendReport returns, whether a message of the
-- handshake is sent, the samples of the polls, and what Zephyr's USB, socket and network calls answer are
-- arguments; of Zephyr's USB stack the shim's state counts the transfers that are queued and the buffers
-- that are allocated.
--
-- Not modelled: the page's text, the tables of Zephyr's macros and the log summaries of
-- QcWifiWebTransport.hpp; the port registers of usbh_shim.c under CONFIG_QC_USBH_FORCE_FULL_SPEED;
-- Main.cpp, which only starts the parts; ScopedKMutex.hpp; thread creation and logging.
pub mod Prelude
pub mod Hid
pub mod Proto
pub mod Message
pub mod Messages
pub mod FileStream
pub mod Catalog
pub mod Gzip
pub mod Mailbox
pub mod Tally
pub mod Session
pub mod Json
pub mod Web
pub mod Printer
pub mod Usb
