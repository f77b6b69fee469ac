-- ===== src/Lib.antt =====
-- A verification library for the CoAP implementation of this repository.
--
-- The program is a server and client of the Constrained Application Protocol. A datagram is parsed
-- into a message; a received request passes the deduplication table, then the block cache, which
-- collects or cuts large payloads, and goes to the callback that the routes find for its path; a
-- response or an acknowledgement goes to the sender that waits for it. A sender takes its place
-- under the NSTART limit, is entered as pending and writes its message out.
--
-- The files and the code they model:
--   Base       what the files share: results of Go calls, lists, bytes, Go's maps as association
--              lists, signed integers
--   Options    message_options.go: the option table, encodeInt and decodeInt, toBytes and
--              parseOptionValue, the stable order
--   Message    message.go: the message and its accessors
--   Wire       message_parse.go: marshalBinary, headerSize and unmarshalBinary
--   Names      constants.go: the names of types, codes and media types, and codes as numbers; in
--              Names/Declared the constants
--   Block      blockwise.go and message.go: the block options
--   Cache      blockwise.go: the block cache, and getBlockKey of message.go
--   Dedup      dedup.go: the table of message ids
--   Nstart     nstart.go: the limit on open messages
--   Pending    handle_ack.go: delivery of acknowledgements and responses, and GetNextMsgId and the
--              channel receive of send.go
--   Route      route.go: the route tree
--   Send       send.go: send, with its retransmissions; in Send/Calm behind the
--              sends of a handler
--   Observe    observe.go: the table of observations, and blockRetreive of send.go; in
--              Observe/Remote, Observe and ObserveCancel over Send, and in Observe/Retrieval the
--              retrieval against a peer that serves the payload
--   Dispatch   handler_confirmable.go and handler_notify.go, and the switch of handleMessage
--   Transfer   handler.go: the stages of handleMessage for parts of payloads
--   Handler    handler.go: handleMessage; in Handler/Activity with the time and the DTLS peers, in
--              Handler/Notified behind Observe, in Handler/Retrieved for a
--              notification in blocks, in Handler/Calm with the messages that can be read and
--              written, and in Handler/Lifetime as a step of the server
--   Client     send.go: Send with its two block loops, against a peer that an interface describes,
--              and against the server of Handler
--   Listen     listen_udp.go, listen_dtls.go and listen_proxy.go: from the bytes of a datagram to
--              those of the reply, and, with send.go, who takes the bytes for an address; in
--              Listen/Readers the goroutines that read, and in Listen/Opening, with coap.go,
--              NewServer, Close and the accessors of the server; in Listen/Calm with datagrams
--              and rounds of the watchers in any order, over the writes of Listen/Writing
--   Errors     errors.go: the error that a response code stands for
--   Settings   coap.go and send_options.go: the settings of a server, the options of a Send, and
--              randomString
--   Log        log.go: which lines are logged at a level, and their text
--   Sniffer    sniffer.go: which callback gets a packet
--   Tests      runs of the definitions and of the theorems at concrete input
--
-- How code becomes definitions. A function keeps its name in snake case (`blockCacheAppend` is
-- `block_cache_append`). A method that changes its receiver takes the state and returns the new
-- one. A Go call has a `Result`: a value, an error, a panic, or, for a loop on fuel, `stuck`. A
-- function that can only panic returns an Option, with `none` for the panic. An `interface{}` value
-- of an option is a `Value`, with a constructor for each type that the code tells apart. Numbers are
-- natural numbers with the wrap-around of their width written out, and ℤ where the code has
-- negative ones. Times are numbers.
--
-- Fuel: `parse_options` recurses on fuel, and unmarshalBinary gives it the length of the input. Each
-- round of the loop takes at least one byte, so that is enough. The retransmission loop recurses on
-- the rounds that are left, and is `stuck` where the given events end before the loop. A round takes
-- one event, so as many events as rounds are enough. The loops of Send and of blockRetreive recurse
-- on fuel, one for each block, since a peer may keep them going for ever: as
-- many rounds as the payload has blocks are enough against a peer that keeps to the protocol.
--
-- Client and server together: Send works on any function that sends one message. One such function is
-- `Send.send`, with the network as a parameter; another takes each message to `handle_new` as a new
-- one, and its reply back, neither of them lost, doubled or changed on the way.
--
-- Concurrency: each modelled operation is one step, so sequences of operations stand for the
-- interleavings of whole operations. The code holds a mutex around its changes to the tables of
-- pending messages and to the counters of nstart.go. The tables of observations, of message ids and of
-- blocks are sync.Maps, of which only each single access is one step, and the routes have no lock at
-- all: what two runs of deduplicate, blockCacheAppend or AddRoute do at the same time is not modelled.
-- A wait on a condition variable is a step that is not enabled yet. In
-- Handler/Lifetime a server's messages and the rounds of its two watchers come in any order, and in
-- Listen/Readers so do the reads of a listener and its closing, and in Listen/Calm whole datagrams,
-- the watchers and the calls of the embedding program.
--
-- Not modelled: the sockets and the calls of the sniffer (input and output), the DTLS package (third
-- party), and the durations of timers. The callbacks of the embedding program are parameters, and so
-- are the third-party `ToStringArray`, which makes strings of option values and on which the cache key
-- rests, and `ToInt`, which reads numbers: that code is not in the repository.
pub mod Base
pub mod Options
pub mod Message
pub mod Wire
pub mod Block
pub mod Names
pub mod Cache
pub mod Dedup
pub mod Nstart
pub mod Pending
pub mod Route
pub mod Send
pub mod Observe
pub mod Dispatch
pub mod Transfer
pub mod Handler
pub mod Client
pub mod Listen
pub mod Errors
pub mod Settings
pub mod Log
pub mod Sniffer
mod Tests
