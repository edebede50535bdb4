-- ===== src/Lib.antt =====
-- go-coap: message formats, options, block-wise codecs and connection logic of a CoAP library.
--
-- A message is a token, a code, options in the order of their numbers, and a payload. The coders of
-- udp/coder and tcp/coder put a header before the options and the payload; both use the same format
-- of options. The clients and servers above them decide by the functions of Net.
--
-- Message: message/. Defs has the options and the tables of the known ones (option.go and
--   tcpOptions.go), Marshal and Unmarshal the format (option.go, options.go), Wire the format of
--   RFC 7252 written down on its own, RoundTrip what is read from it, Reading what Unmarshal does on
--   any bytes. Search and Edit have findPosition, Find, Set, Add and Remove, Access the values by
--   type, Path SetPath and Path, Clone ResetOptionsTo and Clone (options.go), Uint32 EncodeUint32 and
--   DecodeUint32, Record the message and its ids.
-- Udp: Coder is udp/coder/coder.go, with the datagram of RFC 7252 in Coder/Layout. Retransmission is
--   the midElement of udp/client/conn.go and Retransmission/Checks the periodic check of it. Connection is the message layer of
--   udp/client/conn.go: message ids, the cache of responses and handleReq; Connection/Pending has the
--   messages that are being handled, Connection/Receiving Process up to the queue of messages,
--   Connection/Sending WriteMessage of a message that is not waited for, Connection/Repeats what a
--   repeated request gets.
-- Tcp: Coder is tcp/coder/coder.go; Frame has its header, RoundTrip whole frames, Layout the frame of
--   RFC 8323. Session is tcp/client/session.go: Session/Framing and Session/Taking are about one frame in the buffer,
--   Session/Chunks about how the stream is cut, Session/Delivery about a stream of written messages.
-- Mux: Router is mux/router.go, with Match and ServeCOAP; Router/Matching says which route Match takes.
-- Pool: message/pool/message.go, the message with the reader of its body, as its users see it.
--   Pool/Growth and Pool/SetPath have the buffer of values that its setters grow, Pool/Laws what is
--   read after a set, Pool/Fields the named options, Pool/Requests the set-up of requests,
--   Pool/Encoding MarshalWithEncoder, Pool/Decoding UnmarshalWithDecoder, which both sessions and
--   connections call.
-- Pkg: SyncMap is pkg/sync/map.go, Cache pkg/cache/cache.go, a map of elements that expire.
-- Blockwise: BlockOption is the codec of net/blockwise/blockwise.go, QBlock that of
--   net/blockwise/qblock/codec.go, with QBlock/Config for config.go and QBlock/Budget for the quotas
--   of budget.go, which many engines share. The engine of
--   net/blockwise/blockwise.go is in: Exchange, what it asks of a message; Engine, its state and what
--   it is given; Keys, the keys of transfers; Sending, createSendingMessage and
--   prepareSendingRequest; Limits, a received block with its ETag and its size; Receiving,
--   processReceivedMessage and what it calls; Handle, Handle, Do, handleReceivedMessage and
--   continueSendingMessage. Upload lets a client and a server run against each other:
--   prepareSendingRequest and continueSendingMessage on one side and processReceivedMessage on the
--   other.
-- Net: Sequence and Observation are net/observation, CriticalOptions net/client/criticalOptions.go,
--   KeepAlive net/monitor/inactivity/keepalive.go, Limit net/client/limitParallelRequests, with
--   Limit/Leaving for the requests that give up, Tokenless net/client/tokenlessHandler.go and
--   requestHandler.go.
-- Tests: runs on concrete values.
--
-- Bytes and numbers are native natural numbers with the wrap-around of Go's types written out; int is
-- taken as unbounded where it holds lengths. A []byte to write to is nil or a length, and what is
-- written is a list (Message/Writer). An error is a value of Fault. A slice that is edited in place
-- is the list of all cells of its array up to its length; growing it exposes a cell with unknown
-- contents (`stale`), and an index out of range is none, Go's panic. The capacity of Options is a
-- parameter of Unmarshal.
-- In the engine of block-wise transfers a call takes its locks and ends before the next begins. The
-- clock, the hashes (crc64 and fnv), the tokens that are drawn, the requests that the connection has
-- sent and the handler are parameters (Engine.Env). A body is the list of its bytes, none for a nil
-- reader, on which the panic is an error value. Messages with Q-Block options, which the engine of
-- Q-Block takes first, are left out of Handle, and the exponent is up to 7, as Handle requires.
-- A session and a connection call what is above them through a record of functions on a state of its
-- own (`Peer`), and the handler of requests is an argument; the theorems hold for every one. The
-- regular expressions of the router, the clock and the outcome of a write are arguments too. A step of
-- the quotas is one atomic change of one counter, and the steps of many engines come in any order.
-- Fuel: an upload is given a number of calls, and as many as the body has blocks are enough. The
-- loops over a path take a round for each byte and one more. The loop of Options.Unmarshal takes a
-- round for each byte of data, since every round reads one at least; so does walkMissingBlocks.
-- Running out is `stuck`, and the theorems show that it does not occur where they apply. The search
-- of findPosition has two rounds more than the slice has options, since every round narrows the
-- window; running out would be none, like a panic, and the theorems on sorted slices exclude both.
--
-- The loop over a session's buffer has a round for each of its bytes, since a message takes a byte at
-- least, that of seekBufferToNextMessage one for each byte to skip and one more; the loop of decode has a round for each byte of the data and one more, since the
-- places for options double from one on.
--
-- Not modelled: the senders and receivers of Q-Block and its bookkeeping in the connections, WriteMessage
-- of block-wise transfers, Do and Observe of the connections with the wait for an acknowledgement, the
-- loop over the queue of received messages, the patterns of the router, which rest on the regular
-- expressions of the Go library, sockets, servers and goroutines, and texts of errors. The order of
-- concurrent calls is the order of the steps.
pub mod Prelude
pub mod Message
pub mod Pkg
pub mod Pool
pub mod Blockwise
pub mod Udp
pub mod Tcp
pub mod Mux
pub mod Net
pub mod Tests
