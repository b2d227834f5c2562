-- ===== src/Lib.antt =====
-- go-ipc: shared-memory interprocess communication. Messages go through a lock-free ring of
-- variable-length records that several producer processes fill and one consumer process reads.
--
-- Parts and files. Ring (ring.go): Ring.antt has the control block (`ringHeader`), the claim
-- slots and the data region as one record `Ring`, and the accessors. Ring/Layout has `initRing`
-- and `AttachRing`; Ring/Producer has `hasRoom`, `tryClaim`, `Commit`, `Abort`, `tryWrite`;
-- Ring/Reader has `ReadFunc` (`read`) and `TryRecv`. Ring/Recovery (recover.go and `unstall` of
-- queue_peer.go) has what the consumer does about a claim of a dead producer and how producers
-- share claim slots; Ring/Handles has `takeSlot` and `putSlot`. Memory has the data region as a
-- byte at every index, with int32 loads and stores in it. Words has the machine arithmetic of
-- uint64 and int32 with its wrap-around. Errors has the errors of ipc.go.
--
-- Conn.antt (conn.go) is the byte stream over a channel, which is a parameter; Conn/Stream and
-- Conn/Pipe say what its writes send and what its reads make of it. Deadline.antt (deadline.go)
-- is one direction's deadline. Schema.antt (ipcgen/internal/schema/schema.go and check.go) has
-- the field types of the code generator and the pass that lays a message out; Schema/Placement
-- says what a layout promises.
--
-- Proofs. Ring/Records says what a ring holds: a list of records (a range without a header, an
-- open claim, one whose payload is written, a message, padding) that lie one behind the other
-- from head to tail, and the invariant `IsRing`. Ring/Replace, Ring/Stores and Ring/Steps show
-- each single store of the code as a change of one record of that list; Ring/Claims and
-- Ring/Publish compose them for the producers, Ring/Consume and Ring/Reading for the reader,
-- Ring/History for sequences of calls. Ring/Race has the code of `tryClaim`, `Commit`, `Abort`
-- and `Read` once more, as steps of many producers and one reader between their atomic
-- operations, in any order; Ring/Race/Invariant is what every step keeps, with the ring from
-- where the reader stands and an owner of every open record. There the claims have no slots, and
-- the plain writes of a process between two atomic operations are one step: a reader tests a
-- record by its length alone, which is written last. `Move` has the checks of `tryClaim` and no
-- others; the theorems are about rings of less than 2 ^ 32 - 8 bytes, where no length that passes
-- them makes `align` overflow. Ring/Race/Ranges says which bytes of the data region a producer
-- has. Ring/Tests applies the theorems at concrete rings.
--
-- Bounds and fuel. Cursors are uint64 as in the code; theorems about claims ask that the tail
-- stays below 2 ^ 64. `cursor & mask` is `cursor % capacity`, since the capacity is a power of
-- two. The sum of index and step in `Read` wraps as in the code, and a `Read` whose slice then
-- ends before it starts is a panic, which does not return. The loop of `Read` runs on fuel,
-- available / 8 + 2 rounds, as every record takes eight bytes or more. The loop of `tryClaim`
-- gets one pass, which is enough while no other process moves the cursors; `claim_pass` takes its
-- loads as arguments, so that a pass with stale loads is in the model. `Read` of a Conn runs on
-- fuel, since empty messages keep it going; the messages in the channel and two rounds are
-- enough. `Write` gets one round more than it has bytes. `isDead` and the operating system are
-- parameters.
--
-- Schema/Lexer and Schema/Parser (ipcgen/internal/schema/parse.go) read a schema from its bytes;
-- Schema/Printer writes one as tokens, to compare the parser with, and Schema/RoundTrip,
-- Schema/Fuel and Schema/Total prove it. They run on fuel, one round more than there are bytes or
-- tokens. Schema/Check and Schema/Cycles (check.go) resolve the references of what was parsed,
-- find the messages that contain themselves and order the others; Schema/Enclosed says which
-- message is in which; Schema/Checked joins them to the layout. Schema/Names (check.go and
-- names.go) is the pass over the names, for any lists of reserved words, and Schema/Words has the
-- lists; Schema/Named and Schema/Unclashed say what it accepts. `visit` gets fuel for a stack of
-- all messages.
--
-- Codec.antt (ipcgen/internal/refcodec/refcodec.go) is the reference codec: Codec/Encode and
-- Codec/Decode, over messages as trees, which `Check` makes by setting the pointers of
-- references. Package strconv, utf8 and hex are a parameter, `Std`, and no theorem asks anything
-- of it. Codec/Placed says how the fields lie, Codec/Puts what `put` writes, Codec/Typing which
-- JSON values a message has.
--
-- EventSock.antt (event_sock.go) is the server that hands the tokens of an event to its clients;
-- EventSock/Tokens counts them.
--
-- Gate.antt (queue.go) is the gate of `enter`, `leave` and `Close` as single atomic actions,
-- whose lists are interleavings.
--
-- Queue.antt (queue.go and queue_peer.go) is the queue over the ring as one process holds it:
-- Queue/Peer has the watches of the receiver and of the producers, Queue/Park the loop of `park`
-- over any state, Queue/Send and Queue/Receive the operations, Queue/Closing `Close`. Queue/View
-- is the abstract queue, a list of messages, which Queue/Refines and Queue/Drains compare them
-- with. `isDead`, `onExit` and `receiverUnlinked` are parameters, and so is the wait, with
-- whatever other processes do meanwhile; `park` and the loop of `receive` run on fuel, and
-- Queue/Rounds says how much of it `park` takes. Queue/Wakeup has `park` and `wakeReceiver` as
-- single atomic steps of one receiver and any number of senders, with the records of the ring as
-- the receiver sees them, where an open claim blocks those behind it.
--
-- Channel.antt (channel.go) is two queues and their directions: the open, a send, a receive,
-- which asks the other queue for the end of the peer, and the close; Channel/Closed joins them.
--
-- Service.antt (service.go) is the service layer: the frame of a request and `answer`;
-- Service/Client has `Call` over what arrives on the channel, and the channel as the messages on
-- their way, where a reply whose send fails closes the session; Service/Sessions has `adopt`,
-- `run`, `serve`, `forget` and `Close`; Service/Typed has the typed handler and `CallTyped`. The
-- handler, the generated codecs and the channels are parameters; a client's channel keeps the
-- order of its messages.
--
-- Not modelled: the kernel waits of event_unix.go and event_windows.go, the clients of
-- event_sock.go, the creation and the opening of queues by name, `CreateChannel`, the sockets of
-- identity.go, the segments of go-shm, the file names and locks, the ports to C, C++ and Python,
-- and the text that ipcgen writes.
pub mod Prelude
pub mod Words
pub mod Errors
pub mod Memory
pub mod Ring
pub mod Codec
pub mod Conn
pub mod Schema
pub mod Deadline
pub mod EventSock
pub mod Gate
pub mod Queue
pub mod Service
pub mod Channel
