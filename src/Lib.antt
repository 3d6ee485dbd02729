-- ===== src/Lib.antt =====
-- A verification library for go-nsq, the Go client of the NSQ message queue.
--
-- The parts of the program and the files that model them:
--
-- Base.antt and Base/: numbers, lists and bytes. Go's int64 and int32 are integers with the wrap
-- written out (Base/Words: wrap64, wrap32, int64, int32, to_u64, to_u32), byte slices are lists of
-- numbers, binary.BigEndian is put_be and get_be (Base/Bytes), strconv is itoa and atoi
-- (Base/Decimal).
--
-- Io.antt: io.Writer as the two WriteTo methods use it. A writer accepts a number of bytes and then
-- returns an error; the running total and the error are part of its state.
--
-- Protocol.antt (protocol.go): ReadResponse, UnpackResponse, ReadUnpackedResponse, isValidName. A reader
-- is the bytes that still come and the error behind them. Protocol/Frames and Protocol/Reads
-- compare the functions with the layout of a frame, Protocol/Names the name check with its
-- regular expression. The state of the reader after an error is not modelled: the connection is
-- closed then.
--
-- Message.antt (message.go): Message, DecodeMessage, WriteTo, and Finish, Touch, Requeue with the calls
-- to the delegate as a list. Message/Codec and Message/Response hold the proofs.
--
-- Command.antt (command.go): every command and WriteTo. json.Marshal is an argument of identify.
-- Command/Wire, Command/Parse and Command/Batch read the bytes back as a daemon does.
--
-- Consumer.antt (consumer.go, conn.go) with Consumer/Conns, Consumer/Rdy, Consumer/Backoff and
-- Consumer/Joining: the consumer's RDY counts and backoff. The state is the record Consumer; a method
-- is a function on it, one at a time: each atomic operation and each critical section is exact, the
-- interleavings of two methods are not modelled. The map of connections is a list without order of
-- its own, and a range over the map follows the list. Each connection keeps the commands that
-- reached its socket. World holds what the machine decides: the clock, which writes fail, the
-- numbers drawn, and int64 of NaN. A failed write sets the connection's close flag, as OnIOError
-- does. The loops of redistributeRDY run on fuel, the number of candidates: each round takes one
-- candidate away (Consumer/Fuel). Quotients of float64 are quotients of integers: both numbers are
-- far below 2 ^ 53. The rest of the directory holds the proofs: Account, Bounds and Budget
-- for updateRDY, Loops for the loops over all connections, Redistribution, Levels, Quiet and
-- Resumption for backoff, Membership for connections that come and go, History for all of them in
-- any order, Sending, Told and Promise for what the nsqds were told. Consumer/Strategy has the default backoff strategy (config.go), Consumer/Jitter the other; the conversion of a number above 2 ^ 63 to int64 is an argument.
-- The record IsConn is the range of a connection's counts, Inv the account of a consumer; both take
-- max-in-flight to be a natural number below 2 ^ 31. Consumer/History has the events of a consumer as the
-- source allows them; the account needs them tame (IsTame there): max-in-flight is set to numbers from
-- 0 to 2 ^ 31 - 1, the counts of retries and the limits of new nsqds are not negative, and a connection
-- that closes is the one stored under its address, or has RDY 0 with none stored there. Outside of that the account breaks, as
-- ChangeMaxInFlight with -5 shows.
--
-- Creation.antt (consumer.go, producer.go, config.go): NewProducer and NewConsumer, which reads a configuration of Settings.antt into
-- the consumer of Consumer.antt. Creation/Limits has the limits of the settings that the backoff
-- reads, Creation/Held follows the consumer through any events.
--
-- Producer.antt (producer.go, states.go): the senders, the router, the clean-up and close as a step
-- relation, one step for what a goroutine does between two points where another can act. The
-- mutex is held while the field dialling is set. connect stores the state in one step and starts the
-- router in the next; make(closeChan) and wg.Add belong to the latter, since closeChan is only read by
-- the router and under the mutex, and a goroutine of close that finds the wait group at zero is the
-- step reset. A connection that fails between the two steps can leave a router running with the state
-- init; the second router that a further connect would start is not modelled, so connect begins only
-- when no router runs. A response with no transaction panics, so there is no such step. Producer/Calls has the publishing methods and what sendCommand returns, which is
-- read off the state. Producer/Order has the order of the answers, Producer/Attendance and
-- Producer/Senders what a blocked sender can count on, Producer/Places where each call is, Producer/Growth, Producer/Returns and
-- Producer/Publishing what a synchronous call returns.
--
-- Conn.antt (conn.go): readLoop, writeLoop, cleanup, waitForCleanup and Close as a step relation, with
-- the calls of the delegate and the commands written as a list of events. The bytes of a frame and
-- the failures of reads and writes are arguments of the steps. A message that is handed on is
-- outstanding until its response leaves msgResponseChan; the message module has that it sends one
-- at most. cleanup reads the count in one step and readLoopRunning in the next; the field late_read
-- records that the read loop handed on a message in between. Conn/Closing holds the proof.
--
-- Delegates.antt (delegates.go, consumer.go): what the events of Conn.antt call on the consumer and on
-- the producer, and the counters of Stats. Delegates/Traffic puts Consumer.antt and any number of
-- connections of Conn.antt together: each takes its steps, and the consumer hears what they call.
-- The connection that calls onConnClose is taken to be the one that the consumer has stored under its
-- address. Delegates/Counting counts on one connection, Delegates/Hearing and Delegates/Reporting on all.
--
-- Whole.antt (consumer.go): Consumer.antt, Lookup.antt and Handlers.antt side by side. Each has the map of
-- connections and the stop flag as far as it reads them; the end of ConnectToNSQD, onConnClose and Stop
-- change all three at once. Whole/Parts and Whole/Agreement hold the proofs.
--
-- Logging.antt (delegates.go, consumer.go, producer.go, conn.go): the loggers of a consumer, of a producer
-- and of a connection, the setters, and which logger a message goes to. A logger is a number, nil is
-- none, and an index out of range gives none. Logging/Handing follows them into a connection.
--
-- Handlers.antt (consumer.go): what handlerLoop does with one message, and AddConcurrentHandlers, Stop,
-- onConnClose, exit, rdyLoop and lookupdLoop as a step relation on the goroutines and the channels that
-- end them. When a timer fires is an argument of the steps. What the
-- handler itself does is an argument: the methods that LogFailedMessage and HandleMessage call on the
-- message, and whether the latter returns an error.
-- Handlers/Verdict compares the loop with the answer it should give, Handlers/Loops and Handlers/Ending have the steps.
--
-- Settings.antt (config.go, config_flag.go): NewConfig, Set, Validate and the flag. Settings/Values has
-- the values and their coercions, Settings/Slots the fields of the struct with their tags, as
-- reflection shows them, and the checks, Settings/Options the options by name, with those of TLS.
-- A configuration is the list of its fields; a panic is an outcome of its own. Floats, durations,
-- addresses, files and certificates are functions of the record Library. The backoff strategies of a
-- configuration are names; Creation.antt gives them their functions.
-- Settings/Ranges, Settings/Setters, Settings/Frame and Settings/Valid hold the proofs.
--
-- Handshake.antt and Handshake/Linking (conn.go): Connect, identify, auth and the three upgrades on a connection that was
-- dialled. What nsqd sends is a Reader of the protocol module, read with its functions; JSON, TLS and
-- the compressions are functions of the record Library, a layer being what it makes of the reader. Each
-- compression stands on the reader of the socket or of TLS, as upgradeDeflate and upgradeSnappy do;
-- what flate leaves of that reader is a function of Library too.
-- The connection keeps what was sent and on which stream; a number of writes succeed and the next
-- fails. Handshake/Outcomes, Handshake/Upgrades and Handshake/Agreement hold the proofs.
--
-- Lookup.antt (consumer.go, api_request.go): the addresses of nsqds and nsqlookupds and the keys of the
-- two maps of connections. A method is a function; what Connect and the write of SUB come to is an
-- argument, as are the answers of the nsqlookupds, the delegate's filter and net/url.
-- ConnectToNSQD is cut where it lets go of the lock, and Lookup/Steps has the steps of all methods in
-- any order. Lookup/Endpoints has nextLookupdEndpoint and queryLookupd, Lookup/Request
-- apiRequestNegotiateV1 after the request, and buildLookupAddr. Its three tries are the bound of the
-- source, not fuel. Lookup/Removal, Lookup/Book,
-- Lookup/Rounds and Lookup/Queries hold the proofs.
--
-- Not modelled: the TLS and compression libraries, the HTTP transport, how long timers take, a consumer
-- with the jitter strategy draw by draw, the text of log messages, and a second router of
-- one producer.
pub mod Base
pub mod Io
pub mod Protocol
pub mod Message
pub mod Command
pub mod Consumer
pub mod Conn
pub mod Creation
pub mod Delegates
pub mod Handlers
pub mod Handshake
pub mod Logging
pub mod Lookup
pub mod Producer
pub mod Settings
pub mod Whole
