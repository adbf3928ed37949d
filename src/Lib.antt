-- ===== src/Lib.antt =====
-- go-dnp3: a DNP3 (IEEE 1815) protocol library. A master and an outstation exchange application
-- fragments; the transport function cuts a fragment into segments of at most 250 octets, and the link
-- layer carries each segment in a frame with checksums, with or without confirmation. Received octets
-- go the other way: parser, secondary or primary station, reassembler, application.
--
-- Which file models which part (paths from the repository's root):
--   Link/Crc            internal/link/crc.go: buildCRCTable, CRC, crcBitwise, CRCValid, appendCRC
--   Link/Address        internal/link/frame.go: IsBroadcast, IsReserved, IsValidSource
--   Link/Frame          internal/link/frame.go: Control, Header, Encode, DecodeHeader, Decode
--   Link/Parser         internal/link/parser.go: Write, Next, resync, slide, the inner loop of Drain
--   Link/Secondary      internal/link/secondary.go: OnFrame and what it calls
--   Link/Primary        internal/link/primary.go: Send, RequestLinkStatus, OnFrame, OnTimeout, Reset
--   Link/Exchange       the two stations joined by a line that loses frames; a step relation, in which
--                       the response timer runs out only when nothing is on the line
--   Transport/Header    internal/transport/transport.go: Header
--   Transport/Segmenter internal/transport/transport.go: Segmenter, SegmentsFor
--   Transport/Reassembler  internal/transport/transport.go: Reassembler
--   App/FuncCode        internal/app/funccode.go: the constants and the classes of codes
--   App/Iin             internal/app/iin.go: the internal indications
--   App/Header          internal/app/header.go: Control, ParseHeader, AppendHeader
--   App/Qualifier       internal/app/qualifier.go: Qualifier, IndexPrefix, RangeSpec, parseRange, appendRange
--   App/Errors          internal/app/header.go and the files beside it: the errors
--   App/Object          internal/app/objheader.go: ParseObjectHeader, AppendObjectHeader, objectDataLen
--   App/Fragment        internal/app/fragment.go: ParseFragment, Builder, BuildRequest, BuildResponse
--   App/FreeFormat      internal/app/freeformat.go: FreeFormat, FreeFormatObjects
--   App/Sizes           internal/app/sizes.go: SpecSizer
--   Stack               internal/stack/stack.go: Config, New, Reset, Busy
--   Stack/Sending       internal/stack/stack.go: Send, SendTo, pump, OnTimeout, SendLinkStatusRequest
--   Stack/Receiving     internal/stack/stack.go: Receive, drain, deliver
--   Outstation/EventBuffer  outstation/eventbuffer.go: EventBuffer, every method
--   Outstation/Command  outstation/command.go: selection, onSelect, onCommand, executeCommands; the
--                       status and the control code of types.go
--   Outstation/Unsolicited  outstation/unsolicited.go: pollUnsolicited and what it calls, onUnsolicitedConfirm
--   Outstation/Solicited  outstation/session.go: the series of a response, its confirmations, currentIIN
--   Outstation/Solicited/Requests  outstation/session.go: handle and the functions it calls
--   Outstation/Solicited/Serve     outstation/session.go: the events of serve, the timers, resumeDeferredRead
--   Master/Task         master/task.go: task, the task constructors and their requests
--   Master/Scheduler    master/task.go: scheduler, every method
--   Master/Session      master/session.go: Session, completeTask, startupSequence and their helpers
--   Master/Session/Sending    master/session.go: sendTask, runDueTask, the timeouts, the keep-alive
--   Master/Session/Receiving  master/session.go: onSolicited, onUnsolicited, observeIIN, deliver
--   Master/Session/Events     master/session.go: onFragment and the events of Run and serve
--   Exchange            the outstation's response read by the master
--   Multidrop/Arbiter   multidrop/arbiter.go: arbiter, every method
-- A solicited response goes from Outstation/Solicited to Master/Session by way of the stack, which both take
-- as an argument. Common holds the Boolean tests, the lists measured by native numbers, octets and results, and the
-- laws of bits and of exclusive or. Below a component, the files named for a property hold its proofs
-- and Tests the concrete runs, on the data that Samples holds for several of them.
--
-- How the code corresponds. An octet is a number below 256 and a uint16 one below 65536, and what
-- wraps in the source has `%` written out. A slice is a list. A method is a function from the receiver's
-- record to the new record and what is returned. An error is a constructor of the model's error type
-- with the values the message carries. The counters of the statistics do not wrap. A time is a number, and each
-- event of a session reads the clock once. What a master tells its handler and its callers is kept in
-- order in the session. Text for people
-- (String, Name) is left out.
--
-- Loops are on fuel where they are not structural. Encode and Decode take a round for each payload
-- octet, more than there are blocks; the parser's Next takes a pass for each octet held and one more,
-- as each pass but the last takes an octet; SegmentAll takes a round for each segment and one that
-- finds none left. ParseFragment takes a pass for each octet and one more, as does the reader of free
-- format; the stack's pump takes a pass for each segment and two more, its drain one for each octet
-- held and one more, and Receive one for each octet; the search for the events that fit takes a round
-- for each event. Where a result below speaks of what a loop returns, it shows that the fuel is enough.
--
-- Code outside the modelled part is an argument: the sizer of objects, the tables it is generated from,
-- the writer that frames go to and the function that fragments are reported to; for controls, the
-- command handler, the points, the clock, the response and the codecs of the object library; for
-- unsolicited reporting, the builder of responses, the indications and the stack; for requests, the
-- handlers of the function codes, which work on the record Device alone, and the stack; for the master,
-- the stack and the closures of the tasks that other files construct.
--
-- Not modelled: the outstation's request handlers with its database and files, the master's file
-- transfers and chained requests, secure authentication, which is taken to be off, the bus and the
-- registry of multidrop, and the object library, which remain to be done; sockets, serial ports, the
-- timers and goroutines themselves, the command-line programs, the conformance harness and the code
-- generator, which are input and output or tools.
mod Common
pub mod Link
pub mod Transport
pub mod App
pub mod Stack
pub mod Outstation
pub mod Master
pub mod Exchange
pub mod Multidrop
