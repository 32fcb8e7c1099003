-- ===== src/Lib.antt =====
-- A verification library of otelcol-exporter-netflow, an exporter of flow records in NetFlow v5,
-- NetFlow v9 and IPFIX.
--
-- The program. A request of log records is normalized and mapped to wire records
-- (internal/normalize, internal/mapping). A destination (internal/destination) packs them into
-- datagrams within the limits of the wire contract (internal/wire), keeps the protocol's sequence
-- numbers and templates, hands each datagram to the transport (internal/transport), and keeps a
-- ledger that says of every source record whether it was delivered.
--
-- The development.
--   Common        shared names: numbers are the native ℕ, Go's (value, error) is Result.
--   Wire          internal/wire: the contract (model.go, contract.go, stream.go), which is values,
--                 descriptors, shapes, set sizes, header checks and Preflight; the cursor
--                 (internal/cursor/cursor.go); and the writers netflow5, netflow9 and ipfix. Errors
--                 come in the order of the code. A Go string or byte slice is a list of bytes.
--   Destination   internal/destination: WriteClass is ClassifyWrite, Config the state's configuration
--                 and its validation, Ledger the source ledger (ledger.go), State the protocol
--                 state machine (state.go, epoch.go, write.go).
--
-- The writers. A Cursor has the slice and the offset of the Go struct, and each of its methods is a
-- function from the cursor to the cursor and an optional error. The writers drop that error, so what
-- they do is a Put, a function on cursors, and their bodies are sequences of Puts (the Emit modules).
-- Write and the dataPacketAppender of the three packages are the same code up to what each package
-- supplies, so Wire/Stream states that code once over a Format, and Netflow5, Netflow9 and Ipfix give
-- their Formats. The buffer that the caller and the appender share is a field of the appender's state.
-- A loop over the fields of a shape is a recursion over the list of its descriptors with the index of
-- the value, so nothing runs on fuel. Wire/Stream/Layout describes a message as a list of bytes, with
-- what a Format has to satisfy; Slice, Packet, Finish, Accepted and Equivalence are about Formats that
-- do, and the Messages and Writer modules are about the three that the program has. Encode has what
-- the packages do with a value, with the widths of its bytes in Encode/Bytes and Encode/Fields;
-- Widths/Facts reads the checks of a descriptor backwards. Cursor/Written is what a writer has left
-- between two offsets of the buffer, and Preflight/Measured takes the length of a message apart. netip.Addr, encoding/binary and Go's
-- conversions of numbers are the standard library's and the language's, and are written out.
--
-- The ledger. SourceLedger has the fields of the Go struct. Each method is a function from the
-- ledger to the ledger behind the call and an optional error (add_source_reason is
-- addSourceReason, add_pending is addPending, resolve_packet is resolvePacket, and so on).
-- Ledger/Store is the packed store of two bits for each ordinal. The loops of invalidGap and
-- markPending run for end - start rounds, which is the number of iterations in the code, so no
-- fuel can run out. Additions and subtractions on the 64-bit counters wrap around as written
-- (add64, sub64).
--
-- Ledger/Invariant states what holds between two calls, in terms of Ledger/Tally (the counters
-- count the classifications) and Ledger/Window (the active packet and the floor); Sources, Packets
-- and Resolve are about the methods; History runs any sequence of calls from a new ledger;
-- Reasons names the cell of the histogram that counts a reason; Lifecycle and Halt follow a single
-- record and a stopped ledger through such a sequence. Runs holds the concrete examples.
--
-- The state machine. State has the fields of the Go struct but the mutex and the compiled mapping;
-- the catalog is the list of its shapes. A packet is a value that names its state, its epoch and
-- its token; the pending packet of the state is the copy that the code mutates. State/Begin is
-- BeginTemplate and BeginData over beginPacket, with its checks in the order of the code;
-- State/Commit is Encode, Commit, Abort, Restart and AbortBootstrap; State/Stream is
-- BeginDataStream, Append and Finish of write.go. The protocol's pure writer is an argument of
-- encode, and the streaming appender an argument (Appender), with any carrier and no assumption;
-- its errors are those of the wire contract. Counters wrap around as written (2^32, 2^8 for the
-- template round, 2^64 for tokens and epochs). State/Wall, Marks, Rounds, Bootstrap, Outcome,
-- Data, Rollback, Room and Filling are about the reservation of time, the refresh triggers, the
-- template rounds, the write results, the reservations of data and the records of a stream. A bootstrap takes initial_copies times
-- the number of shapes of commits, which are a list of packets, so nothing runs on fuel.
--
-- Not modelled. NewState, the nil receivers of the ledger's methods, the read-only copies that
-- repeat a field, sockets, goroutines, locks and timers, the collector framework, and the parts of
-- the exporter outside the files named above.
pub mod Common
pub mod Wire
pub mod Destination
