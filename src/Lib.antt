-- ===== src/Lib.antt =====
-- sofa-bolt-go: the wire protocol, the clients and the server of SOFA BOLT, in Go.
--
-- The program's core is a codec for commands (sofabolt/command.go), whose headers are a map with a
-- wire form of its own (sofabolt/simplemap), and a client (sofabolt/client.go) that numbers the
-- requests, writes them, and gives each response that its read loop decodes to the caller that
-- waits under that number; a second client (sofabolt/clinetconn.go and sofabolt/protocol/bolt); and
-- a server (sofabolt/server.go), which gives each request that it reads to a handler with a writer
-- for the response (sofabolt/response_writer.go). The library models these, from the cursor over a
-- slice up to interleaved runs of a client.
--
-- Base: bytes as native numbers, big-endian words, lists cut by native numbers, Boolean tests.
-- Buffer: sofabolt/simplemap/buffer/buffer.go, with one function per method. A method that panics
--   returns none. `spare` is the backing array behind the slice, which slicing may reach.
-- SimpleMap: sofabolt/simplemap/fastsimplemap/fast_simplemap.go. `set` is `set` and `Set`, `get` is
--   `get` and `Get`; `Range` is the list of what it visits. Its modules: Entries is the wire form
--   of what `range` lists, Parse a reference parser for it, Encode and Decode relate the code to
--   these, Invariant and Parsed have well-formed maps, Rebuild and RoundTrip the way back, Lookup
--   the map laws, Removal has `Del`, and Fuzz is the fuzz target of fuzz.go beside it.
--   SimpleMap.Store is the same map with the arrays of its slots, which `append` writes in place or
--   moves: Writing is about one slice, Sharing, SlotWriting and Putting about which slots share
--   arrays, Refines about `Set`, Deleting about `Del` and `Reset`, Copying about `CopyTo`, Decoding
--   about `Decode`, and Operations about runs of these. SimpleMap itself is about maps whose slots
--   have arrays of their own, as they have while no key is deleted but the last one.
-- Checksum: hash/crc32 with the IEEE polynomial.
-- ReadHelper: the helper package for reading, which is not part of the repository. It is a
--   parameter, and `IsDocumented` says what the codec relies on: a full read delivers the bytes
--   asked for, a short one fails, and an allocation has the length asked for.
-- Command: sofabolt/command.go. Command.Write has `WriteCommand` and its writers, Command.Read has
--   `ReadCommand` and its readers over a monad that keeps what a failing reader filled in. Wire
--   draws the layouts, Write.Layout relates the writers to them, RoundTrip and its modules the
--   readers, Size has `Size` and `CopyTo`, and Total is about the readers on any input.
-- Request, Response: sofabolt/request.go and sofabolt/response.go, where they add to the command.
--   The `Reset` of the object is a parameter. Request.Reading has `Read` of both, with the decoder
--   of the object as a parameter, and Carried the way of a request with its object.
-- Client: sofabolt/client.go and sofabolt/invoke_context.go. The table of pending requests is
--   Client.Table. The read loop (`doread`) and the callers (`invoke` of Client.Invoke) move in
--   steps, each of which touches shared state once; `Run` is any interleaving of them. A choice or
--   an input stands for the connection, the timer and the dialer. Invariant has what holds between
--   steps, Entries, Preserve and Steps that it lasts, and Safety what follows of it. Heartbeat has
--   `doheartbeat`. Pooled is a client whose contexts are used again from the pool of
--   sofabolt/syncpool.go, for which Settled and Returning show that a caller that returns leaves no
--   entry behind.
-- ClientConn: sofabolt/clinetconn.go and sofabolt/clientconnstatus.go. `doread` runs on rounds of
--   reads and redials, which are inputs; so is where a `Close` falls. Status and Changes are about
--   the changes of status, Redialing and Ending about the end of the loop.
-- ClientConnBolt: sofabolt/protocol/bolt/clientx_bolt.go, a client over a ClientConn, with the
--   table and the contexts of Client. Callers and dispatches move in steps, as in Client. Invariant
--   has what holds between steps, Preserve, Steps and Dispatch that it lasts, and Safety what
--   follows. Its counter has 64 bits, and Safety is about runs in which it does not wrap. Credit,
--   Once and Told count what an invocation may still be told. In these each call has a context of
--   its own; Pooled has the contexts that `DoTimeout` takes from the pool and puts back, for which
--   Settled and Returning show that a caller that returns leaves no entry behind.
-- ResponseWriter: sofabolt/response_writer.go. `accept` is the io.Writer behind it, and `out` what
--   it was given. Once is about a second write.
-- ClientResponseWriter: sofabolt/client_response_wirter.go, the writer for a client's handler, and
--   in Answers what its first write does.
-- Conn: the wrappers of sofabolt/conn/errorconn, metricconn and asyncwriteconn as connections over
--   a connection, and in Conn.Delay those of sofabolt/conn/delayconn. Bytewise is about the writes
--   of single bytes.
-- Recycling: the pools of requests and of responses in sofabolt/syncpool.go, and in Anew what an
--   object holds that was used before, without the slots behind those of its header map. Those of
--   contexts are in Client.Pooled and ClientConnBolt.Pooled.
-- StateConn: sofabolt/conn/stateconn. Packed is about the word of state and time.
-- Server: sofabolt/server.go. A handler is the list of what it does with its response writer.
--   `serve_loop` is the loop of `serveConn` over what its reads end in, with the hooks that run
--   before the connection is read and the flushes. Responses, Answers and TakenOver are about one
--   request, Hooks, Session, Turns and Loop about the loop, Flush about `flushWrite`.
--   Server.Closing has the tracked connections, `closeConns` and `Shutdown`, Server.Accept the loop
--   of `Serve`, and Server.Serving the workers in `ServeConn`, with the pool of StateConns and no
--   `closeConns` beside them.
-- Pool, KeepAliver: sofabolt/pool.go and sofabolt/keepaliver.go, where clients for an address are
--   kept, taken in turn, and put aside when they are worn out. KeepAliver.Taking is about both, and
--   KeepAliver.Cleanup has the ticks of `doCleanup`, KeepAliver.Heartbeat the check of a pool by
--   `doHeartbeat`, and KeepAliver.Schemes the pools of both schemes.
-- Tests: a concrete reader helper, and the theorems at concrete inputs.
--
-- Numbers are natural numbers; every write of a w-bit field reduces it, and hypotheses name the
-- widths where the types of the source do. `decode` runs on fuel, one more than the number of
-- bytes: an entry has at least eight bytes, so that the fuel is enough for any input. `get` of a
-- keep-aliver runs on fuel one more than the size of the pool: each turn that does not end takes a
-- client out.
--
-- Not modelled: the Hessian codec of TBRemoting objects, which is a parameter; deadlines, most
-- metrics, and logging; the reuse of writers and buffers by pools; `closeConns` beside the workers
-- of `ServeConn`; the interleaving of asynchronous handlers; OneByteReadConn, whose reader is not
-- part of the repository; and the callers' side of the slices of a header map: a key or value given
-- to it is not one of its own arrays.
pub mod Base
pub mod Buffer
pub mod SimpleMap
pub mod Checksum
pub mod ReadHelper
pub mod Command
pub mod Request
pub mod Response
pub mod Client
pub mod ClientConn
pub mod ClientConnBolt
pub mod ResponseWriter
pub mod ClientResponseWriter
pub mod Conn
pub mod Recycling
pub mod StateConn
pub mod Server
pub mod Pool
pub mod KeepAliver
pub mod Tests
