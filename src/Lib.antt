-- ===== src/Lib.antt =====
-- A file transfer over UDP that rebuilds what TCP does: ftpc sends a file through the daemon tcpdc,
-- a network emulator and the daemon tcpds to ftps, and a timer process tells tcpdc which packets
-- to send again.
--
-- Parts and files:
--   Crc32: `crc32` of crc32.c, the checksum that tcpdc puts into a packet and tcpds tests. The
--     table is the source's; Reference has the shift register that it speeds up.
--   CBuffer: the ring of 64000 bytes of cbuffer.c and the list of packets of its send window. The
--     globals are the fields of `Buffer`; `add_data` is addData, `check_window` checkWindow,
--     `request_size` and `request_data` the two searches. Space, Ring and Chain describe the
--     bytes held and the packet list, Shorten and Grow the loops of checkWindow, Invariant what
--     each call keeps, Add the queue that addData implements, Packets the data of the packets,
--     Renew which of them checkWindow keeps, Stale the empty buffer.
--   Sender: sendWindow, recvACK and timerExpire of cbuffer.c on the state of the whole file, with
--     the datagrams that they send; Rtt has timeComps, Slots the array packtimes, Wire the
--     datagrams, Restamp, Held and Keeps what all of them leave as it is, Tracks, Taken, Slide
--     and Acks the window while acknowledgements come in.
--   TimerClient: the requests of cbuffer.c to the timer process. TimerDemo: timerDEMO.c, which
--     makes the same requests.
--   TimerProcess: the delta list of timerprocess.c (`insert_value`, `remove_value`, `decrement`)
--     and its loop over requests. Schedule says when the timers are due; Ties has the comparisons;
--     Insert, Head, Gap and Last follow a new timer, Remove and Fire the end of one, Requests the
--     bytes that TimerClient sends, Alone a single timer from its request to its notice, Setup the
--     socket.
--   Ftpc and Ftps: the blocks that sendFile of ftpc.c makes, and the loops of ftps.c that ask for
--     the header and the file. Their Setup modules have the sockets, and main of ftpc.c;
--     Ftps/Main is main of ftps.c, with the folder and the file, and Saved what it leaves.
--   Tcpdc: receiveAndSend of tcpdc.c over Sender; Round has what it does with a block of ftpc, an
--     acknowledgement and a notice, Take what a call adds to the buffer, Rounds the calls one
--     after the other, Setup createConnection and main.
--   SBuffer: the ring of filled and empty stretches of sbuffer.c (`add_data`, `request_data`,
--     `get_size`, `merge_list`), less printList. Machine makes the tests of mergeList one by one,
--     and Machine/Simulation compares it with `merge_list`. Merge and Capacity hold for any
--     state; Tiles, Merging, Fill, Scan, Window, Deliver and Read for the first window, in which
--     nothing was read before, where it is a map from numbers to packets; Turn and Exchange for
--     packets that are read one by one; Stuck for the states that end the service.
--   Tcpds: hostisset and remoteisset of tcpds.c, and in Setup createConnection, checkRead and
--     main, over an interface for the server's buffer; Accept has what becomes of the packets
--     that Sender sends, Acks which of them are acknowledged, Store the daemon with SBuffer
--     behind it, and Reassembly the way from the packets of the network to the bytes of ftps.
--   Link: the way of a window from sendWindow of cbuffer.c through a network that changes the
--     order of datagrams and repeats them, to tcpds and to what ftps is given (Pieces, Transfer;
--     Filled and Stream from the start of both daemons on), and the way of the acknowledgements
--     back to receiveAndSend of tcpdc.c (Slide, Loop); in Twice and Lost a packet is lost and the
--     timer process has it sent again.
--   TcpApi: the calls of tcpapi.c with the address that they share. Wiring: whether what the
--     programs send comes to the sockets that the others have bound.
--   Words, Int, Outcome and Base: words in network and host order, integers, what a call comes
--     to, and the helpers shared by all.
--
-- Bytes and positions are numbers; an array is a list with a lookup that gives 0 outside. In the
-- timer process a double that carries a time is taken exactly, in milliseconds: the times of requests
-- and the readings of the clock are whole ones, and what is computed from them differs in C by
-- rounding errors far below one, so that a comparison comes out otherwise at most where the exact
-- values are equal. There its outcome is an argument, except in the tests of a request's time against
-- the head's and of `elapse` against 0, which are exact, as are the whole seconds of removeValue. In
-- Rtt the operations on double are an interface. The machine is little endian (the header of a packet
-- is copied from memory).
-- The last loop of checkWindow runs on fuel: each round takes at least one byte off the distance
-- to the window's end, so that distance is enough, as `CBuffer.Grow.grow-Grown` shows.
-- The outer loop of mergeList runs on fuel: each round shortens what is behind the cursor or, at the
-- end, the ring, so that the triangle number of the ring's length and one is enough, as
-- `SBuffer.Merge.merge_list-finishes` shows. A loop of mergeList that has taken in `head` never
-- ends in C, since no link leads back to it; the model gives it as a result, `endless`, which
-- `SBuffer.Machine.Simulation.merge_list-runs` holds against the tests made one by one.
-- The clock, the result of each sendto, the bytes behind a heap block and those on the stack that are
-- read before they are set are parameters; so are the number of answers that come to ftpc, and what
-- comes of a request to the timer process whose end is written behind its array.
-- The loop over a file's blocks runs on the file's length, of which each round takes bytes off.
-- The kernel is a parameter of the sockets' calls, and the results of `inet_addr` for an argument too.
-- Not modelled: printing, a RECV that fails, the waiting in select (what it finds is an argument), the
-- test program sbuffertest.c, and the emulator. In Ftps, between ftpc and ftps stands a stream of bytes.
pub mod Base
pub mod Int
pub mod Words
pub mod Outcome
pub mod TcpApi
pub mod Crc32
pub mod CBuffer
pub mod TimerClient
pub mod Sender
pub mod TimerProcess
pub mod SBuffer
pub mod Ftpc
pub mod Ftps
pub mod Tcpds
pub mod Tcpdc
pub mod Link
pub mod TimerDemo
pub mod Wiring
