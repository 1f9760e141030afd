-- ===== src/Lib.antt =====
-- muQuinet, a userspace TCP/IP stack: its wire formats, its protocol layers, its request handling
-- and the library that sends a process's socket calls to it.
--
-- The program has two sides. The interceptor (src/interceptor) is loaded into a process, takes over
-- the socket calls on its own descriptors, and exchanges messages (src/rpc/proto) with the daemon
-- over a UNIX socket. In the daemon (src/muquinetd) the event loop gives each request to
-- RequestHandler, which works on the channel's Socket and its protocol control block; the blocks
-- make packets that the IP layer completes and the interface writes to the TUN device. Received
-- packets go the other way, from another thread: reassembly, the search for the block, the block's
-- `recv`, the socket's queue, and a pipe that wakes the event loop.
--
-- Parts, with the files of src/muquinetd that they model:
--   Prelude: numbers, lists, machine words. All numbers are naturals; `htons` and `htonl` swap
--     bytes, and a `uint16_t` or `uint32_t` wraps by a remainder that is written out.
--   Checksum: base/InternetChecksum.cpp. The fold's loop is a recursion on accessibility.
--   Net: the header structs as bytes, SocketBuffer.h, and what interface/TunDevice.cpp reads and
--     writes.
--   Pcb: Pcb.h, Pcb.cpp and `nextAvailPort`.
--   Ip: ip/IpHeader.cpp (Header), Ip::tx (Tx) and the receive loop (Rx) of ip/Ip.cpp,
--     ip/frag/Defrager.cpp (Defrag).
--   Udp: udp/UdpPcb.cpp; Rx has the search for the block in udp/Udp.cpp and tcp/Tcp.cpp.
--   Tcp: tcp/TcpPcb.cpp; Machine has the sequences of its calls and received segments.
--   Mux: rpc/proto (Rpc), mux/Socket.cpp (Socket), mux/RequestHandler.cpp (Handler),
--     mux/eventloop (Loop: channels as objects at addresses, the loop's vector and the kernel's set;
--     Dispatch has one round, Stopping the thread), mux/Mux.cpp and mux/req-resp-channel (Channels:
--     the life of the channels to the interceptors; Listening has the start, Messages the reading
--     and writing of one message).
--   Stack: the parts from the device to a TCP block and the queue of its socket put together, for a
--     host with one block.
--   Node: a daemon with the sockets and blocks of all its channels, with requests and packets as its
--     steps; a datagram from a process to another through two daemons, what a packet leaves alone,
--     and the kinds of blocks.
--   Logging: the parts of Logging.cpp that compute.
--   Daemon: Conf.h, ConfReader.cpp and muQuinetd.cpp.
--   Interceptor: src/interceptor; fd-assigner.c, fd2channel.c, req-resp-channel.c (Recv) and
--     interceptor.c (Calls); Start has the start of a process.
--   Interface: interface/Interface.cpp and interface/TunDevice.cpp: the receiving thread (Receiving),
--     the gathering write (Gather), the creation of the device (Device), base/CmdRunner.cpp.
--   Examples: tests, and the theorems at concrete inputs.
--
-- State is passed explicitly: `Out` is what sending touches (the port counter, the identification
-- counter, the packets on the wire), `Stack` what a request handler touches. `none` stands for a
-- failed assertion, a null pointer or an exception. The concurrent queue is third-party code: a
-- record of operations with its documented laws (Mux.Socket), and so is the kernel's epoll (Mux.Loop);
-- the encoding of messages is a parameter too (Mux.Channels.Messages, Interceptor.Start). What the
-- memory of a new TCP block held is an argument, and so is what the kernel and the C library answer. No model
-- runs on fuel; every loop is structural or well founded.
--
-- Not modelled: the order of the daemon's start-up, the scheduling of its threads but for those of
-- the socket, the device and the event loop, the set-up of the logging library, and the code that
-- protoc makes.
pub mod Prelude
pub mod Checksum
pub mod Net
pub mod Pcb
pub mod Ip
pub mod Udp
pub mod Tcp
pub mod Mux
pub mod Stack
pub mod Node
pub mod Logging
pub mod Daemon
pub mod Interceptor
pub mod Interface
pub mod Examples
