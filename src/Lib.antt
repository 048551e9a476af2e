-- ===== src/Lib.antt =====
-- Verification of the device server `722device` and of the network proxy `net_proxy_v2`.
--
-- The device server takes messages from an application, frames them and sends them by UDP to a
-- communication service, and hands the messages that come in to the application. Its parts, from the
-- bottom up:
--
--   * 722device/com/tls_list.c, intrusive doubly linked lists: TlsList. A `Store` holds the `pre` and
--     `next` field of every node, so that the rings, their aliasing and the order of the assignments
--     are those of the source. `TlsList.Chain` says which store is a ring of which nodes; the other
--     parts use lists in place of rings.
--   * 722device/server/tls_buff_queue.c, buffers and the pools of free ones: TlsBuff, over the memory of
--     TlsBuff.Memory, where `malloc` may be refused and a `free` of what is not allocated has no
--     outcome. A buffer is its structure with the bytes of its storage.
--   * 722device/server/tls_transmit.c, eight queues by priority and the thread that sends them:
--     TlsTransmit. `push`, `thread_poll`, `handle` and `thread_work` are the functions of the same
--     names; TlsTransmit.Threads cuts them at their locks into the steps of threads that interleave.
--   * 722device/server/tls_work.c, tls_receive.c and the working thread of tls_server.c: TlsServer, with
--     TlsServer.Publish for the messages of the VSOA bus, TlsServer.Receive for what comes in, and
--     TlsServer.Lifecycle for the pools that tls_server.c fills at the start and gives up at the end;
--     TlsServer.Running has the application and the threads together.
--     The state of all of them, `tls_server_t` and what it points to, is `Server` in State.
--
-- The server calls the pools for a buffer, writes the frame into it and pushes it to the transmitter; the
-- sending thread gives it to the socket and puts it back into the pool of its priority. The
-- receiving thread fills a buffer and queues it; the working thread parses it, calls the
-- application and puts it back.
--
-- The proxy `net_proxy_v2` connects two networks. NetProxy has its messages and frames (common/common.c),
-- NetProxy.Queue the bounded queue of the same file, and NetProxy.Forward the callback, the worker and
-- the receiving handlers of proxy_server/proxy_server.c.
--
-- The device has a proxy of its own, 722device/network/tls_net_proxy.c: LinkProxy. Messages wait in eight
-- rings by priority (LinkProxy.Ring), `push_to_prio_queue` puts them there, and `transmit_loop` is the
-- thread that sends them by UDP or TCP. It takes the highest node and, where a higher one has come
-- since, puts it back: `send_or_requeue` has the rings of that moment as an argument, and
-- `transmit_loop` composes the two with no pushes between. The data of a node are read from memory when
-- it is sent, and what comes of socket, connection and `send` is one answer for each message: both are in
-- `World`. `published` is what the listening threads publish of the bytes of one read.
-- Configuration, the listening sockets and the start of the threads are left out.
--
-- The application, 722device/app/app_transmit.c, connects these parts: AppTransmit has the parser of the
-- addresses, and AppTransmit.Callbacks the functions that the VSOA library and the server call. A message of
-- the RPC server goes into the rings of LinkProxy, one of the subscription into `tls_server_vsoa_publish_transmit`
-- of TlsServer.Publish, and what the device receives goes to the publisher.
--
-- 722device/filetransmit takes files that come in blocks, writes them to the disk and sends them on:
-- FileTransfer has the blocks with their header and their reception (file_block.h, file_transmit.c), and
-- FileTransfer.Entries the files that are under way (file_entry.c) and the thread that serves them. The
-- publisher is an argument there; FileTransfer.Entries.Sending puts `tls_server_vsoa_publish_transmit` in its place,
-- with blocks that fit into its buffers, and FileTransfer.Entries.Overrun with blocks that do not.
-- What `open`, `read`, `write` and the clock answer is an argument of each step.
--
-- 722device/server/tls_request.c asks for the state of the network: TlsRequest has a command for each request, on a
-- heap, and the queue of those that wait. TlsRequest.Steps interleaves the clients, the thread that looks
-- for time-outs and the receiver, which finds a command under the lock and stores into it without;
-- TlsRequest.Served follows who has which command, and TlsRequest.Answer one request.
-- `link_info_begin` and `link_info_end` are `tls_request_link_info` before and after its wait, and
-- `link_info_finish` is what it does when its command has left the queue.
--
-- 722device/statis/tls_statis_rate.c computes the rates at which bytes come and go: TlsStatis, with one `Meter` for each
-- of the three. The rates in double precision are an argument.
--
-- The threads wait for the events of 722device/com/tls_event.c: TlsEvent has their pipes, and TlsEvent.Refine compares
-- them with the flags that stand for them in all other parts.
--
-- Common has what all parts share: tests on numbers, lists measured by them, bytes in storage, and the
-- status codes of 722device/include/tls_com.h.
--
-- Conventions. A function of the source that returns a status is a function to a pair of status and new
-- state. An outcome `none` of a function of the server is undefined behaviour: a store beyond the
-- end of a buffer, or a wrong `free`. Arguments that the code tests for null are options, except the
-- object that a function works on, which is never null here; so the branches for a null server,
-- queue or transmitter have no counterpart. Numbers wrap as their C types do where they can
-- overflow. Logging has no counterpart. A mutex is the atomicity of a step, an event its flag, and
-- a socket the list of buffers given to it, with the answers of the network as arguments.
--
-- Fuel. `TlsTransmit.thread_work` makes a round for each unit, and stops where the thread waits for its
-- event; as many rounds as there are messages and priorities, and two more, are enough. The loop of
-- `TlsList.remove_node` makes a step for each node of the ring, and one more unit is enough.
-- `LinkProxy.transmit_loop` sends a node in each round, and one unit more than there are nodes is
-- enough. All other loops recur on the list or on the count that they run through.
--
-- Not modelled: the rest of the start and the release of the server (722device/server/tls_server.c),
-- and the start and the stop of the requests, of the rates, of the file transfer and of the application, which
-- are built on the parts above; the wrappers of POSIX calls, the configuration readers and the menus; and the vendored
-- libraries (722device/third, 722device/config/mxml), which the parts modelled do not call.
pub mod Common
pub mod TlsList
pub mod TlsBuff
pub mod State
pub mod TlsTransmit
pub mod TlsServer
pub mod NetProxy
pub mod LinkProxy
pub mod AppTransmit
pub mod FileTransfer
pub mod TlsRequest
pub mod TlsStatis
pub mod TlsEvent
