-- ===== src/Lib.antt =====
-- Models of the programs of this repository that serve or query over a network, with the properties
-- that make them correct, and with the inputs on which they are not.
--
-- The programs are separate: each is a C file, or a folder of C++ files, with its own `main`.
--
--   2.3.1-Coroutine/async_dns_client_noblock.c   a DNS client. Its messages are modelled: building a
--       request (dns_create_header, dns_create_question, dns_build_request) in Dns/Request, reading a
--       compressed name (is_pointer, dns_parse_name) in Dns/Name, reading a reply (dns_parse_response)
--       in Dns/Response. The sockets, the epoll loop, the heap and the two threads around them
--       (dns_async_client_commit, dns_async_client_proc and the rest) are in Dns/Client.
--   2.4.1-ustack/ustack.c   a UDP echo server on DPDK. The loop over a burst of frames, the answer to
--       one frame (ustack_send, ustack_encode_udp_pkt) and what it keeps are in Ustack.
--   2.1.1-multi-io/reactor.c   a TCP echo server on epoll: set_event, accept_cb, recv_cb, send_cb and
--       the loop over the events of one epoll_wait are in Reactor, init_server and the set-up in main in
--       Reactor/Setup.
--   2.1.1-multi-io/http-server.c   the same with a fixed HTTP response: the same functions and
--       http_request and http_response are in Http, the set-up in main in Http/Setup.
--   2.1.1-multi-io/multi-io.c   an echo server with a mode for each way to wait. One round of the loop
--       of SELECT_MODE is in Select, of POLL_MODE in Poll, which compares the two, and of EPOLL_MODE in
--       Epoll; the thread of a client in MULTI_PTHREAD is in Thread, the loop that starts these threads
--       in Thread/Accept, SINGLE_MODE and the set-up of the socket in Thread/Single.
--   2.1.1-multi-io/mul_port_client_epoll.c   the load generator for these servers: ntySetNonblock,
--       ntySetReUseAddr and the rounds of main are in Load.
--   2.1.1-multi-io/P2P_P1.c   a peer that connects to another: bind_localaddr, connect_tcpserver,
--       client_thread and the loops of main are in Peer.
--   2.3.1-Coroutine/hook.c, hook-pthread.c   an echo server whose `read` and `write` are replaced
--       (read, write, init_hook, entry), and the same functions of ucontext.c, in Hook, which compares
--       them with Thread.
--   2.3.1-Coroutine/ucontext.c   three coroutines and their scheduler, in Coroutine; setjmp.c is in
--       Coroutine/Jump.
--   ThreadPool/   worker threads, a manager thread and their queue of tasks. Class TaskQueue and all of
--       class ThreadPool are in ThreadPool, as steps that threads and callers make in any order.
--   WebServerDemo/   the server of reactor.c once more, in C++: class Server and the classes of its
--       connections are in WebServer, which compares it with Reactor.
--
-- Memory is what all of them share: an array of bytes, an access outside of which is the outcome
-- `fault`, for undefined behaviour. Memory/Laws and Memory/Window are about writing and reading,
-- Memory/Agree compares the outcomes of two programs, Memory/Post is about postconditions, and
-- Memory/Text about texts in arrays, as sprintf and strlen use them. Net is the operating system
-- under the TCP servers, a record of functions over a state of the system, with what is documented
-- of their results in OsLaws; Net/Systems gives two systems that meet it. Base passes on names of
-- the libraries and adds lists measured in native numbers (Base/Lists), Boolean tests (Base/Tests),
-- the integers that system calls return (Base/Int), their decimal text (Base/Decimal), byte order
-- (Base/Words), and sums over the members of a family (Base/Counting). A module named Tests runs
-- its component on concrete inputs.
--
-- How state and operations correspond. A pointer into a message is its index from the start of the
-- array; pointers to results are results. A function that changes a global takes it and returns it:
-- the array of connections is a function from descriptors to entries, the globals of ustack.c a
-- record. Reads of an entry of the connections with a descriptor beyond the array are `fault`, as
-- is a null function pointer, a write to a null block, and a size that wraps below zero in a copy.
-- The undefined outcome of a C function ends the run, so nothing is said of what follows it.
--
-- Bounds and fuel. The loops of dns_parse_name and over the name of a question have no bound in the
-- code, so they take fuel, as do the scheduler of ucontext.c and the loops that wait in
-- dns_client_commit, client_thread, entry and P2P_P1.c, and have the outcome `timeout`; fuel is a
-- number of rounds. Name/Spells counts the rounds that a name takes, and that much fuel is enough;
-- for the name of a question, so is the length of the array from the cursor on and one more; for
-- the scheduler, 32 rounds; for the loops that wait, one round more than there are calls of
-- `recvfrom` without a byte, or messages. All other loops are structural. 16-bit fields of ustack.c
-- wrap as `uint16_t` does. Lengths and counts of the servers are natural numbers where the code
-- keeps them from being negative, and the integers of Base/Int where it does not; a descriptor and
-- a count stay below what an `int` holds. Byte order is that of a little-endian host. A character
-- is its unsigned code: dns_parse_name reads through `unsigned char *`.
--
-- Parameters, since their code is not in the repository: the system calls (those of the DNS client
-- are the record Udp of Dns/Client, of the load generator Calls of Load, of P2P_P1.c Calls of Peer,
-- of the hooks Libc of Hook, with `dlsym`); `malloc`, `calloc` and `strdup`, which may fail;
-- `random`; `inet_ntop`; DPDK's mbuf allocation and checksums, of which only the argument and the
-- place of the result are used.
--
-- Not modelled: output to the terminal, but for the search for the end of the text in the messages
-- of multi-io.c and of the hooks; the set-up of the socket in hook.c, and of DPDK; LOOP_MODE of
-- multi-io.c, which does not compile, and the loop of main in hook.c, a copy of that of entry in
-- hook-pthread.c; how the thread and the second loop of P2P_P1.c run side by side; and the C++
-- exercises of 2.3.1-Coroutine, which show features of the language.
pub mod Base
pub mod Memory
pub mod Dns
pub mod Ustack
pub mod Net
pub mod Reactor
pub mod Http
pub mod Select
pub mod Coroutine
pub mod ThreadPool
pub mod WebServer
pub mod Poll
pub mod Epoll
pub mod Thread
pub mod Load
pub mod Hook
pub mod Peer
