-- ===== src/Lib.antt =====
-- Verification of a user-space TCP/IP stack (IPv4 and IPv6) that runs on a TAP device.
--
-- The program. src/tcp_input.c takes the segments that IP hands up (tcp_input_state), src/tcp_data.c
-- keeps the received data, src/tcp_output.c builds, queues and retransmits segments, src/tcp.c holds
-- the user calls, the timers and the state of a connection, src/skbuff.c and include/skbuff.h the
-- packet buffers and their queues. src/timer.c runs the callbacks in threads of their own, and
-- every entry point takes the lock of the socket, so each is one step on the state of one socket.
-- Below TCP, src/route.c chooses the route, src/arp.c keeps the hardware addresses,
-- src/ipv6_exthdr.c finds the upper-layer header of an IPv6 packet, and src/utils.c has the checksum
-- that all protocols share. The IPv6 half (src/ipv6_input.c, src/ipv6_output.c, src/dst.c,
-- src/icmpv6.c, src/ndp.c, src/ipv6_addrconf.c) shares one state: the device with its addresses, the
-- routing table, the neighbour cache, the running duplicate address detection and the timers asked for.
--
-- The model. A function of the source is a function on TcpSock under the source's name; a part of a
-- longer function has a name of its own.
--   Skbuff         struct sk_buff, struct tcphdr and the queues: buffers are values, pointers into
--                  them offsets, and a queue is the list of its buffers
--   Tcp/Sock       struct sock, struct tcb and struct tcp_sock in one record; calls that leave the
--                  TCP code are a log of effects, newest first
--   Tcp/Rto        timers and the round-trip estimate (src/tcp.c, src/tcp_output.c)
--   Tcp/Output     tcp_transmit_skb, the wait for the send window, options, ACK and RST
--   Tcp/Send       SYN, SYN-ACK, FIN, connect, tcp_send, tcp_send_next, fast retransmit
--   Tcp/Congestion src/tcp_input.c: window growth, the retransmission queue, fast recovery
--   Tcp/Data       src/tcp_data.c, and tcp_calculate_sacks of src/tcp.c
--   Tcp/ParseOpts  src/tcp_input.c: tcp_parse_opts
--   Tcp/Done       the start and the end of a connection's state
--   Tcp/Segment    src/tcp_input.c: tcp_input_state from its "Otherwise" section on
--   Tcp/Input      src/tcp_input.c: CLOSED, LISTEN, SYN-SENT, and the dispatch on the state
--   Tcp/Timeout    the timer callbacks of src/tcp.c and src/tcp_output.c
--   Tcp/Api        what the socket layer calls: listen, close, read, write
--   Timer          src/timer.c: the timer list, a tick, and the calls of a timer's owner
--   Checksum       src/utils.c: the Internet checksum
--   Route          src/route.c: the table, both lookups, the path MTU
--   Arp            src/arp.c: the cache, requests and replies
--   Exthdr         src/ipv6_exthdr.c: the walk over the extension headers
--   Ipv4           src/ip_input.c, src/ip_output.c, src/icmpv4.c, the IPv4 half of src/dst.c and the
--                  checksum of src/udp.c
--   Udp            src/udp.c, src/udp_data.c, src/udp_out.c: datagrams; Udp/Queue whole runs
--   Ipv6           include/ipv6.h, struct netdev and the shared state of the IPv6 half; Ipv6/Pseudo
--                  has the checksum with the pseudo-header, Ipv6/Output src/ipv6_output.c and the
--                  neighbour output of src/dst.c, Ipv6/Input src/ipv6_input.c
--   Ndp            src/ndp.c: the neighbour cache and solicitations; Ndp/Input what arrives
--   Addrconf       src/ipv6_addrconf.c: addresses, duplicate address detection, lifetimes
--   Icmp6          src/icmpv6.c: dispatch, echo, path MTU, error messages
--   Socket         src/socket.c: the table of sockets; Socket/Lookup the lookups, Socket/Api the
--                  calls of the application and the creation of sockets (src/inet.c, src/inet6.c)
--   Tests          a concrete socket and other inputs, and the theorems at them
-- The children of these modules hold the proofs, each named for what it is about; Tcp/Frame and
-- Tcp/Kept say which parts of the state an operation leaves alone, for the others to use, and Prelude
-- has the shared names, tests, words and lists.
--
-- Numbers. uint8_t, uint16_t, uint32_t and uint64_t are natural numbers, with the wrap written where
-- the source writes a variable. An int that is only a pattern of bits is kept as one.
--
-- Waiting. A thread that sleeps on the send window or on data gives up the lock, and others change
-- the socket meanwhile. The model takes the sockets that it finds at each wake-up as a list, and a
-- thread that still sleeps at the end of the list has no result.
--
-- Fuel. tcp_parse_opts has 40 rounds, since its loop runs while 0 < optlen < 40 and every option
-- takes some of it or wraps it round; tcp_send has as many rounds as bytes, since every segment takes
-- one at least; the padding of tcp_options_len takes three rounds at most; a 32-bit sum is folded in
-- two; the walk over extension headers is limited to eight by the source; the walks over the options of
-- neighbour discovery have a round for every 8 bytes, the least that an option takes. The other loops
-- go down a queue or a table.
--
-- The IPv6 half. A frame is its addresses, the fixed header as a record in host order and the bytes
-- behind it; a message of ICMPv6 is its bytes. What is read behind the end of a buffer is 0. A write
-- in front of a buffer, or a read through a null pointer, has no result. All that leaves this half is
-- a log, oldest first: frames, timers with their handler and argument, calls of the TCP half.
--
-- Each operation of this half is one step. In the source the lookup of a neighbour and the new entry
-- (dst6_neigh_output of src/dst.c, ndp_entry_alloc of src/ndp.c) are not under one lock, so what
-- threads do that are inside them at once is not modelled.
--
-- IPv4. A packet is its bytes from the header on, in network order, behind which the buffer is 0 up to
-- its end. The buffer of a frame has 1600 bytes; to send more than that of it has no result.
--
-- Not modelled. The bytes of the TCP header and their order (the header is a record), devices, the
-- sleeps and the poll of the socket layer, the sleep of a reader of UDP, the messages to the
-- applications, the text form of addresses. The tick and the initial sequence number are arguments,
-- since they come from the clock and from rand. Memory is always granted.
pub mod Addrconf
pub mod Arp
pub mod Checksum
pub mod Exthdr
pub mod Icmp6
pub mod Ipv4
pub mod Ipv6
pub mod Ndp
pub mod Prelude
pub mod Route
pub mod Skbuff
pub mod Socket
pub mod Tcp
pub mod Tests
pub mod Timer
pub mod Udp
