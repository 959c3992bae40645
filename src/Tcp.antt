-- ===== src/Tcp.antt =====
-- src/tcp.c, src/tcp_input.c, src/tcp_output.c and src/tcp_data.c: the TCP part of the stack.
pub mod Sock
pub mod Rto
pub mod Output
pub mod Send
pub mod Frame
pub mod Congestion
pub mod Data
pub mod ParseOpts
pub mod Done
pub mod Kept
pub mod Segment
pub mod Input
pub mod Timeout
pub mod Api
