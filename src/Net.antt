-- ===== src/Net.antt =====
-- src/net: the sockets' side of the server. What the kernel answers to a system call is an argument.
pub mod Kernel
pub mod UniqueFd
pub mod Connection
pub mod EventLoop
pub mod Server
