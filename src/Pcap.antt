-- ===== src/Pcap.antt =====
-- net/pcap: the userspace packet stack.
pub mod Checksum
pub mod Eth
pub mod Ipv4
pub mod Ipv6
pub mod Segment
pub mod State
pub mod FourTuple
pub mod Conn
pub mod Shim
