-- ===== src/CoreProto.antt =====
-- lib/coreproto.h: the frame around a message, `N`, `F`, the length in network byte order and the
-- payload. `Host` is the machine; `PacketArray` holds the overloads for `char[size]`, which see the
-- whole array however much of it was filled.
pub mod Host
pub mod LittleEndian
pub mod Frame
pub mod PacketArray
pub mod Prefix
pub mod RoundTrip
mod Examples
