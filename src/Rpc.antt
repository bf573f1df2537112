-- ===== src/Rpc.antt =====
-- Remote calls: lib/rmipacket.h, lib/retvalserialisation.h, lib/remotecall.h and the reading of
-- arguments in lib/handlerbase.h.
pub mod Packet
pub mod Call
pub mod Answer
pub mod Cut
mod Examples
