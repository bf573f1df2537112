-- ===== src/CoreProto/Host.antt =====
-- What coreproto.h takes from the machine and from `arpa/inet.h`: how a `uint32_t` lies in memory,
-- and `htonl` and `ntohl`.
use netframework.Base.{ℕ, ◌/◌, ◌%◌, ◌^◌, ◌<◌, ◌≡◌, [], ◌∷◌, Bytes}

-- The four bytes of a number in network byte order, the most significant first.
abbrev pub network_order : ℕ → Bytes
network_order n = (n / 2 ^ 24 % 256) ∷ (n / 2 ^ 16 % 256) ∷ (n / 2 ^ 8 % 256) ∷ (n % 256) ∷ []

-- `store32` and `load32` are a write and a read through a `uint32_t*`. The laws say that a read
-- gives back what was written, and that `htonl` and `ntohl` convert to and from network byte order.
pub record Host : Type 0 where
  pub store32 : ℕ → Bytes
  pub load32 : Bytes → ℕ
  pub htonl : ℕ → ℕ
  pub ntohl : ℕ → ℕ
  pub load32-store32 : (n : ℕ) → n < 2 ^ 32 → load32 (store32 n) ≡ n
  pub htonl-lt : (n : ℕ) → n < 2 ^ 32 → htonl n < 2 ^ 32
  pub ntohl-htonl : (n : ℕ) → n < 2 ^ 32 → ntohl (htonl n) ≡ n
  pub store32-htonl : (n : ℕ) → n < 2 ^ 32 → store32 (htonl n) ≡ network_order n
