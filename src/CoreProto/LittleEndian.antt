-- ===== src/CoreProto/LittleEndian.antt =====
-- A little-endian machine, which meets the laws of `Host`.
use netframework.Base.{ℕ, ◌+◌, ◌*◌, ◌/◌, ◌%◌, ◌^◌, ◌<◌, ◌≡◌, [], ◌∷◌, Bytes, arith}
use netframework.CoreProto.Host.{Host, network_order}

abbrev pub store_little : ℕ → Bytes
store_little n = (n % 256) ∷ (n / 2 ^ 8 % 256) ∷ (n / 2 ^ 16 % 256) ∷ (n / 2 ^ 24 % 256) ∷ []

abbrev pub load_little : Bytes → ℕ
load_little (a ∷ b ∷ c ∷ d ∷ []) = a + 2 ^ 8 * b + 2 ^ 16 * c + 2 ^ 24 * d
load_little _ = 0

abbrev pub swap_bytes : ℕ → ℕ
swap_bytes n =
    2 ^ 24 * (n % 256) + 2 ^ 16 * (n / 2 ^ 8 % 256) + 2 ^ 8 * (n / 2 ^ 16 % 256) + n / 2 ^ 24 % 256

pub load-store_little : (n : ℕ) → n < 2 ^ 32 → load_little (store_little n) ≡ n
load-store_little n lt = omega arith

pub swap_bytes-lt : (n : ℕ) → n < 2 ^ 32 → swap_bytes n < 2 ^ 32
swap_bytes-lt n lt = omega arith

pub swap_bytes_twice : (n : ℕ) → n < 2 ^ 32 → swap_bytes (swap_bytes n) ≡ n
swap_bytes_twice n lt = omega arith

pub store-swap_bytes : (n : ℕ) → n < 2 ^ 32 → store_little (swap_bytes n) ≡ network_order n
store-swap_bytes n lt = ground arith

abbrev pub little_endian : Host
little_endian = record {
  store32 = store_little;
  load32 = load_little;
  htonl = swap_bytes;
  ntohl = swap_bytes;
  load32-store32 = load-store_little;
  htonl-lt = swap_bytes-lt;
  ntohl-htonl = swap_bytes_twice;
  store32-htonl = store-swap_bytes;
}
