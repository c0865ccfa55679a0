-- ===== src/Keys/Overlap.antt =====
-- Keys of `src/redis_transport.rs` for host names that hold colons.
use shex.Prelude.{
  ◌≤◌, ◌≡◌, refl, true, ◌++◌, arith, Bytes, codes, length, length-append, all, all-append,
}
use shex.Names.{hostname_byte}
use shex.Names.Hostname.{IsHostname}
use shex.Keys.{host_key, wake_key}

-- The names "host:x" and "x:wake", for a text `x` of host name bytes.
abbrev pub waker : Bytes → Bytes
waker x = codes "host:" ++ x

abbrev pub woken : Bytes → Bytes
woken x = x ++ codes ":wake"

woken-IsHostname : (x : Bytes) → all hostname_byte x ≡ true → length x ≤ 58 → IsHostname (woken x)
unfolding hostname_byte
woken-IsHostname x h l = record {
  nonempty = omega (arith, length-append x (codes ":wake"));
  short = omega (arith, length-append x (codes ":wake"));
  bytes = ground (arith, all-append hostname_byte x (codes ":wake"));
}

-- For every text `x` of at most 58 host name bytes, "host:x" and "x:wake" are valid host names, and
-- the list that wakes the first is the key that registers the second.
pub host_key-wake_key :
    (x : Bytes)
    → all hostname_byte x ≡ true
    → length x ≤ 58
    → IsHostname (waker x) × IsHostname (woken x) × (wake_key (waker x) ≡ host_key (woken x))
unfolding wake_key host_key hostname_byte
host_key-wake_key x h l = (
  record { nonempty = omega arith; short = omega arith; bytes = ground arith },
  woken-IsHostname x h l,
  refl,
)
