-- ===== src/Tests/Naming.antt =====
-- Names and keys of one host and two connections.
use shex.Prelude.{◌≡◌, ◌≢◌, refl, Bytes, codes, [], ◌∷◌, eq-ne, eq, arith}
use shex.Names.{random_hostname, hex, hostname_byte}
use shex.Names.Hostname.{IsHostname}
use shex.Keys.{host_key, wake_key}
use shex.Keys.Unique.{key_of_injective, to_host}
use shex.Keys.Overlap.{host_key-wake_key}

abbrev host : Bytes
host = codes "swift-otter:0042"

abbrev id : Bytes
id = codes "ab01"

random_hostname_run : random_hostname 1 8 0 42 ≡ host
unfolding random_hostname
random_hostname_run = refl

hex_run : hex (171 ∷ 1 ∷ []) ≡ id
unfolding hex
hex_run = refl

key_of_injective_example : (to_host ≡ to_host) × (host ≡ host) × (id ≡ id)
key_of_injective_example = key_of_injective to_host to_host host host id id refl refl refl

id-ready : id ≢ codes "ready"
unfolding eq
id-ready = eq-ne id (codes "ready") refl

host_key-wake_key_example :
    IsHostname (codes "host:otter")
    × IsHostname (codes "otter:wake")
    × (wake_key (codes "host:otter") ≡ host_key (codes "otter:wake"))
unfolding hostname_byte
host_key-wake_key_example = host_key-wake_key (codes "otter") refl (omega arith)
