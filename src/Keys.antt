-- ===== src/Keys.antt =====
-- The names of the Redis keys (`src/redis_transport.rs`), and the piece of a key that names the
-- connection.
pub mod Unique
pub mod Overlap
use shex.Prelude.{◌++◌, [], ◌∷◌, Bytes, codes, ◌==◌, contains_byte, if◌then◌else◌}

unfoldable pub host_key : Bytes → Bytes
host_key hostname = codes "shex:v2:host:" ++ hostname

unfoldable pub wake_key : Bytes → Bytes
wake_key hostname = codes "shex:v2:" ++ (hostname ++ codes ":wake")

unfoldable pub client_message_key : Bytes → Bytes → Bytes
client_message_key hostname connection_id =
    codes "shex:v2:" ++ (hostname ++ (codes ":message:c2h:" ++ connection_id))

unfoldable pub host_message_key : Bytes → Bytes → Bytes
host_message_key hostname connection_id =
    codes "shex:v2:" ++ (hostname ++ (codes ":message:h2c:" ++ connection_id))

unfoldable pub ready_key : Bytes → Bytes
ready_key message_key = message_key ++ codes ":ready"

unfoldable pub session_key : Bytes → Bytes → Bytes
session_key hostname session_hash =
    codes "shex:v2:" ++ (hostname ++ (codes ":session:" ++ session_hash))

-- The pattern of `clear_session_lookups`, without the `*` that ends it.
unfoldable pub session_prefix : Bytes → Bytes
session_prefix hostname = codes "shex:v2:" ++ (hostname ++ codes ":session:")

-- `key.rsplit(':').next()`: what stands behind the last colon, or all of it
unfoldable pub last_segment : Bytes → Bytes
last_segment [] = []
last_segment (c ∷ cs) =
    let rest = last_segment cs in
    if contains_byte b':' cs then rest else if c == b':' then cs else c ∷ cs
