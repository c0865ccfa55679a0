-- ===== src/Tests/Meeting.antt =====
-- Before a session: a login, a measured latency, and old sessions that are cleared.
use shex.Prelude.{arith, none, if◌then◌else◌, ◌≡◌, refl, ℕ, eq, Bytes, codes, [], ◌∷◌, starts_with}
use shex.Result.{ok}
use shex.Keys.{client_message_key, session_prefix}
use shex.Redis.{text}
use shex.Redis.World.{World, Turn, answered, query, perform}
use shex.Redis.Memory.{Store, Memory, lasting, memory}
use shex.Host.{clear_session_lookups}
use shex.Names.{hostname_byte}
use shex.Names.Hostname.{IsHostname}
use shex.Host.Overlap.{nested, clear_session_lookups-nested}
use shex.Host.Clearing.{lookup-clear_session_lookups}
use shex.Latency.{
  LatencyStats, measure_latency, measured, redis_ping, redis_sample, samples, stats, least,
  greatest, sum,
}
use shex.Login.{Opaque, client_login, server_login}
use shex.Login.Agreement.{login-agree}
use shex.Tests.Mailbox.{world, fox-IsHostname}

abbrev other_key : Bytes
other_key = codes "shex:v2:host:fox"

abbrev old : Store
old =
    (client_message_key (nested (codes "fox") (codes "x")) (codes "ab"), text (codes "hi"))
    ∷ (codes "shex:v2:fox:session:ab", text (codes "fox"))
    ∷ (other_key, text (codes "key"))
    ∷ []

lookup-clear_session_lookups_example :
    let (r, after) = clear_session_lookups memory 3 (codes "fox") (world old) in
    (r ≡ ok tt)
    × (memory.lookup after.db other_key ≡ (
        if starts_with (session_prefix (codes "fox")) other_key
        then none
        else memory.lookup (lasting old) other_key))
lookup-clear_session_lookups_example =
    lookup-clear_session_lookups memory 3 (codes "fox") other_key (world old) refl fox-IsHostname
      (omega arith)

clear_session_lookups-nested_example :
    let (r, after) = clear_session_lookups memory 3 (codes "fox") (world old) in
    IsHostname (nested (codes "fox") (codes "x"))
    × (r ≡ ok tt)
    × (memory.lookup after.db (client_message_key (nested (codes "fox") (codes "x")) (codes "ab"))
        ≡ none)
unfolding hostname_byte
clear_session_lookups-nested_example =
    clear_session_lookups-nested memory 3 (codes "fox") (codes "x") (codes "ab") (world old) refl
      fox-IsHostname refl (omega arith) (omega arith)

abbrev after : ℕ → Turn Memory
after ms = record { others = λ db. db; elapsed = ms; fate = answered }

abbrev slow : World Memory
slow = record { db = lasting []; clock = 0; turns = after 9 ∷ after 3 ∷ after 4 ∷ [] }

abbrev reported : LatencyStats
reported = record { minimum = 3; average = 3; maximum = 4 }

measure_latency_run : (measure_latency memory 2 slow).0 ≡ ok reported
unfolding measure_latency measured redis_ping redis_sample samples stats least greatest sum query
    perform eq
measure_latency_run = refl

-- a login that tells the code
abbrev pub opaque : Opaque
opaque = record {
  ClientState = Unit {0};
  ServerState = Unit {0};
  Credentials = Bytes;
  Request = Bytes;
  Response = Bytes;
  Finalization = Bytes;
  Registered = λ credentials code. credentials ≡ code;
  read_request = λ m. ok m;
  read_response = λ m. ok m;
  read_finalization = λ m. ok m;
  start = λ r code. ok (tt, code);
  respond = λ r credentials request identity. ok (tt, credentials);
  finish = λ r state code response. ok (code, code);
  complete = λ state finalization. ok finalization;
  agree = λ credentials code r1 r2 r3 registered started read responded answer finished last. cc;
}

login-agree_example : codes "c" ≡ codes "c"
unfolding client_login server_login
login-agree_example =
    login-agree opaque (codes "c") (codes "c") 0 0 0 (codes "c") (codes "c") (codes "c") (codes "c")
      (codes "c") refl refl refl
