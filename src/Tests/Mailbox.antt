-- ===== src/Tests/Mailbox.antt =====
-- A client and its host, at the two ends of mailboxes in memory.
use shex.Prelude.{
  ◌≡◌, ◌≢◌, refl, Bytes, codes, [], ◌∷◌, eq, eq-ne, none, some, Option, if◌then◌else◌, arith,
  some-inj,
}
use shex.Result.{ok, err, message_changed, fuel_exhausted, hostname_owned}
use shex.Names.Hostname.{IsHostname}
use shex.Names.{hostname_byte}
use shex.Keys.{host_key, ready_key, last_segment}
use shex.Redis.{text, items}
use shex.Redis.World.{World}
use shex.Redis.Memory.{Store, Memory, lasting, memory, find}
use shex.Transport.{RedisTransport, endpoint, send_frame, recv_frame, acknowledge}
use shex.Transport.Mailbox.{CanSend, shown, woken}
use shex.Transport.Sending.{send_frame-total}
use shex.Transport.Receiving.{acknowledge-other}
use shex.Transport.Delivery.{Facing, at_receiver, send-recv-acknowledge}
use shex.Host.{register}
use shex.Host.Ownership.{register-taken}

abbrev pub host : Bytes
host = codes "fox"

abbrev pub mailbox : Bytes
mailbox = codes "shex:v2:fox:message:c2h:ab"

abbrev pub world : Store → World Memory
world db = record { db = lasting db; clock = 0; turns = [] }

abbrev pub client_end : Store → RedisTransport Memory
client_end db =
    endpoint memory (world db) mailbox (codes "shex:v2:fox:message:h2c:ab")
      (some (codes "shex:v2:fox:wake"))

abbrev pub server_end : Store → RedisTransport Memory
server_end db = endpoint memory (world db) (codes "shex:v2:fox:message:h2c:ab") mailbox none

ready-apart : ready_key mailbox ≢ mailbox
unfolding eq ready_key
ready-apart = eq-ne (ready_key mailbox) mailbox refl

wake-apart : codes "shex:v2:fox:wake" ≢ mailbox
unfolding eq
wake-apart = eq-ne (codes "shex:v2:fox:wake") mailbox refl

wake-ready : codes "shex:v2:fox:wake" ≢ ready_key mailbox
unfolding eq ready_key
wake-ready = eq-ne (codes "shex:v2:fox:wake") (ready_key mailbox) refl

pub sending : CanSend memory (client_end [])
unfolding find
sending = record {
  quiet = refl;
  apart = ready-apart;
  signals = refl;
  queue_apart = λ q e. rw (← some-inj e) (wake-apart, wake-ready, refl);
}

abbrev pub frame : Bytes
frame = codes "hi"

abbrev full : Store
full = (mailbox, text frame) ∷ (ready_key mailbox, items (codes "1" ∷ [])) ∷ []

-- what a server at `db` has read and not acknowledged
abbrev reading : Store → RedisTransport Memory
reading db = record (server_end db) { pending = some frame }

-- the client's mailbox with a message that lives for another 35 milliseconds
abbrev waiting : RedisTransport Memory
waiting = record (client_end full) {
  connection = record {
    db = record { keys = full; lives = λ j. if eq j mailbox then some 35 else none };
    clock = 0;
    turns = [];
  };
}

send_frame-total_example : (send_frame memory frame (client_end full)).0 ≢ err fuel_exhausted
send_frame-total_example = send_frame-total memory frame (client_end full)

frame-ne : ◌≢◌ {A = Option Bytes} none (some frame)
frame-ne e = cc

acknowledge-other_example :
    ((acknowledge memory (reading [])).0 ≡ err message_changed)
    × ((acknowledge memory (reading [])).1.pending ≡ none)
    × ((j : Bytes)
        → shown memory (acknowledge memory (reading [])).1 j ≡ shown memory (reading []) j)
unfolding find
acknowledge-other_example =
    acknowledge-other memory frame (reading []) {found = none} refl refl refl frame-ne

pub Facing-ends : Facing memory (client_end []) (server_end [])
unfolding find
Facing-ends = record {
  sender = sending;
  mailbox = refl;
  signals = refl;
  idle = refl;
  empty = refl;
  silent = refl;
}

send-recv-acknowledge_example :
    ((recv_frame memory (at_receiver memory frame (client_end []) (server_end []))).0 ≡ ok frame)
    × ((acknowledge memory
          (recv_frame memory (at_receiver memory frame (client_end []) (server_end []))).1).0
        ≡ ok tt)
    × ((j : Bytes)
        → shown memory
            (acknowledge memory
              (recv_frame memory (at_receiver memory frame (client_end []) (server_end []))).1).1
            j
          ≡ woken
              (some (codes "shex:v2:fox:wake"))
              (last_segment mailbox)
              (shown memory (client_end []))
              j)
send-recv-acknowledge_example =
    send-recv-acknowledge memory frame (client_end []) (server_end []) Facing-ends (omega arith)

pub fox-IsHostname : IsHostname host
unfolding hostname_byte
fox-IsHostname = record { nonempty = omega arith; short = omega arith; bytes = refl }

abbrev owned : Store
owned = (host_key host, text (codes "key")) ∷ []

register-taken_example :
    ((register memory host (codes "other") (world owned)).0 ≡ (
      if eq (codes "key") (codes "other")
      then ok (record {
        hostname = host;
        connection = (register memory host (codes "other") (world owned)).1;
      })
      else err hostname_owned))
    × ((j : Bytes)
        → memory.lookup (register memory host (codes "other") (world owned)).1.db j
          ≡ memory.lookup (lasting owned) j)
unfolding find host_key eq
register-taken_example =
    register-taken memory host (codes "other") (world owned) refl fox-IsHostname (codes "key") refl
