-- ===== src/Tests/Sealed.antt =====
-- The encrypted channel, with a cipher that hides nothing and texts as its messages.
use shex.Prelude.{
  ◌≡◌, ◌≢◌, ◌<◌, ◌^◌, refl, sym, Bytes, codes, ◌++◌, [], some, arith, length, if◌then◌else◌, eq,
}
use shex.Result.{Result, ok, err, is_ok, not_acknowledged}
use shex.Keys.{last_segment}
use shex.Transport.{RedisTransport}
use shex.Transport.Mailbox.{shown, woken}
use shex.Redis.Memory.{Memory, memory}
use shex.Channel.{
  FrameTransport, Crypto, Codec, SecureChannel, nonce, client, server, send, recv, client_label,
  server_label, checked_add_one, new,
}
use shex.Channel.Nonce.{FrameOf, one, send_counter_lem, length-nonce, SendsTo-nonce}
use shex.Channel.Pairing.{Paired, client-server-Paired, send-recv}
use shex.Channel.RedisFrames.{redis_frames, at_peer, send-recv_over_redis}
use shex.Tests.Mailbox.{client_end, server_end, mailbox, frame, Facing-ends}

abbrev crypto : Crypto
crypto = record {
  expand = λ key label. some (key ++ label);
  encrypt = λ key nonce aad plain. some plain;
  decrypt = λ key nonce aad encrypted. some encrypted;
  decrypt-encrypt = λ key nonce aad plain e. sym e;
}

abbrev codec : Codec Bytes
codec = record { to_vec = λ a. some a; from_slice = λ b. some b; from_slice-to_vec = λ a e. sym e }

-- a wire that holds the last frame, and is cut when its flag says so
abbrev wire : FrameTransport (Bytes × Result (Unit {0}))
wire = record {
  send_frame = λ f t. (t.1, (f, ok tt));
  recv_frame = λ t. (ok t.0, t);
  acknowledge = λ t. (ok tt, ([], t.1));
  wait_indefinitely = λ t. t;
}

abbrev at_end : {T : Type 0} → T → Bytes → Bytes → SecureChannel T
at_end t out back = record {
  transport = t;
  send_cipher = codes "k" ++ out;
  recv_cipher = codes "k" ++ back;
  send_counter = 0;
  recv_counter = 0;
  send_label = out;
  recv_label = back;
}

abbrev client_side : {T : Type 0} → T → SecureChannel T
client_side t = at_end t client_label server_label

abbrev server_side : {T : Type 0} → T → SecureChannel T
server_side t = at_end t server_label client_label

length-nonce_example : length (nonce 258) ≡ 12
length-nonce_example = length-nonce 258

abbrev idle : Bytes × Result (Unit {0})
idle = ([], ok tt)

abbrev cut : Bytes × Result (Unit {0})
cut = ([], err not_acknowledged)

send_counter_lem_example :
    let r = send crypto wire codec frame (client_side idle) in
    (r.1.send_counter ≡ (if is_ok r.0 then 1 else 0))
    × (r.1.send_counter < 2 ^ 64)
    × (r.1.send_cipher ≡ codes "kclient->server")
    × (r.1.send_label ≡ client_label)
    × (r.1.recv_cipher ≡ codes "kserver->client")
    × (r.1.recv_label ≡ server_label)
    × (r.1.recv_counter ≡ 0)
send_counter_lem_example = send_counter_lem crypto wire codec (client_side idle) frame (omega arith)

send_run :
    send crypto wire codec frame (client_side idle)
    ≡ (ok tt, record (client_side (frame, ok tt)) { send_counter = 1 })
unfolding send checked_add_one
send_run = refl

SendsTo-nonce_example : nonce 0 ≢ nonce 1
SendsTo-nonce_example =
    SendsTo-nonce crypto wire codec
      {last = record (client_side (frame, ok tt)) { send_counter = 1 }} {ch = client_side idle}
      (one frame send_run)

sealed_frame : {T : Type 0} (t : T) → FrameOf crypto codec (client_side t) frame frame
sealed_frame t = record { plain = frame; written = refl; encrypted = refl }

client_run : client crypto idle (codes "k") ≡ ok (client_side idle)
unfolding client new eq
client_run = refl

server_run : server crypto idle (codes "k") ≡ ok (server_side idle)
unfolding server new eq
server_run = refl

client-server-Paired_example :
    Paired (client_side idle) (server_side idle)
    × Paired (server_side idle) (client_side idle)
    × (client_label ≢ server_label)
client-server-Paired_example =
    client-server-Paired crypto idle idle (codes "k") (client_side idle) (server_side idle)
      client_run server_run

paired : {T U : Type 0} (t : T) (u : U) → Paired (client_side t) (server_side u)
paired t u = record { cipher = refl; label = refl; counter = refl }

send-recv_example :
    ((send crypto wire codec frame (client_side idle)).0 ≡ ok tt)
    × ((recv crypto wire codec (server_side (frame, ok tt))).0 ≡ ok frame)
    × Paired
        (send crypto wire codec frame (client_side idle)).1
        (recv crypto wire codec (server_side (frame, ok tt))).1
    × ((recv crypto wire codec (server_side (frame, ok tt))).1.transport ≡ ([], ok tt))
send-recv_example =
    send-recv crypto wire codec wire (client_side idle) (server_side (frame, ok tt)) frame frame
      (frame, ok tt) (frame, ok tt) ([], ok tt) (paired idle (frame, ok tt)) (sealed_frame idle)
      refl refl refl (omega arith)

abbrev asker : SecureChannel (RedisTransport Memory)
asker = client_side (client_end [])

abbrev answerer : SecureChannel (RedisTransport Memory)
answerer = at_peer memory crypto codec asker (server_side (server_end [])) frame

send-recv_over_redis_example :
    ((send crypto (redis_frames memory) codec frame asker).0 ≡ ok tt)
    × ((recv crypto (redis_frames memory) codec answerer).0 ≡ ok frame)
    × Paired
        (send crypto (redis_frames memory) codec frame asker).1
        (recv crypto (redis_frames memory) codec answerer).1
    × ((j : Bytes)
        → shown memory (recv crypto (redis_frames memory) codec answerer).1.transport j
          ≡ woken
              (some (codes "shex:v2:fox:wake"))
              (last_segment mailbox)
              (shown memory (client_end []))
              j)
send-recv_over_redis_example =
    send-recv_over_redis memory crypto codec asker (server_side (server_end [])) frame frame
      (paired (client_end []) (server_end [])) Facing-ends (sealed_frame (client_end []))
      (omega arith) (omega arith)
