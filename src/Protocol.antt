-- ===== src/Protocol.antt =====
-- `src/protocol.rs`: what a client asks and what the host replies.
use shex.Prelude.{Bool, Option, Bytes}
use shex.Shell.Status.{ℤ}

pub data ClientRequest : Type 0 where
  open_ : Option Bytes → Bool → ClientRequest
  run : Bytes → ClientRequest
  delete_session : Bytes → ClientRequest
  ping disconnect : ClientRequest

pub data ServerReply : Type 0 where
  hello : Bytes → ServerReply
  opened : Bytes → ServerReply
  deleted : Bytes → ServerReply
  pong : ServerReply
  output : Bytes → ℤ → ServerReply
  error : Bytes → ServerReply
