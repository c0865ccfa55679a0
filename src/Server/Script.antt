-- ===== src/Server/Script.antt =====
-- A channel that is played from a list of requests and writes down what the host does on it.
use shex.Prelude.{List, [], ◌∷◌, ◌++◌}
use shex.Result.{Error, ok, err, Exec}
use shex.Protocol.{ClientRequest, ServerReply}
use shex.Server.{ServerChannel}

pub data Event : Type 0 where
  received : ClientRequest → Event
  acknowledged : Event
  sent : ServerReply → Event

-- `closing` is the error of the channel once the requests have come to an end.
pub record Script : Type 0 where
  pub incoming : List ClientRequest
  pub closing : Error
  pub log : List Event

abbrev pub noted : Event → Script → Script
noted e s = record s { log = s.log ++ e ∷ [] }

abbrev take_request : List ClientRequest → Exec Script ClientRequest
take_request [] s = (err s.closing, s)
take_request (q ∷ qs) s = (ok q, noted (received q) (record s { incoming = qs }))

abbrev pub scripted : ServerChannel Script
scripted = record {
  send = λ r s. (ok tt, noted (sent r) s);
  recv_unacknowledged = λ s. take_request s.incoming s;
  acknowledge = λ s. (ok tt, noted acknowledged s);
  wait_indefinitely = λ s. s;
}
