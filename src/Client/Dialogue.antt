-- ===== src/Client/Dialogue.antt =====
-- `interactive` and `client_channel` of `src/main.rs`, against a host that is played from a list.
use shex.Prelude.{
  ◌≡◌, ◌≢◌, refl, ◌∙◌, sym, ◌≤◌, suc, Bool-cases, inl, inr, some, List, [], ◌∷◌, ◌++◌, Bytes, codes,
  eq, eq_iff, length, if◌then◌else◌, arith, append_assoc, append-nil,
}
use shex.Result.{Error, Result, ok, err, Exec, ◌>>◌, ok-inj}
use shex.Shell.Status.{ℤ}
use shex.Protocol.{ClientRequest, ServerReply, run, disconnect, hello, output, error}
use shex.Client.{ClientChannel, Client, trim_end, greet, run_line, on_line, read_lines, interactive}

pub data Event : Type 0 where
  asked : ClientRequest → Event
  heard : ServerReply → Event
  confirmed : Event

-- A host that gives the replies of a list; `closing` is the error of the channel after them.
pub record Script : Type 0 where
  pub incoming : List ServerReply
  pub closing : Error
  pub log : List Event

abbrev pub noted : Event → Script → Script
noted e s = record s { log = s.log ++ e ∷ [] }

abbrev take_reply : List ServerReply → Exec Script ServerReply
take_reply [] s = (err s.closing, s)
take_reply (r ∷ rs) s = (ok r, noted (heard r) (record s { incoming = rs }))

abbrev pub scripted : ClientChannel Script
scripted = record {
  send = λ q s. (ok tt, noted (asked q) s);
  recv_unacknowledged = λ s. take_reply s.incoming s;
  acknowledge = λ s. (ok tt, noted confirmed s);
  wait_indefinitely = λ s. s;
}

-- the commands of the lines, up to an `exit`
abbrev pub commands : List Bytes → List Bytes
commands [] = []
commands (line ∷ lines) =
    let rest = commands lines in
    let command = trim_end line in
    if eq command (codes "exit") then [] else if eq command [] then rest else command ∷ rest

-- the replies that a command has
pub data IsAnswer : ServerReply → Type 0 where
  ran : (text : Bytes) (status : ℤ) → IsAnswer (output text status)
  failed : (message : Bytes) → IsAnswer (error message)

pub data AreAnswers : List ServerReply → Type 0 where
  no_answers : AreAnswers []
  more_answers :
      {r : ServerReply} {rs : List ServerReply} → IsAnswer r → AreAnswers rs → AreAnswers (r ∷ rs)

-- the exchanges of commands with replies, and the end
abbrev pub dialogue : List Bytes → List ServerReply → List Event
dialogue [] rs = asked disconnect ∷ []
dialogue (c ∷ cs) [] = asked (run c) ∷ []
dialogue (c ∷ cs) (r ∷ rs) = asked (run c) ∷ heard r ∷ confirmed ∷ dialogue cs rs

-- the output that the user sees
abbrev pub outputs : List Bytes → List ServerReply → Bytes
outputs [] rs = []
outputs (c ∷ cs) [] = []
outputs (c ∷ cs) (output text status ∷ rs) = text ++ outputs cs rs
outputs (c ∷ cs) (_ ∷ rs) = outputs cs rs

abbrev pub hearing : List ServerReply → Error → List Event → Bytes → Bytes → Client Script
hearing replies closing log printed complained = record {
  channel = record { incoming = replies; closing = closing; log = log };
  printed = printed;
  complained = complained;
}

log-next :
    (log : List Event) (a b c : Event) (events : List Event)
    → (((log ++ a ∷ []) ++ b ∷ []) ++ c ∷ []) ++ events ≡ log ++ a ∷ b ∷ c ∷ events
log-next log a b c events = simp append_assoc

-- What the user's commands have come to.
abbrev pub Spoken :
    List Bytes → List ServerReply → List Event → Bytes → Result (Unit {0}) × Client Script → Type 0
Spoken cs replies log printed (result, s) =
    (result ≡ ok tt)
    × (s.channel.log ≡ log ++ dialogue cs replies)
    × (s.printed ≡ printed ++ outputs cs replies)

-- one exchange in front of others
run_line-next :
    (command : Bytes) (cs : List Bytes) (again : Exec (Client Script) (Unit {0}))
    (replies : List ServerReply) (closing : Error) (log : List Event) (printed complained : Bytes)
    → AreAnswers replies
    → suc (length cs) ≤ length replies
    → ((rs : List ServerReply) (log : List Event) (printed complained : Bytes)
        → AreAnswers rs
        → length cs ≤ length rs
        → Spoken cs rs log printed (again (hearing rs closing log printed complained)))
    → Spoken
        (command ∷ cs)
        replies
        log
        printed
        ((run_line scripted command >> again) (hearing replies closing log printed complained))
unfolding run_line
run_line-next command cs again [] closing log printed complained fit enough then' =
    absurd (omega arith)
run_line-next command cs again (_ ∷ rs) closing log printed complained
      (more_answers (ran text status) fit) enough then' =
    let (ends, written, shown) = then' rs _ _ complained fit (omega arith) in
    (ends, written ∙ log-next log _ _ _ _, shown ∙ append_assoc printed text _)
run_line-next command cs again (_ ∷ rs) closing log printed complained
      (more_answers (failed message) fit) enough then' =
    let (ends, written, shown) = then' rs _ _ _ fit (omega arith) in
    (ends, written ∙ log-next log _ _ _ _, shown)

read_lines-Spoken :
    (lines : List Bytes) (closing : Error) (replies : List ServerReply) (log : List Event)
    (printed complained : Bytes)
    → AreAnswers replies
    → length (commands lines) ≤ length replies
    → Spoken
        (commands lines)
        replies
        log
        printed
        (read_lines scripted lines (hearing replies closing log printed complained))
unfolding read_lines on_line
read_lines-Spoken [] closing replies log printed complained fit enough =
    (refl, refl, sym (append-nil printed))
read_lines-Spoken (line ∷ lines) closing replies log printed complained fit enough =
    elim (Bool-cases (eq (trim_end line) (codes "exit"))) [
      | inl exits ↦ rw exits (refl, refl, sym (append-nil printed))
      | inr stays ↦ elim (Bool-cases (eq (trim_end line) [])) [
        | inl blank ↦
            rw (stays, blank)
              (read_lines-Spoken lines closing replies log printed _ fit
                (rw (stays, blank) at enough))
        | inr asks ↦
            rw (stays, asks)
              (run_line-next (trim_end line) (commands lines) (read_lines scripted lines) replies
                closing log printed _ fit (rw (stays, asks) at enough)
                (read_lines-Spoken lines closing))
      ]
    ]

-- A user who types lines to a host that answers has each command, which is a line that is neither
-- empty nor behind an `exit`, sent in order without the white space at its end, its reply confirmed
-- before the next is sent, and the connection closed at the end; stdout has the outputs in order.
pub interactive-Spoken :
    (lines : List Bytes) (closing : Error) (replies : List ServerReply) (log : List Event)
    (printed complained : Bytes)
    → AreAnswers replies
    → length (commands lines) ≤ length replies
    → Spoken
        (commands lines)
        replies
        log
        printed
        (interactive scripted lines (hearing replies closing log printed complained))
unfolding interactive
interactive-Spoken lines closing replies log printed complained fit enough =
    read_lines-Spoken lines closing replies log printed complained fit enough

clash : {e : Error} {b : Bytes} → ◌≢◌ {A = Result Bytes} (err e) (ok b)
clash e = cc

-- An auth file pins the host: a channel is handed out only if the host's greeting is the signature
-- of the file.
greet-pinned :
    (expected : Bytes) {signature : Bytes} (replies : List ServerReply) (closing : Error)
    (log : List Event) (printed complained : Bytes)
    → (greet scripted (some expected) (hearing replies closing log printed complained)).0
      ≡ ok signature
    → (signature ≡ expected) × (rest : List ServerReply) × (replies ≡ hello expected ∷ rest)
unfolding greet
greet-pinned expected [] closing log printed complained h = absurd (cc)
greet-pinned expected (hello s ∷ rs) closing log printed complained h =
    elim (Bool-cases (eq expected s)) [
      | inl same ↦
          let e : s ≡ expected = sym ((eq_iff expected s).0 same) in
          (sym (ok-inj (rw same at h)) ∙ e, rs, rw e refl)
      | inr other ↦ absurd (clash (rw other at h))
    ]
greet-pinned expected (_ ∷ rs) closing log printed complained h = absurd (cc)
