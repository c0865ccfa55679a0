-- ===== src/Tests/Terminal.antt =====
-- A user types lines, and runs a command.
use shex.Prelude.{◌≡◌, refl, Bytes, codes, List, [], ◌∷◌, arith, eq}
use shex.Result.{io, unexpected_eof}
use shex.Shell.Status.{pos}
use shex.Protocol.{ServerReply, output, error}
use shex.Client.{interactive, trim_end}
use shex.Client.Dialogue.{
  scripted, commands, hearing, Spoken, AreAnswers, no_answers, more_answers, ran, failed,
  interactive-Spoken,
}

abbrev typed : List Bytes
typed = codes "date \n" ∷ codes " \n" ∷ codes "ls\n" ∷ codes "exit\n" ∷ codes "w\n" ∷ []

abbrev replies : List ServerReply
replies = output (codes "now\n") (pos 0) ∷ error (codes "no") ∷ []

commands_run : commands typed ≡ codes "date" ∷ codes "ls" ∷ []
unfolding trim_end eq
commands_run = refl

answers : AreAnswers replies
answers = more_answers (ran (codes "now\n") (pos 0)) (more_answers (failed (codes "no")) no_answers)

interactive-Spoken_example :
    Spoken
      (commands typed)
      replies
      []
      []
      (interactive scripted typed (hearing replies (io unexpected_eof) [] [] []))
unfolding trim_end eq
interactive-Spoken_example =
    interactive-Spoken typed (io unexpected_eof) replies [] [] [] answers (omega arith)

abbrev arguments : List Bytes
arguments = codes "fox" ∷ codes "--" ∷ codes "date" ∷ []
