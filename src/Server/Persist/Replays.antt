-- ===== src/Server/Persist/Replays.antt =====
-- server/server.go: what `replayEntries` makes of the records that the loop wrote.
use wjetcd.Common.{ℕ, ◌≡◌, ap, ◌∙◌, sym, true, ByteString, List, map, Option, some, ℤ, All}
use wjetcd.Command.{Command}
use wjetcd.Server.State.{Machine, Server}
use wjetcd.Server.Recovery.{recovered, replay_entries}
use wjetcd.Server.Decode.{Payload}
use wjetcd.Server.Loop.{server_of, apply_command}
use wjetcd.Server.Journal.{IsSound, IsPossible, IsRecorded, Run, dated, journal_replays}
use wjetcd.Server.Persist.{Codecs, replay_values}
use wjetcd.Server.Persist.Crash.{IsJournalled, replay_values-view}

same_log : {a b : List Command} → some a ≡ some b → a ≡ b
same_log e = cc

-- From a sound server whose journal replays to its machine, the loop goes through any number of
-- possible commands and then one more, after which it may hang. The condition is that each command
-- of the journal then is what its record decodes to, where numbers are float64. If the process dies,
-- the decoded records replay from the same start to the machine that the loop reached, whatever
-- times the replay reads from the clock.
pub run_replays :
    (codecs : Codecs) (clock : ℕ → ℤ) (marshal : Command → Option ByteString)
    (view : Command → Payload) (m0 : Machine) (s t : Server) (now index : ℤ) (cmd : Command)
    (log : List Command)
    → IsSound s
    → IsRecorded clock m0 s
    → Run s t
    → IsPossible now t cmd
    → (server_of (apply_command now true index t cmd)).wal ≡ some log
    → All (IsJournalled codecs clock marshal view) log
    → replay_values clock 0 m0 (map view log)
      ≡ recovered (server_of (apply_command now true index t cmd)).machine
run_replays codecs clock marshal view m0 s t now index cmd log v r run p written back =
    let (sound, r') = journal_replays clock m0 s t now index cmd v r run p in
    let same = same_log (sym written ∙ r'.written) in
    replay_values-view codecs clock marshal view log 0 m0 back
    ∙ ap (λ l. replay_entries m0 (dated clock 0 l)) same
    ∙ r'.replays
