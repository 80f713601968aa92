-- ===== src/Server/Persist/Crash.antt =====
-- server/server.go: a start after a crash, on the journal as the crash left it.
use mathlib.Core.Path.{subst}
use wjetcd.Common.{
  ℕ, suc, ◌≡◌, refl, sym, ap, ◌∙◌, arith, Bool, true, false, inl, inr, ◌⊎◌, Bool-cases,
  Option-cases, ByteString, List, [], ◌∷◌, ◌++◌, map, append_empty, ++-assoc, Option, some, ℤ, pos,
  if◌then◌else◌, ◌||◌, All, All-append, ltb_ℤ, eq_of_parts,
}
use wjetcd.Command.{Command}
use wjetcd.Storage.Wal.{
  File, Wal, Result, success, failure, Appending, synced, write_entry, write, read_entries,
  read_entries_from, file_id, decode_from, decode_entries, at_boundary, read_all,
}
use wjetcd.Storage.Wal.Records.{IsCodec, Holds, added, write_entry-content}
use wjetcd.Storage.Wal.Remains.{from_start, append_all, recorded, arrives, finally}
use wjetcd.Storage.Wal.Torn.{append_survives}
use wjetcd.Storage.Snapshot.{Snapshot, load_from_file}
use wjetcd.Server.State.{Machine, Server, new_machine}
use wjetcd.Server.Recovery.{recovered, apply_recovered_command, replay_entries}
use wjetcd.Server.Decode.{Payload, command_from_value}
use wjetcd.Server.Loop.{stamp, server_of, apply_command}
use wjetcd.Server.Journal.{IsSound, IsPossible, IsRecorded, dated, Recovered-cases, replays-step}
use wjetcd.Server.Persist.Start.{
  opened_wal, opened_snapshot, start-loaded, start-unreadable, start-unrestored,
}
use wjetcd.Server.Persist.{
  Codecs, start, restore_snapshot, replay_journal, replay_suffix, replay_result, replay_values,
  suffix_offset,
}

abbrev pub empty_file : ByteString → File
empty_file id = record { content = []; file_id = id }

recovered-injective : {a b : Machine} → recovered a ≡ recovered b → a ≡ b
recovered-injective e = cc

Result-cases {ℓ} :
    {A : Type ℓ} (r : Result A) → ((e : _) × (r ≡ failure e)) ⊎ ((a : A) × (r ≡ success a))
Result-cases (success a) = inr (a, refl)
Result-cases (failure e) = inl (e, refl)

map-append {ℓ κ} :
    {A : Type ℓ} {B : Type κ} (f : A → B) (xs ys : List A) → map f (xs ++ ys) ≡ map f xs ++ map f ys
map-append f [] ys = refl
map-append f (x ∷ xs) ys = ap (λ l. f x ∷ l) (map-append f xs ys)

module _ (codecs : Codecs) (clock : ℕ → ℤ) (marshal : Command → Option ByteString)
    (view : Command → Payload) where
  -- In an empty journal only the offset 0 is accepted.
  from_empty :
      (m m0 : Machine) (id : ByteString) (offset : ℤ)
      → replay_result clock m
          (read_entries_from codecs.unmarshal_entry true offset (opened_wal (empty_file id)))
        ≡ recovered m0
      → (offset ≡ pos 0) × (m ≡ m0)
  unfolding read_entries_from read_all decode_from at_boundary decode_entries replay_result
      replay_values
  from_empty m m0 id offset e = elim (Bool-cases (ltb_ℤ offset (pos 0) || ltb_ℤ (pos 0) offset)) [
    | inl out ↦ cc (rw (read_entries_from, decode_from, out) at e)
    | inr within ↦
        let zero_offset : offset ≡ pos 0 = eq_of_parts offset (pos 0) (ground (arith, within)) in
        (
          zero_offset,
          recovered-injective (
              subst
                (λ n.
                  replay_result clock m (decode_from codecs.unmarshal_entry n []) ≡ recovered m0)
                zero_offset e),
        )
  ]

  journal_from :
      (id : ByteString) (m0 : Machine) (f : File)
      → f.file_id ≡ id
      → (flag : Bool) (m : Machine) (sn : Snapshot)
      → replay_journal codecs true true clock m flag (some sn) (some (opened_wal (empty_file id)))
        ≡ recovered m0
      → replay_journal codecs true true clock m flag (some sn) (some (opened_wal f))
        ≡ replay_result clock m0 (read_entries codecs.unmarshal_entry true (opened_wal f))
  unfolding replay_journal replay_suffix file_id
  journal_from id m0 f same true m sn e =
      let at = λ (n : ℤ). read_entries_from codecs.unmarshal_entry true n (opened_wal f) in
      let (zero_offset, kept) = from_empty m m0 id (suffix_offset sn id) e in
      ap (λ i. replay_result clock m (at (suffix_offset sn i))) same
      ∙ ap (λ n. replay_result clock m (at n)) zero_offset
      ∙ ap (replay_result clock m)
          (sym (from_start marshal codecs.unmarshal_entry view (opened_wal f)))
      ∙ ap (λ k. replay_result clock k (read_entries codecs.unmarshal_entry true (opened_wal f)))
          kept
  journal_from id m0 f same false m sn e =
      let empty = opened_wal (empty_file id) in
      let (zero_offset, kept) = from_empty m m0 id (pos 0) (
        ap (replay_result clock m) (sym (from_start marshal codecs.unmarshal_entry view empty))
        ∙ e) in
      ap (λ k. replay_result clock k (read_entries codecs.unmarshal_entry true (opened_wal f))) kept

  -- If a start on an empty journal gives a machine, then on another journal of the same identity
  -- the whole of it is replayed from that machine.
  start-journal :
      (id : ByteString) (stored : ByteString) (m0 : Machine) (f : File)
      → start codecs clock (empty_file id) stored ≡ recovered m0
      → f.file_id ≡ id
      → start codecs clock f stored
        ≡ replay_result clock m0 (read_entries codecs.unmarshal_entry true (opened_wal f))
  start-journal id stored m0 f base same =
      elim (Result-cases (load_from_file codecs.decode_string codecs.parse_saved stored)) [
        | inl (e, bad) ↦ cc (base, start-unreadable codecs clock (empty_file id) stored bad)
        | inr (fields, loads) ↦
            elim (Option-cases
              (restore_snapshot codecs new_machine (some (opened_snapshot fields stored)))) [
                | inl none_left ↦ cc (
                  base,
                  start-unrestored codecs clock (empty_file id) stored fields loads none_left,
                )
                | inr ((m, flag), restored) ↦
                    let on = λ (g : File).
                      start-loaded codecs clock g stored fields m flag loads restored in
                    on f
                    ∙ journal_from id m0 f same flag m (opened_snapshot fields stored)
                        (sym (on (empty_file id)) ∙ base)
              ]
      ]

  -- A command that its record in the journal gives back.
  pub record IsJournalled (cmd : Command) : Type 0 where
    pub line : ByteString
    pub encoded : marshal cmd ≡ some line
    pub back : command_from_value (view cmd) ≡ some cmd

  pub replay_values-view :
      (log : List Command) (n : ℕ) (m : Machine)
      → All IsJournalled log
      → replay_values clock n m (map view log) ≡ replay_entries m (dated clock n log)
  unfolding replay_values replay_entries
  replay_values-view [] n m h = refl
  replay_values-view (cmd ∷ rest) n m h =
      elim (Recovered-cases (apply_recovered_command (clock n) m cmd)) [
        | inl f ↦ rw (replay_values, h.0.back, replay_entries, f) refl
        | inr (inl f) ↦ rw (replay_values, h.0.back, replay_entries, f) refl
        | inr (inr (m', f)) ↦
            rw (replay_values, h.0.back, replay_entries, f) (replay_values-view rest (suc n) m' h.1)
      ]

  recorded-view :
      (log : List Command) (es : List Payload)
      → All IsJournalled log
      → recorded marshal view log es ≡ es ++ map view log
  recorded-view [] es h = sym (append_empty es)
  recorded-view (cmd ∷ rest) es h =
      let more = ap (λ o. recorded marshal view rest (added o (view cmd) es)) h.0.encoded in
      more
      ∙ recorded-view rest (es ++ view cmd ∷ []) h.1
      ∙ ++-assoc es (view cmd ∷ []) (map view rest)

  same_file :
      (how : Appending) (cmd : Command) (w : Wal)
      → ((write_entry marshal how cmd w).0.file.file_id ≡ w.file.file_id)
        × ((write_entry marshal how cmd w).0.is_open ≡ w.is_open)
  unfolding write_entry write
  same_file how cmd w = elim (Option-cases (marshal cmd)) [
    | inl e ↦ rw (write_entry, e) (refl, refl)
    | inr (line, e) ↦ elim (Bool-cases w.is_open) [
      | inl o ↦
          let written =
            write_entry-content marshal codecs.unmarshal_entry view how w cmd line o e in
          (ap (λ v. v.file.file_id) written, ap (λ v. v.is_open) written)
      | inr c ↦ rw (write_entry, e, write, c) (refl, refl)
    ]
  ]

  same_file_all :
      (log : List Command) (w : Wal)
      → ((append_all marshal log w).file.file_id ≡ w.file.file_id)
        × ((append_all marshal log w).is_open ≡ w.is_open)
  same_file_all [] w = (refl, refl)
  same_file_all (cmd ∷ rest) w =
      let one = same_file synced cmd w in
      let all = same_file_all rest (write_entry marshal synced cmd w).0 in
      (all.0 ∙ one.0, all.1 ∙ one.1)

  -- The records that a crash leaves are replayed.
  replay_finally :
      (how : Appending) (line : ByteString) (log : List Command) (cmd : Command) (m0 : Machine)
      → All IsJournalled log
      → IsJournalled cmd
      → replay_values clock 0 m0 (finally how line (view cmd) (recorded marshal view log [])) ≡ (
          if arrives how line
          then replay_entries m0 (dated clock 0 (log ++ cmd ∷ []))
          else replay_entries m0 (dated clock 0 log))
  replay_finally how line log cmd m0 h one =
      let before = recorded-view log [] h in
      let after = ap (λ es. es ++ view cmd ∷ []) before ∙ sym (map-append view log (cmd ∷ [])) in
      elim (Bool-cases (arrives how line)) [
        | inl t ↦ rw t (
            ap (replay_values clock 0 m0) after
            ∙ replay_values-view (log ++ cmd ∷ []) 0 m0
                (All-append IsJournalled log (cmd ∷ []) h (one, tt)))
        | inr f ↦ rw f (ap (replay_values clock 0 m0) before ∙ replay_values-view log 0 m0 h)
      ]

-- A sound server has journalled its commands into a file that was empty when it started, and its
-- process dies while it writes the record of one more possible command, after any number of bytes.
-- A start on the file gives the machine before the command, or the one that the loop reaches with
-- it, where the record and its newline are in the file whole. The conditions: a start on the empty
-- journal gives the machine from which the server's commands were journalled, and each journalled
-- command is what its record decodes to.
pub crash_recovers :
    (codecs : Codecs) (clock : ℕ → ℤ) (marshal : Command → Option ByteString)
    (view : Command → Payload) (m0 : Machine) (w : Wal) (stored : ByteString) (s : Server)
    (now index : ℤ) (cmd : Command) (how : Appending)
    → IsCodec marshal codecs.unmarshal_entry view
    → Holds marshal codecs.unmarshal_entry view [] w
    → start codecs clock (empty_file w.file.file_id) stored ≡ recovered m0
    → IsSound s
    → (r : IsRecorded clock m0 s) → IsPossible now s cmd
    → All (IsJournalled codecs clock marshal view) r.log
    → (j : IsJournalled codecs clock marshal view (stamp now s.machine cmd).1)
    → let stamped = (stamp now s.machine cmd).1 in
      let w' = (write_entry marshal how stamped (append_all marshal r.log w)).0 in
      start codecs clock w'.file stored
      ≡ recovered (
          if arrives how j.line
          then (server_of (apply_command now true index s cmd)).machine
          else s.machine)
unfolding replay_result
crash_recovers codecs clock marshal view m0 w stored s now index cmd how codec h base v r p js j =
    let stamped = (stamp now s.machine cmd).1 in
    let w1 = append_all marshal r.log w in
    let w' = (write_entry marshal how stamped w1).0 in
    let one = same_file codecs clock marshal view how stamped w1 in
    let all = same_file_all codecs clock marshal view r.log w in
    let opened : w'.is_open ≡ true = one.1 ∙ all.1 ∙ h.opened in
    let reopened : opened_wal w'.file ≡ w' =
      ap (λ b. record { file = w'.file; is_open = b }) (sym opened) in
    let read =
      append_survives marshal codecs.unmarshal_entry view codec [] w r.log how stamped j.line h
        j.encoded in
    start-journal codecs clock marshal view w.file.file_id stored m0 w'.file base (one.0 ∙ all.0)
    ∙ ap (λ q. replay_result clock m0 (read_entries codecs.unmarshal_entry true q)) reopened
    ∙ ap (replay_result clock m0) read.0
    ∙ replay_finally codecs clock marshal view how j.line r.log stamped m0 js j
    ∙ elim (Bool-cases (arrives how j.line)) [
      | inl t ↦ rw t (replays-step clock m0 now index s cmd v p r)
      | inr f ↦ rw f r.replays
    ]
