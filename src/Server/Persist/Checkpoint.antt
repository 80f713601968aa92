-- ===== src/Server/Persist/Checkpoint.antt =====
-- server/server.go: a start after `savePersistentState`, wherever that stopped.
use mathlib.Core.Path.{subst}
use wjetcd.Common.{
  ℕ, ◌≡◌, ◌≢◌, refl, sym, ap, ◌∙◌, arith, Bool, true, false, inl, inr, ◌⊎◌, Option-cases,
  ByteString, bytes_eq_refl, bytes_eq_iff, List, [], ◌∷◌, Option, some, ℤ, pos, max_ℤ,
  if◌then◌else◌, length,
}
use wjetcd.Command.{Command}
use wjetcd.Storage.Wal.{
  File, Wal, closed, success, failure, Clearing, kept, unopened, replaced, read_entries_from, clear,
  file_id, size,
}
use wjetcd.Storage.Wal.Records.{Holds, exhausted}
use wjetcd.Storage.Wal.Remains.{Clean-end, Clean-Remains, read_entries_from-Remains}
use wjetcd.Storage.Snapshot.{Saved, Snapshot, Saving, load_from_file, save_with_wal}
use wjetcd.Storage.Snapshot.Reopen.{IsExact, IsCodec, save_is_atomic}
use wjetcd.Server.State.{Machine, Server, new_machine}
use wjetcd.Server.Journal.{IsSound, IsRecorded, Run, Run-IsRecorded}
use wjetcd.Server.Recovery.{recovered}
use wjetcd.Server.Decode.{Payload}
use wjetcd.Server.Persist.{
  Codecs, Durable, start, restore_snapshot, replay_journal, replay_suffix, replay_result,
  replay_values, suffix_offset, state_of, save_persistent_state, save_marked, journal_mark,
  clear_journal,
}
use wjetcd.Server.Persist.Start.{opened_snapshot, opened_wal, start-loaded}
use wjetcd.Server.Persist.Snapshots.{
  Encodes, IsKept, rebuilt_machine, restore_state-state_of, filled-bytes_eq,
}

abbrev pub checkpoint_fields : Machine → ByteString → Wal → Saved
checkpoint_fields m content w = record {
  content = content;
  term = pos 0;
  idx = max_ℤ m.current_rev m.store.current_rev;
  wal_offset = pos (length w.file.content);
  wal_id = w.file.file_id;
}

-- The new journal is another file than the old one.
abbrev pub IsNewFile : ByteString → Clearing → Type 0
IsNewFile old kept = Unit {0}
IsNewFile old (unopened id) = old ≢ id
IsNewFile old (replaced id durable) = old ≢ id

-- The file at the journal's path after `Clear`.
abbrev file_after : Clearing → File → File
file_after kept f = f
file_after (unopened id) f = record { content = []; file_id = id }
file_after (replaced id durable) f = record { content = []; file_id = id }

file-clear :
    (how : Clearing) (w : Wal) → w.is_open ≡ true → (clear how w).0.file ≡ file_after how w.file
unfolding clear
file-clear kept w o = rw (clear, o) refl
file-clear (unopened id) w o = rw (clear, o) refl
file-clear (replaced id durable) w o = rw (clear, o) refl

marked :
    (w : Wal)
    → w.is_open ≡ true
    → journal_mark true (some w) ≡ success (w.file.file_id, pos (length w.file.content))
unfolding journal_mark file_id size
marked w o =
    let id : file_id true w ≡ success w.file.file_id =
      ap (λ b. if b then success w.file.file_id else failure closed) o in
    let n : size true w ≡ success (pos (length w.file.content)) =
      ap (λ b. if b then success (pos (length w.file.content)) else failure closed) o in
    rw (journal_mark, id, n) refl

module _ (codecs : Codecs) where
  restore_snapshot-filled :
      (m old : Machine) (sn : Snapshot) (content : ByteString)
      → sn.content ≡ content
      → content ≢ []
      → codecs.unmarshal_state content ≡ some (state_of codecs m)
      → Encodes codecs m
      → IsKept m
      → restore_snapshot codecs old (some sn) ≡ some (rebuilt_machine m, true)
  unfolding restore_snapshot
  restore_snapshot-filled m old sn [] e f back c k = elim (f refl) [ ]
  restore_snapshot-filled m old sn (b ∷ s) e f back c k =
      rw (restore_snapshot, e, back, restore_state-state_of codecs m old c k) refl

  -- Where the journal's part past the snapshot is empty.
  nothing_after :
      (clock : ℕ → ℤ) (m : Machine) (sn : Snapshot) (f : File) (offset : ℤ)
      → suffix_offset sn f.file_id ≡ offset
      → read_entries_from codecs.unmarshal_entry true offset (opened_wal f) ≡ success []
      → replay_suffix codecs true true clock m sn (opened_wal f) ≡ recovered m
  unfolding replay_suffix file_id replay_result replay_values
  nothing_after clock m sn f offset e r = rw (replay_suffix, e, r) refl

  -- What a start on the files finds after the checkpoint, and whether that reported an error.
  abbrev pub Restarts : (ℕ → ℤ) → Machine → Wal → Snapshot → Durable × Bool → Type 0
  Restarts clock m w sn (d, ok) =
      (w' : Wal) × (sn' : Snapshot) × (d ≡ record { wal = some w'; snapshot = some sn' })
      × ((start codecs clock w'.file sn'.stored ≡ start codecs clock w.file sn.stored)
            × (ok ≡ false)
          ⊎ (start codecs clock w'.file sn'.stored ≡ recovered (rebuilt_machine m)))

  module _ (marshal_entry : Command → Option ByteString) (view : Command → Payload)
      (encode_string : ByteString → ByteString)
      (codec : IsCodec codecs.encode_saved codecs.parse_saved encode_string
        codecs.decode_string) where
    -- From the end of a journal of whole records there is nothing to read.
    settled :
        {es : List Payload} {w : Wal}
        → Holds marshal_entry codecs.unmarshal_entry view es w
        → read_entries_from codecs.unmarshal_entry true
            (pos (length w.file.content))
            (opened_wal w.file)
          ≡ success []
    settled {es} {w} h =
        let v = opened_wal w.file in
        let h' : Holds marshal_entry codecs.unmarshal_entry view es v = record {
          lines = h.lines;
          holds = h.holds;
          whole = h.whole;
          opened = refl;
        } in
        let n = length w.file.content in
        read_entries_from-Remains marshal_entry codecs.unmarshal_entry view n [] v (
          Clean-Remains marshal_entry codecs.unmarshal_entry view n [] v
            (Clean-end marshal_entry codecs.unmarshal_entry view es v h'))

    -- The new snapshot with the journal that it was taken with.
    start-uncleared :
        (clock : ℕ → ℤ) (m : Machine) (w : Wal) (es : List Payload) (stored : ByteString)
        → (c : Encodes codecs m) → IsKept m
        → Holds marshal_entry codecs.unmarshal_entry view es w
        → w.file.file_id ≢ []
        → load_from_file codecs.decode_string codecs.parse_saved stored
          ≡ success (checkpoint_fields m c.content w)
        → start codecs clock w.file stored ≡ recovered (rebuilt_machine m)
    unfolding suffix_offset replay_journal
    start-uncleared clock m w es stored c k h named loads =
        let fields = checkpoint_fields m c.content w in
        let sn = opened_snapshot fields stored in
        start-loaded codecs clock w.file stored fields (rebuilt_machine m) true loads
          (restore_snapshot-filled m new_machine sn c.content refl c.filled c.state_back c k)
        ∙ nothing_after clock (rebuilt_machine m) sn w.file (pos (length w.file.content))
            (rw (suffix_offset, filled-bytes_eq w.file.file_id named, bytes_eq_refl w.file.file_id)
              refl)
            (settled h)

    -- The new snapshot with a new journal.
    start-cleared :
        (clock : ℕ → ℤ) (m : Machine) (w : Wal) (id stored : ByteString)
        → (c : Encodes codecs m) → IsKept m
        → w.file.file_id ≢ id
        → load_from_file codecs.decode_string codecs.parse_saved stored
          ≡ success (checkpoint_fields m c.content w)
        → start codecs clock (record { content = []; file_id = id }) stored
          ≡ recovered (rebuilt_machine m)
    unfolding suffix_offset replay_journal
    start-cleared clock m w id stored c k other loads =
        let fields = checkpoint_fields m c.content w in
        let sn = opened_snapshot fields stored in
        let f : File = record { content = []; file_id = id } in
        start-loaded codecs clock f stored fields (rebuilt_machine m) true loads
          (restore_snapshot-filled m new_machine sn c.content refl c.filled c.state_back c k)
        ∙ nothing_after clock (rebuilt_machine m) sn f (pos 0)
            (ground (arith, bytes_eq_iff w.file.file_id id, other))
            (settled {w = opened_wal f}
              (record { lines = []; holds = exhausted; whole = refl; opened = refl }))

    module _ (clock : ℕ → ℤ) (m : Machine) (w : Wal) (sn : Snapshot) (es : List Payload)
        (c : Encodes codecs m) (k : IsKept m)
        (h : Holds marshal_entry codecs.unmarshal_entry view es w)
        (named : w.file.file_id ≢ []) where
      clear_journal-Restarts :
          (clearing : Clearing) (sn' : Snapshot)
          → IsNewFile w.file.file_id clearing
          → load_from_file codecs.decode_string codecs.parse_saved sn'.stored
            ≡ success (checkpoint_fields m c.content w)
          → Restarts clock m w sn
              (clear_journal clearing (record { wal = some w; snapshot = some sn' }))
      unfolding clear_journal
      clear_journal-Restarts clearing sn' new loads = (
        (clear clearing w).0,
        sn',
        refl,
        inr (
            subst (λ f. start codecs clock f sn'.stored ≡ recovered (rebuilt_machine m))
              (sym (file-clear clearing w h.opened)) (at_file clearing new)),
      )
        where
          at_file :
              (clearing : Clearing)
              → IsNewFile w.file.file_id clearing
              → start codecs clock (file_after clearing w.file) sn'.stored
                ≡ recovered (rebuilt_machine m)
          at_file kept new = start-uncleared clock m w es sn'.stored c k h named loads
          at_file (unopened id) new = start-cleared clock m w id sn'.stored c k new loads
          at_file (replaced id durable) new = start-cleared clock m w id sn'.stored c k new loads

      save_marked-Restarts :
          (saving : Saving) (clearing : Clearing)
          → IsExact (checkpoint_fields m c.content w)
          → IsNewFile w.file.file_id clearing
          → Restarts clock m w sn (
              save_marked codecs saving clearing m c.content
                (w.file.file_id, pos (length w.file.content))
                sn
                (record { wal = some w; snapshot = some sn }))
      unfolding save_marked
      save_marked-Restarts saving clearing exact new =
          let fields = checkpoint_fields m c.content w in
          let saved = save_with_wal codecs.encode_saved saving fields sn in
          let atomic =
            save_is_atomic codecs.encode_saved codecs.parse_saved encode_string codecs.decode_string
              codec saving fields sn exact in
          elim (Option-cases saved.1) [
            | inr (e, reported) ↦
                rw (save_marked, reported)
                  (
                    w,
                    saved.0,
                    refl,
                    elim atomic [
                      | inl (same, error) ↦ inl (ap (start codecs clock w.file) same, refl)
                      | inr (loads, more) ↦
                          inr (start-uncleared clock m w es saved.0.stored c k h named loads)
                    ],
                  )
            | inl quiet ↦
                rw (save_marked, quiet)
                  (clear_journal-Restarts clearing saved.0 new (elim atomic [
                    | inl (same, error) ↦ elim (error quiet) [ ]
                    | inr (loads, more) ↦ loads
                  ]))
          ]

      save_persistent_state-Restarts :
          (saving : Saving) (clearing : Clearing)
          → IsExact (checkpoint_fields m c.content w)
          → IsNewFile w.file.file_id clearing
          → Restarts clock m w sn (
              save_persistent_state codecs true saving clearing m
                (record { wal = some w; snapshot = some sn }))
      unfolding save_persistent_state
      save_persistent_state-Restarts saving clearing exact new =
          rw (save_persistent_state, c.encoded, marked w h.opened)
            (save_marked-Restarts saving clearing exact new)

-- A sound server's loop goes through any number of possible commands, and then the state is saved
-- into open files. The process may die anywhere in between. A start on what the files then hold
-- gives the state that the loop reached, with the heap of the leases built anew, whether or not the
-- journal was cleared; or it gives what a start gave before, and then the save reported an error.
-- The conditions: the codecs give back this state, the journal holds whole records only, and its
-- replacement is another file.
pub checkpoint_restores :
    (codecs : Codecs) (marshal_entry : Command → Option ByteString) (view : Command → Payload)
    (encode_string : ByteString → ByteString) (clock : ℕ → ℤ) (m0 : Machine) (s t : Server)
    (w : Wal) (sn : Snapshot) (es : List Payload) (saving : Saving) (clearing : Clearing)
    → IsCodec codecs.encode_saved codecs.parse_saved encode_string codecs.decode_string
    → IsSound s
    → IsRecorded clock m0 s
    → Run s t
    → (c : Encodes codecs t.machine) → Holds marshal_entry codecs.unmarshal_entry view es w
    → w.file.file_id ≢ []
    → IsExact (checkpoint_fields t.machine c.content w)
    → IsNewFile w.file.file_id clearing
    → Restarts codecs clock t.machine w sn (
        save_persistent_state codecs true saving clearing t.machine
          (record { wal = some w; snapshot = some sn }))
checkpoint_restores codecs marshal view encode clock m0 s t w sn es saving clearing codec v r run c
      h named exact new =
    let sound = (Run-IsRecorded clock m0 v r run).0 in
    let kept : IsKept t.machine = record {
      store = sound.store;
      leases = sound.leases;
      in_step = sound.in_step;
    } in
    save_persistent_state-Restarts codecs marshal view encode codec clock t.machine w sn es c kept h
      named saving clearing exact new
