-- ===== src/Kv/Cas.antt =====
-- CmdCAS of kv/store.go.
use wjetcd.Common.{
  ◌≡◌, ◌∙◌, sym, ap, arith, true, false, ByteString, bytes, bytes_eq_refl, bytes_key, List, [], ◌∷◌,
  last, last-append, Option-cases, some, ℤ, pos, ◌≤ℤ◌, ◌<ℤ◌, inl, inr,
}
use wjetcd.Command.{Command, cmd_cas}
use wjetcd.Kv.{
  VersionEntry, KvStore, done, history, write_version, assign_rev, apply, apply_typed, apply_cas,
  cas_matches,
}
use wjetcd.Kv.History.{history-write_version}
use wjetcd.Kv.Reads.{HasRoom, IsFresh, assign_rev-fresh}
use wjetcd.Kv.Valid.{Ascending, IsValid, Histories-lookup}

last-le :
    (low : ℤ) (entries : List VersionEntry) (top : ℤ) (entry : VersionEntry)
    → Ascending low entries top
    → last entries ≡ some entry
    → entry.revision ≤ℤ top
last-le low [] top entry a h = cc
last-le low (e ∷ []) top entry a h = ground arith
last-le low (e ∷ f ∷ rest) top entry a h = last-le e.revision (f ∷ rest) top entry a.1 h

matched_revision :
    (kv : KvStore) (cmd : Command)
    → IsValid kv
    → cas_matches kv cmd ≡ true
    → cmd.expected_rev ≤ℤ kv.current_rev
unfolding cas_matches
matched_revision kv cmd v h = elim (Option-cases (last (history kv cmd.key))) [
  | inl e ↦ ground arith
  | inr (entry, e) ↦
      let bounded =
        last-le (pos 0) (history kv cmd.key) kv.current_rev entry
          (Histories-lookup kv.current_rev kv.versions cmd.key v.counted v.ascending) e in
      ground arith
]

stale_after :
    (kv : KvStore) (key : ByteString) (rev : ℤ) (value : ByteString) (cmd : Command)
    → cmd.key ≡ key
    → cmd.expected_rev <ℤ assign_rev kv rev
    → cas_matches (write_version kv key rev value false) cmd ≡ false
unfolding cas_matches
stale_after kv key rev value cmd same old = ground (
  arith,
  bytes_eq_refl key,
  history-write_version kv key key rev value false,
  last-append (history kv key)
      (record { revision = assign_rev kv rev; value = value; tombstone = false }),
)

pub apply-cas :
    (kv : KvStore) (cmd : Command) → cmd.type ≡ cmd_cas → apply kv cmd ≡ apply_cas kv cmd
unfolding apply apply_typed
apply-cas kv cmd e = ap (λ type. apply_typed type kv cmd) e

pub apply_cas-hit :
    (kv : KvStore) (cmd : Command)
    → cas_matches kv cmd ≡ true
    → apply_cas kv cmd ≡ (write_version kv cmd.key cmd.revision cmd.value false, done (bytes "OK"))
unfolding apply_cas
apply_cas-hit kv cmd hit = rw hit

pub apply_cas-miss :
    (kv : KvStore) (cmd : Command)
    → cas_matches kv cmd ≡ false
    → apply_cas kv cmd ≡ (kv, done (bytes "CAS_FAILED"))
unfolding apply_cas
apply_cas-miss kv cmd miss = rw miss

apply_cas-won :
    (kv : KvStore) (cmd : Command)
    → (apply_cas kv cmd).1 ≡ done (bytes "OK")
    → cas_matches kv cmd ≡ true
unfolding apply_cas
apply_cas-won kv cmd won = ground arith

-- In a valid store whose counter is not at the top of its range, after a CmdCAS with a fresh
-- revision has succeeded, any other CmdCAS of the same key with the same expected revision fails
-- and changes nothing.
pub cas_wins_once :
    (kv : KvStore) (first second : Command)
    → IsValid kv
    → HasRoom kv
    → IsFresh kv first.revision
    → first.type ≡ cmd_cas
    → second.type ≡ cmd_cas
    → second.key ≡ first.key
    → second.expected_rev ≡ first.expected_rev
    → (apply kv first).1 ≡ done (bytes "OK")
    → apply (apply kv first).0 second ≡ ((apply kv first).0, done (bytes "CAS_FAILED"))
cas_wins_once kv first second v room fresh t1 t2 key expected won =
    let hit = apply_cas-won kv first (ap (λ r. r.1) (sym (apply-cas kv first t1)) ∙ won) in
    let stale = stale_after kv first.key first.revision first.value second key (
      ground
        (arith, matched_revision kv first v hit, assign_rev-fresh kv first.revision room fresh)) in
    rw (apply-cas kv first t1 ∙ apply_cas-hit kv first hit)
      (apply-cas _ second t2 ∙ apply_cas-miss _ second stale)
