-- ===== src/Kv/Versions.antt =====
-- A read of kv/store.go at a revision between two versions of a key.
use mathlib.Core.List.{reverse-append, append_assoc}
use mathlib.Core.Path.{subst}
use wjetcd.Common.{
  ◌≡◌, refl, ◌∙◌, ap, arith, if◌then◌else◌, ByteString, bytes, bytes_key, List, [], ◌∷◌, ◌++◌,
  reverse, All, All-append, ℤ, pos, ◌≤ℤ◌, ◌<ℤ◌,
}
use wjetcd.Kv.{VersionEntry, KvStore, history, get_at_revision, scan_back}
use wjetcd.Kv.Valid.{Ascending, IsValid, Histories-lookup}

-- What a read that finds this version returns.
abbrev pub shown : VersionEntry → ByteString × ℤ
shown entry = (if entry.tombstone then bytes "" else entry.value, entry.revision)

abbrev IsPast : ℤ → VersionEntry → Type 0
IsPast at entry = at <ℤ entry.revision

All-reverse :
    (at : ℤ) (entries : List VersionEntry)
    → All (IsPast at) entries
    → All (IsPast at) (reverse entries)
All-reverse at [] h = tt
All-reverse at (e ∷ rest) h =
    rw (reverse-append (e ∷ []) rest)
      (All-append (IsPast at) (reverse rest) (e ∷ []) (All-reverse at rest h.1) (h.0, tt))

scan_back-skip :
    (at : ℤ) (newer older : List VersionEntry)
    → All (IsPast at) newer
    → scan_back at (newer ++ older) ≡ scan_back at older
unfolding scan_back
scan_back-skip at [] older h = refl
scan_back-skip at (e ∷ newer) older h = ground (arith, scan_back-skip at newer older h.1)

Ascending-IsPast :
    (at low : ℤ) (entries : List VersionEntry) (top : ℤ)
    → at ≤ℤ low
    → Ascending low entries top
    → All (IsPast at) entries
Ascending-IsPast at low [] top h a = tt
Ascending-IsPast at low (e ∷ rest) top h a =
    (omega arith, Ascending-IsPast at e.revision rest top (omega arith) a.1)

Ascending-after :
    (at low : ℤ) (older : List VersionEntry) (entry next : VersionEntry) (newer : List VersionEntry)
    (top : ℤ)
    → at <ℤ next.revision
    → Ascending low (older ++ entry ∷ next ∷ newer) top
    → All (IsPast at) (next ∷ newer)
Ascending-after at low [] entry next newer top h a =
    (h, Ascending-IsPast at next.revision newer top (omega arith) a.1.1)
Ascending-after at low (e ∷ older) entry next newer top h a =
    Ascending-after at e.revision older entry next newer top h a.1

scan_between :
    (at : ℤ) (older newer : List VersionEntry) (entry : VersionEntry)
    → entry.revision ≤ℤ at
    → All (IsPast at) newer
    → scan_back at (reverse (older ++ entry ∷ newer)) ≡ shown entry
unfolding scan_back
scan_between at older newer entry low past =
    ap (scan_back at) (reverse-append older (entry ∷ newer))
    ∙ ap (λ l. scan_back at (l ++ reverse older)) (reverse-append (entry ∷ []) newer)
    ∙ ap (scan_back at) (append_assoc (reverse newer) (entry ∷ []) (reverse older))
    ∙ scan_back-skip at (reverse newer) (entry ∷ reverse older) (All-reverse at newer past)
    ∙ ground arith

-- In a valid store a read at a positive revision from that of a version up to below that of the
-- key's next version returns the former.
pub read_between :
    (kv : KvStore) (key : ByteString) (at : ℤ) (older newer : List VersionEntry)
    (entry next : VersionEntry)
    → IsValid kv
    → history kv key ≡ older ++ entry ∷ next ∷ newer
    → pos 0 <ℤ at
    → entry.revision ≤ℤ at
    → at <ℤ next.revision
    → get_at_revision kv key at ≡ shown entry
unfolding get_at_revision
read_between kv key at older newer entry next v h positive low high =
    let positioned : get_at_revision kv key at ≡ scan_back at (reverse (history kv key)) =
      ground arith in
    let ascending =
      subst (λ l. Ascending (pos 0) l kv.current_rev) h
        (Histories-lookup kv.current_rev kv.versions key v.counted v.ascending) in
    positioned
    ∙ ap (λ l. scan_back at (reverse l)) h
    ∙ scan_between at older (next ∷ newer) entry low
        (Ascending-after at (pos 0) older entry next newer kv.current_rev high ascending)
