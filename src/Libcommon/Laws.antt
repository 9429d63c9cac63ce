-- ===== src/Libcommon/Laws.antt =====
-- The calls that the contents do not determine, with the behaviour that hash.h and hostlist.h
-- document.
use genders.Base.{
  ℕ, suc, false, Option, none, some, [], ◌∷◌, is_some, ◌≡◌, ◌≢◌, Str, str_eq, if◌then◌else◌, length,
}
use genders.Libcommon.Contents.{Hash, Hostlist, hash_find, hostlist_has}

pub record Libcommon : Type 1 where
  -- `hash_insert` of a new key into a table that was created with the given size.
  pub place : (V : Type 0) → ℕ → Str → V → Hash V → Hash V
  -- The hosts that `hostlist_push` reads in a text; `none` where it returns 0.
  pub hosts_of : Str → Option Hostlist
  pub hostlist_uniq : Hostlist → Hostlist
  pub hostlist_sort : Hostlist → Hostlist
  -- `hostlist_ranged_string` into a buffer of GENDERS_BUFLEN bytes; `none` where it returns -1.
  pub ranged_string : Hostlist → Option Str

-- No key stands twice.
abbrev pub HasDistinctKeys {ℓ} : {V : Type ℓ} → Hash V → Type 0
HasDistinctKeys [] = Unit
HasDistinctKeys ((k, v) ∷ h) = (is_some (hash_find h k) ≡ false) × HasDistinctKeys h

-- hash.h: an item that was inserted is found, the others stay, the keys stay distinct, and the
-- count grows by one.
pub record HashLaws (L : Libcommon) : Type 1 where
  pub find-place :
      (V : Type 0) (size : ℕ) (k : Str) (v : V) (h : Hash V) (j : Str)
      → hash_find h k ≡ none
      → hash_find (L.place V size k v h) j ≡ (if str_eq k j then some v else hash_find h j)
  pub place-HasDistinctKeys :
      (V : Type 0) (size : ℕ) (k : Str) (v : V) (h : Hash V)
      → hash_find h k ≡ none
      → HasDistinctKeys h
      → HasDistinctKeys (L.place V size k v h)
  pub length-place :
      (V : Type 0) (size : ℕ) (k : Str) (v : V) (h : Hash V)
      → length (L.place V size k v h) ≡ suc (length h)

-- hostlist.h: sorting and removing duplicates keep the set of hosts, and the ranged text of a
-- list names the hosts of the list.
pub record HostlistLaws (L : Libcommon) : Type 0 where
  pub has-uniq : (hl : Hostlist) (n : Str) → hostlist_has (L.hostlist_uniq hl) n ≡ hostlist_has hl n
  pub has-sort : (hl : Hostlist) (n : Str) → hostlist_has (L.hostlist_sort hl) n ≡ hostlist_has hl n
  pub ranged-nil :
      (hl : Hostlist) (n : Str) → L.ranged_string hl ≡ some [] → hostlist_has hl n ≡ false
  pub ranged-hosts :
      (hl : Hostlist) (s : Str)
      → L.ranged_string hl ≡ some s
      → s ≢ []
      → (hosts : Hostlist) × (L.hosts_of s ≡ some hosts)
        × ((n : Str) → hostlist_has hosts n ≡ hostlist_has hl n)
