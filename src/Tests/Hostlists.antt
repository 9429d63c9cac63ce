-- ===== src/Tests/Hostlists.antt =====
-- An instance of the calls of hash.h and hostlist.h that are parameters, with their laws. The text
-- of a list of hosts starts with a bracket and holds each name with its codes raised by one, so
-- that a zero ends it.
use genders.Base.{
  zero, suc, true, false, if◌then◌else◌, ◌==◌, Option, some, none, [], ◌∷◌, ◌++◌, ◌≡◌, ◌≢◌, refl,
  ◌∙◌, sym, ap, arith, Str, append-nil, append_assoc, Bool-cases, inl, inr, str_eq, str_eq_iff,
  str_eq_refl, length, ◌≤◌, ◌||◌,
}
use genders.Libcommon.{Libcommon, HashLaws, HostlistLaws, Hostlist, hostlist_has}

abbrev raised : Str → Str → Str
raised [] rest = zero ∷ rest
raised (c ∷ s) rest = suc c ∷ raised s rest

abbrev written : Hostlist → Str
written [] = []
written (n ∷ ns) = raised n (written ns)

abbrev read_from : Str → Str → Hostlist
read_from acc [] = []
read_from acc (zero ∷ s) = acc ∷ read_from [] s
read_from acc (suc c ∷ s) = read_from (acc ++ c ∷ []) s

read-raised : (n rest acc : Str) → read_from acc (raised n rest) ≡ (acc ++ n) ∷ read_from [] rest
read-raised [] rest acc = rw append-nil refl
read-raised (c ∷ n) rest acc = read-raised n rest (acc ++ c ∷ []) ∙ rw append_assoc refl

read-written : (hl : Hostlist) → read_from [] (written hl) ≡ hl
read-written [] = refl
read-written (n ∷ ns) = read-raised n (written ns) [] ∙ rw (read-written ns) refl

abbrev ranged : Hostlist → Option Str
ranged [] = some []
ranged (n ∷ ns) = some (b'[' ∷ written (n ∷ ns))

abbrev hosts : Str → Option Hostlist
hosts [] = none
hosts (c ∷ s) = if c == b'[' then some (read_from [] s) else some ((c ∷ s) ∷ [])

-- Every name at its last place.
abbrev uniq : Hostlist → Hostlist
uniq [] = []
uniq (n ∷ ns) = let rest = uniq ns in if hostlist_has ns n then rest else n ∷ rest

has-uniq_plain : (hl : Hostlist) (n : Str) → hostlist_has (uniq hl) n ≡ hostlist_has hl n
has-uniq_plain [] n = refl
has-uniq_plain (x ∷ hl) n = elim (Bool-cases (hostlist_has hl x)) [
  | inr e ↦ rw (e, has-uniq_plain hl n) refl
  | inl e ↦
      rw (e, has-uniq_plain hl n)
        (elim (Bool-cases (str_eq x n)) [
          | inl s ↦ rw (s, ← (str_eq_iff x n).0 s) e
          | inr s ↦ rw s refl
        ])
]

-- A list whose hosts are all the same has one name at most.
pub length-uniq_one :
    (hl : Hostlist) (m : Str)
    → ((n : Str) → hostlist_has (uniq hl) n ≡ true → n ≡ m)
    → length (uniq hl) ≤ 1
length-uniq_one [] m all = omega arith
length-uniq_one (x ∷ hl) m all = elim (Bool-cases (hostlist_has hl x)) [
  | inl e ↦ rw e (length-uniq_one hl m (λ n h. all n (rw e h)))
  | inr e ↦ rw e (no_more (uniq hl) (has-uniq_plain hl x ∙ e) (λ n h. all n (rw e (ground arith))))
]
  where
    no_more :
        (ns : Hostlist)
        → hostlist_has ns x ≡ false
        → ((n : Str) → (str_eq x n || hostlist_has ns n) ≡ true → n ≡ m)
        → length (x ∷ ns) ≤ 1
    no_more [] e same = omega arith
    no_more (y ∷ ns) e same =
        let x_is : x ≡ m = same x (ground (arith, str_eq_refl x)) in
        let y_is : y ≡ m = same y (ground (arith, str_eq_refl y)) in
        absurd (ground (arith, str_eq_refl y, x_is ∙ sym y_is))

abbrev pub plain : Libcommon
plain = record {
  place = λ V size k v h. (k, v) ∷ h;
  hosts_of = hosts;
  hostlist_uniq = uniq;
  hostlist_sort = λ hl. hl;
  ranged_string = ranged;
}

pub plain-HashLaws : HashLaws plain
plain-HashLaws = record {
  find-place = λ V size k v h j e. refl;
  place-HasDistinctKeys = λ V size k v h e d. (rw e refl, d);
  length-place = λ V size k v h. refl;
}

some-injective : {A : Type 0} (d a b : A) → some a ≡ some b → a ≡ b
some-injective d a b = ap (λ o. elim o [ none ↦ d | some x ↦ x ])

ranged-hosts_plain :
    (hl : Hostlist) (s : Str)
    → ranged hl ≡ some s
    → s ≢ []
    → (read : Hostlist) × (hosts s ≡ some read)
      × ((n : Str) → hostlist_has read n ≡ hostlist_has hl n)
ranged-hosts_plain [] s e ne = absurd (ne (sym (some-injective [] [] s e)))
ranged-hosts_plain (n ∷ ns) s e ne = (
  n ∷ ns,
  rw (← some-injective [] (b'[' ∷ written (n ∷ ns)) s e) (rw (read-written (n ∷ ns)) refl),
  λ m. refl,
)

pub plain-HostlistLaws : HostlistLaws plain
plain-HostlistLaws = record {
  has-uniq = has-uniq_plain;
  has-sort = λ hl n. refl;
  ranged-nil = ranged-nil_plain;
  ranged-hosts = ranged-hosts_plain;
}
  where
    ranged-nil_plain : (hl : Hostlist) (n : Str) → ranged hl ≡ some [] → hostlist_has hl n ≡ false
    ranged-nil_plain [] n e = refl
    ranged-nil_plain (m ∷ ms) n e = cc
