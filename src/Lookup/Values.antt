-- ===== src/Lookup/Values.antt =====
-- `genders_testattrval` against the lines of the database. The loop stops at the first line of the
-- node that has the attribute, which in a well-formed database is the only one.
use genders.Base.{
  ℕ, ◌+◌, ◌≤◌, Bool, true, false, ◌&&◌, ◌||◌, Option, none, some, List, [], ◌∷◌, ◌≡◌, refl, arith,
  length, is_some, Bool-cases, inl, inr, Str, str_eq, str_eq_iff, pos, pos_not_negative,
}
use genders.Libcommon.{hash_find, hostlist_has}
use genders.Handle.{Handle, Hosts, Attrval, err_success, M}
use genders.Handle.Checks.{IsLoaded, loaded_check-IsLoaded}
use genders.Value.Expand.{shown, is_readable, get_valptr-shown}
use genders.Lookup.{or_nodename, text, copy_val, test_found, testattr_hosts, testattr, testattrval}
use genders.Lookup.Correct.{IsKnown}
use genders.Nodes.Scan.{has_value}
use genders.Query.Meaning.{gives, has_attr}
use genders.Parse.Invariant.{BehindDisjoint, NoDuplicates, IsWellFormed}

-- A node's values of an attribute can be read, and fit a buffer of `maxvallen + 1` bytes.
abbrev pub ValueFits : Handle → Str → Option Attrval → Type 0
ValueFits h n none = Unit
ValueFits h n (some av) = elim av.val [
  | none ↦ Unit
  | some v ↦
      (is_readable h n v av.val_contains_subst ≡ true)
      × (length (shown h n v av.val_contains_subst) ≤ h.maxvallen)
]

abbrev pub AllFit : Handle → Str → Str → List Hosts → Type 0
AllFit h n attr [] = Unit
AllFit h n attr (gh ∷ hosts) =
    ValueFits h n (hash_find gh.attrval_index attr) × AllFit h n attr hosts

str_eq_sym : (s t : Str) → str_eq s t ≡ str_eq t s
str_eq_sym s t = ground (arith, str_eq_iff s t, str_eq_iff t s)

-- What the loop leaves in the buffer says whether the line has the value.
abbrev Tells : Str → Str → Attrval → Handle → Type 0
Tells val n av h =
    (w : Str) × (b : Option Str) × (copy_val true (pos (h.maxvallen + 1)) n av h
      ≡ (some (true, some w), record h { valbuf = b }))
    × (str_eq w val ≡ has_value h val av n)

copy_fields-Tells :
    (c : ℕ) (val n attr : Str) (v : Option Str) (contains_subst : Bool) (h : Handle)
    → (let av : Attrval = record { attr = attr; val = v; val_contains_subst = contains_subst } in
        ValueFits h n (some av) → Tells (c ∷ val) n av h)
unfolding copy_val str_eq
copy_fields-Tells c val n attr none cs h fits = ([], h.valbuf, refl, refl)
copy_fields-Tells c val n attr (some v) cs h fits =
    let (b, e) = get_valptr-shown h n v cs fits.0 in
    let w = shown h n v cs in (w, b, rw e (ground (arith, fits.1)), str_eq_sym w (c ∷ val))

copy_val-Tells :
    (c : ℕ) (val n : Str) (av : Attrval) (h : Handle)
    → ValueFits h n (some av)
    → Tells (c ∷ val) n av h
copy_val-Tells c val n av h = copy_fields-Tells c val n av.attr av.val av.val_contains_subst h

-- A line that has the attribute for the node excludes every line behind it.
behind_gives_none :
    (h : Handle) (val : Option Str) (n attr : Str) (gh : Hosts) (hosts : List Hosts)
    → BehindDisjoint gh hosts
    → hostlist_has gh.hl n ≡ true
    → is_some (hash_find gh.attrval_index attr) ≡ true
    → has_attr h attr val n hosts ≡ false
behind_gives_none h val n attr gh [] d e f = refl
behind_gives_none h val n attr gh (g ∷ hosts) d e f =
    rw
      (
        not_given (hash_find g.attrval_index attr) val (λ here found. d.0 n attr e here f found),
        behind_gives_none h val n attr gh hosts d.1 e f,
      )
      refl
  where
    not_given :
        (found : Option Attrval) (val' : Option Str)
        → (hostlist_has g.hl n ≡ true → is_some found ≡ true → ⊥)
        → gives h val' n g found ≡ false
    not_given none val' never = refl
    not_given (some av) none never = elim (Bool-cases (hostlist_has g.hl n)) [
      | inl here ↦ absurd (never here refl)
      | inr away ↦ away
    ]
    not_given (some av) (some w) never = elim (Bool-cases (hostlist_has g.hl n)) [
      | inl here ↦ absurd (never here refl)
      | inr away ↦ rw away refl
    ]

-- The result of the loop, read as `genders_testattrval` reads it, says whether a line gives the
-- node the value.
abbrev Answers : Str → (M (Bool × Option Str)) → Bool → Handle → Type 0
Answers val m answer h =
    (found : Bool × Option Str) × (b : Option Str) × (m h ≡ (some found, record h { valbuf = b }))
    × ((found.0 && str_eq (text found.1) val) ≡ answer)

test_found-Answers :
    (c : ℕ) (val n : Str) (gh : Hosts) (found : Option Attrval) (next : M (Bool × Option Str))
    (rest : Bool) (h : Handle)
    → ValueFits h n found
    → hostlist_has gh.hl n ≡ true
    → (is_some found ≡ true → rest ≡ false)
    → Answers (c ∷ val) next rest h
    → Answers
        (c ∷ val)
        (test_found true (pos (h.maxvallen + 1)) n found next)
        (gives h (some (c ∷ val)) n gh found || rest)
        h
unfolding test_found
test_found-Answers c val n gh none next rest h fits here only a = a
test_found-Answers c val n gh (some av) next rest h fits here only a =
    let (w, b, e, t) = copy_val-Tells c val n av h fits in
    ((true, some w), b, e, ground (arith, only refl))

not_here :
    (h : Handle) (val n : Str) (gh : Hosts) (found : Option Attrval)
    → hostlist_has gh.hl n ≡ false
    → gives h (some val) n gh found ≡ false
not_here h val n gh none e = refl
not_here h val n gh (some av) e = rw e refl

pub testattr_hosts-Answers :
    (c : ℕ) (val n attr : Str) (hosts : List Hosts) (h : Handle)
    → AllFit h n attr hosts
    → NoDuplicates hosts
    → Answers
        (c ∷ val)
        (testattr_hosts true (pos (h.maxvallen + 1)) n attr hosts)
        (has_attr h attr (some (c ∷ val)) n hosts)
        h
unfolding testattr_hosts
testattr_hosts-Answers c val n attr [] h fits d = ((false, none), h.valbuf, refl, refl)
testattr_hosts-Answers c val n attr (gh ∷ hosts) h fits d =
    let rest = testattr_hosts-Answers c val n attr hosts h fits.1 d.1 in
    elim (Bool-cases (hostlist_has gh.hl n)) [
      | inl here ↦ rw here (
          test_found-Answers c val n gh (hash_find gh.attrval_index attr) _ _ h fits.0 here
            (behind_gives_none h (some (c ∷ val)) n attr gh hosts d.0 here) rest)
      | inr away ↦ rw (away, not_here h (c ∷ val) n gh (hash_find gh.attrval_index attr) away) rest
    ]

pub testattr_loop :
    (name : Option Str) (n : Str) (a : ℕ) (attr : Str) (found : Bool × Option Str) (h h' : Handle)
    → or_nodename name h ≡ n
    → IsLoaded h
    → IsKnown h n
    → testattr_hosts true (pos (h.maxvallen + 1)) n (a ∷ attr) h.genders_hosts h ≡ (some found, h')
    → testattr name (some (a ∷ attr)) true (pos (h.maxvallen + 1)) h
      ≡ (some found, record h' { errnum = err_success })
unfolding testattr
testattr_loop name n a attr found h h' same l k e =
    rw
      (
        loaded_check-IsLoaded h l,
        pos_not_negative (h.maxvallen + 1),
        k.some_nodes,
        same,
        k.listed,
        e,
      )
      refl

-- `genders_testattrval` on a well-formed database, for a node of it and a value that is not empty:
-- it returns 1 exactly if some line gives the node the attribute with that value after
-- substitution, and sets the error code to success. The node's values must be readable and no
-- longer than `maxvallen`.
pub testattrval-has_attr :
    (node : Option Str) (a : ℕ) (attr : Str) (c : ℕ) (val : Str) (h : Handle)
    → IsLoaded h
    → IsWellFormed h.attrs h.genders_hosts
    → IsKnown h (or_nodename node h)
    → AllFit h (or_nodename node h) (a ∷ attr) h.genders_hosts
    → (b : Option Str) × (testattrval node (some (a ∷ attr)) (some (c ∷ val)) h ≡ (
      some (has_attr h (a ∷ attr) (some (c ∷ val)) (or_nodename node h) h.genders_hosts),
      record h { errnum = err_success; valbuf = b },
    ))
unfolding testattrval
testattrval-has_attr node a attr c val h l w k fits =
    let (found, b, e, answer) =
      testattr_hosts-Answers c val (or_nodename node h) (a ∷ attr) h.genders_hosts h fits
        w.disjoint in
    (
      b,
      rw
          (
            loaded_check-IsLoaded h l,
            testattr_loop node (or_nodename node h) a attr found h (record h { valbuf = b }) refl l
                k e,
            answer,
          )
          refl,
    )
