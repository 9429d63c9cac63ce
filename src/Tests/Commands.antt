-- ===== src/Tests/Commands.antt =====
-- The theorems on the program nodeattr, for the small database and another one.
use mathlib.Core.List.{Perm}
use mathlib.Core.List.Perm
use genders.Base.{
  ℕ, ltb, Option, none, ℤ, pos, Bool, true, false, not, some, List, [], ◌∷◌, ◌++◌, ◌≡◌, refl, Str,
  codes, arith, inr, length, select, str_eq, ltb_ℤ, if◌then◌else◌, ◌+◌, ◌||◌, ◌&&◌, any, ◌*◌, ◌≤◌,
}
use genders.Libcommon.{Hostlist, Hash, hostlist_has}
use genders.Nodeattr.Process.{World}
use genders.Nodeattr.Calls.{Calls, fmt_space, replace_commas}
use genders.Nodeattr.Calls.Buffer.{text_given}
use genders.Nodeattr.Options.{
  Opt, command, initial, set_options, set_option, accepted, combined, counted_args, all_nodes,
  command_of, chosen, node_and, argument, test_attr_command,
}
use genders.Nodeattr.Options.Arguments.{Takes, command-Takes}
use genders.Nodeattr.Compress.{strcmp, with_commas}
use genders.Nodeattr.Compress.Buffer.{Sorts, with_commas-fits}
use genders.Nodeattr.Hosts.{attr_strings, hash_attrvals}
use genders.Nodeattr.Hosts.Table.{is_under, hash_attrvals-under}
use genders.Tests.Hostlists.{plain, plain-HashLaws}
use genders.Tests.Setup.{db}

-- An insertion sort.
abbrev insert : (A : Type 0) → (A → A → ℤ) → A → List A → List A
insert A cmp x [] = x ∷ []
insert A cmp x (y ∷ ys) =
    let rest = insert A cmp x ys in if ltb_ℤ (pos 0) (cmp x y) then y ∷ rest else x ∷ y ∷ ys

abbrev sort : (A : Type 0) → (A → A → ℤ) → List A → List A
sort A cmp [] = []
sort A cmp (x ∷ xs) = insert A cmp x (sort A cmp xs)

perm_insert_if :
    {A : Type 0} (b : Bool) (x y : A) (ys rest : List A)
    → Perm rest (x ∷ ys)
    → Perm (if b then y ∷ rest else x ∷ y ∷ ys) (x ∷ y ∷ ys)
perm_insert_if true x y ys rest p = Perm.trans (Perm.cons y p) (Perm.swap x y ys)
perm_insert_if false x y ys rest p = Perm.refl (x ∷ y ∷ ys)

perm-insert : {A : Type 0} (cmp : A → A → ℤ) (x : A) (l : List A) → Perm (insert A cmp x l) (x ∷ l)
perm-insert cmp x [] = Perm.refl (x ∷ [])
perm-insert {A} cmp x (y ∷ ys) =
    perm_insert_if (ltb_ℤ (pos 0) (cmp x y)) x y ys (insert A cmp x ys) (perm-insert cmp x ys)

perm-sort : {A : Type 0} (cmp : A → A → ℤ) (l : List A) → Perm (sort A cmp l) l
perm-sort cmp [] = Perm.refl []
perm-sort {A} cmp (x ∷ xs) =
    Perm.trans (perm-insert cmp x (sort A cmp xs)) (Perm.cons x (perm-sort cmp xs))

abbrev joined : Hostlist → Str
joined [] = []
joined (n ∷ []) = n
joined (n ∷ m ∷ ns) = n ++ b',' ∷ joined (m ∷ ns)

abbrev fitting : ℕ → Str → Option Str
fitting size s = if ltb (length s) size then some s else none

abbrev pub calls : Calls
calls = record {
  hostlist_delete = λ hl s. select (λ n. not (str_eq n s)) hl;
  hostlist_ranged_string = λ hl size. fitting size (joined hl);
  hostlist_deranged_string = λ hl size. fitting size (joined hl);
  list_sort = sort;
}

calls-Sorts : Sorts calls
calls-Sorts A cmp l = perm-sort cmp l

abbrev two_nodes : Hostlist
two_nodes = codes "n1" ∷ codes "n2" ∷ []

text_test : text_given calls two_nodes fmt_space ≡ some (codes "n1 n2")
unfolding replace_commas
text_test = refl

-- nodeattr -v n1 a
abbrev verbose : List Opt
verbose = (b'v', []) ∷ []

abbrev default_file : Str
default_file = codes "/etc/genders"

command_test :
    command verbose (codes "n1" ∷ codes "a" ∷ []) default_file
    ≡ some (
      record (initial default_file) { vopt = true },
      test_attr_command (some (codes "n1")) (codes "a") true,
    )
unfolding command initial set_options set_option accepted combined counted_args all_nodes command_of
    chosen node_and argument
command_test = refl

command-Takes_example :
    Takes (test_attr_command (some (codes "n1")) (codes "a") true) (codes "n1" ∷ codes "a" ∷ [])
command-Takes_example =
    command-Takes verbose (codes "n1" ∷ codes "a" ∷ []) default_file
      (record (initial default_file) { vopt = true })
      (test_attr_command (some (codes "n1")) (codes "a") true) command_test

with_commas-fits_example :
    length (
      with_commas (
        calls.list_sort Str strcmp
          (attr_strings (codes "b" ∷ codes "a" ∷ []) ([] ∷ codes "y" ∷ []))))
    ≤ (1 + 2 + 3) * 3
with_commas-fits_example =
    with_commas-fits calls 1 3 3 (codes "b" ∷ codes "a" ∷ []) ([] ∷ codes "y" ∷ []) calls-Sorts
      (omega arith) (omega arith, omega arith, (omega arith, omega arith, tt))

abbrev pub start : World
start = record { handle = db; other = db; out = []; err = []; errno_text = codes "Success" }

hash_attrvals-under_example :
    (hash' : Hash Hostlist) × (hash_attrvals plain 16
        (codes "n1")
        (codes "a" ∷ [])
        (codes "y" ∷ [])
        []
        start
      ≡ (inr hash', start))
    × ((key n : Str)
        → is_under hash' key n ≡ (
            is_under [] key n
            || any (λ k. str_eq k key) (attr_strings (codes "a" ∷ []) (codes "y" ∷ []))
              && hostlist_has (codes "n1" ∷ []) n))
hash_attrvals-under_example =
    hash_attrvals-under plain plain-HashLaws 16 (codes "n1") (codes "n1" ∷ []) (codes "a" ∷ [])
      (codes "y" ∷ []) [] start refl
