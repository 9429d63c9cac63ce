-- ===== src/Parse/Lengths.antt =====
-- The lengths that a loading run keeps bound the names, attributes and plain values that it
-- stores: the bounds of a table and of a line, and how they grow.
pub mod Checks
pub mod Attributes
pub mod Whole
use genders.Base.{
  ℕ, ◌≤◌, Bool, false, Option, none, some, List, [], ◌∷◌, ◌++◌, ◌≡◌, arith, length, Str, Bool-cases,
  inl, inr, ltb, true,
}
use native.Mathlib.Nat.{le_trans}
use genders.Libcommon.{Hash, Hostlist, hash_find, HasDistinctKeys}
use genders.Handle.{Hosts, Attrval}
use genders.Parse.State.{Parser, Outcome, P, ok, bug, failed, proceed}
use genders.Parse.Attributes.{LineAttrs, genders_max}

-- No name is longer than the bound.
abbrev pub AllWithin : ℕ → List Str → Type 0
AllWithin m [] = Unit
AllWithin m (s ∷ ss) = (length s ≤ m) × AllWithin m ss

-- A value without a substitution is no longer than the bound.
abbrev pub PlainWithin : ℕ → Bool → Option Str → Type 0
PlainWithin m contains_subst none = Unit
PlainWithin m contains_subst (some v) = contains_subst ≡ false → length v ≤ m

abbrev pub ValueWithin : ℕ → Attrval → Type 0
ValueWithin m av = PlainWithin m av.val_contains_subst av.val

-- The attributes of a line, and their values.
abbrev pub ItemsWithin : ℕ → ℕ → Hash Attrval → Type 0
ItemsWithin ma mv index =
    (a : Str) (av : Attrval) → hash_find index a ≡ some av → (length a ≤ ma) × ValueWithin mv av

abbrev pub KeysWithin : ℕ → Hash Str → Type 0
KeysWithin ma attrs = (a s : Str) → hash_find attrs a ≡ some s → length a ≤ ma

abbrev pub LinesWithin : ℕ → ℕ → ℕ → List Hosts → Type 0
LinesWithin mn ma mv [] = Unit
LinesWithin mn ma mv (gh ∷ hosts) =
    AllWithin mn gh.hl × ItemsWithin ma mv gh.attrval_index × LinesWithin mn ma mv hosts

-- A database whose names, attributes and plain values keep within three bounds.
pub record Bounds (mn ma mv : ℕ) (hostnames : Hostlist) (hosts : List Hosts) (attrs : Hash Str)
    : Type 0 where
  pub names : AllWithin mn hostnames
  pub lines : LinesWithin mn ma mv hosts
  pub keys : KeysWithin ma attrs
  pub distinct : HasDistinctKeys attrs

abbrev pub HasBounds : Parser → Type 0
HasBounds p = Bounds p.maxnodelen p.maxattrlen p.maxvallen p.hostnames p.genders_hosts p.attrs

pub AllWithin-mono : (m m' : ℕ) (ss : List Str) → m ≤ m' → AllWithin m ss → AllWithin m' ss
AllWithin-mono m m' [] le w = tt
AllWithin-mono m m' (s ∷ ss) le w = (le_trans w.0 le, AllWithin-mono m m' ss le w.1)

pub AllWithin-append :
    (m : ℕ) (xs ys : List Str) → AllWithin m xs → AllWithin m ys → AllWithin m (xs ++ ys)
AllWithin-append m [] ys w w' = w'
AllWithin-append m (x ∷ xs) ys w w' = (w.0, AllWithin-append m xs ys w.1 w')

pub PlainWithin-mono :
    (m m' : ℕ) (contains_subst : Bool) (val : Option Str)
    → m ≤ m'
    → PlainWithin m contains_subst val
    → PlainWithin m' contains_subst val
PlainWithin-mono m m' b none le w = tt
PlainWithin-mono m m' b (some v) le w = λ e. le_trans (w e) le

pub ItemsWithin-mono :
    (ma ma' mv mv' : ℕ) (index : Hash Attrval)
    → ma ≤ ma'
    → mv ≤ mv'
    → ItemsWithin ma mv index
    → ItemsWithin ma' mv' index
ItemsWithin-mono ma ma' mv mv' index la lv w a av e =
    let (wa, wv) = w a av e in
    (le_trans wa la, PlainWithin-mono mv mv' av.val_contains_subst av.val lv wv)

pub LinesWithin-mono :
    (mn mn' ma ma' mv mv' : ℕ) (hosts : List Hosts)
    → mn ≤ mn'
    → ma ≤ ma'
    → mv ≤ mv'
    → LinesWithin mn ma mv hosts
    → LinesWithin mn' ma' mv' hosts
LinesWithin-mono mn mn' ma ma' mv mv' [] ln la lv w = tt
LinesWithin-mono mn mn' ma ma' mv mv' (gh ∷ hosts) ln la lv (wh, wi, ws) = (
  AllWithin-mono mn mn' gh.hl ln wh,
  ItemsWithin-mono ma ma' mv mv' gh.attrval_index la lv wi,
  LinesWithin-mono mn mn' ma ma' mv mv' hosts ln la lv ws,
)

pub LinesWithin-append :
    (mn ma mv : ℕ) (hosts : List Hosts) (gh : Hosts)
    → LinesWithin mn ma mv hosts
    → AllWithin mn gh.hl
    → ItemsWithin ma mv gh.attrval_index
    → LinesWithin mn ma mv (hosts ++ gh ∷ [])
LinesWithin-append mn ma mv [] gh w wh wi = (wh, wi, tt)
LinesWithin-append mn ma mv (g ∷ hosts) gh w wh wi =
    (w.0, w.1, LinesWithin-append mn ma mv hosts gh w.2 wh wi)

pub Bounds-mono :
    (mn mn' ma ma' mv mv' : ℕ) (hostnames : Hostlist) (hosts : List Hosts) (attrs : Hash Str)
    → mn ≤ mn'
    → ma ≤ ma'
    → mv ≤ mv'
    → Bounds mn ma mv hostnames hosts attrs
    → Bounds mn' ma' mv' hostnames hosts attrs
Bounds-mono mn mn' ma ma' mv mv' hostnames hosts attrs ln la lv b = record {
  names = AllWithin-mono mn mn' hostnames ln b.names;
  lines = LinesWithin-mono mn mn' ma ma' mv mv' hosts ln la lv b.lines;
  keys = λ a s e. le_trans (b.keys a s e) la;
  distinct = b.distinct;
}

pub le-genders_max : (n m : ℕ) → (n ≤ genders_max n m) × (m ≤ genders_max n m)
le-genders_max n m = (ground arith, ground arith)

-- After a call that does not return -1 the bounds hold, and where it succeeds its result has a
-- property too.
abbrev pub Keeps : {A : Type 0} → (A → Parser → Type 0) → Outcome A × Parser → Type 0
Keeps post (ok a, p) = HasBounds p × post a p
Keeps post (bug, p) = HasBounds p
Keeps post (failed, p) = Unit

pub proceed-Keeps :
    {A B : Type 0} (post : A → Parser → Type 0) (post' : B → Parser → Type 0)
    (r : Outcome A × Parser) (f : A → P B)
    → Keeps post r
    → ((a : A) (p : Parser) → HasBounds p → post a p → Keeps post' (f a p))
    → Keeps post' (proceed r f)
proceed-Keeps post post' (ok a, p) f e k = k a p e.0 e.1
proceed-Keeps post post' (bug, p) f e k = e
proceed-Keeps post post' (failed, p) f e k = tt

-- A line under construction.
abbrev pub LineWithin : LineAttrs → Parser → Type 0
LineWithin line p =
    HasDistinctKeys line.attrval_index × ItemsWithin p.maxattrlen p.maxvallen line.attrval_index
