-- ===== src/Cfengine/Texts.antt =====
-- The texts of the values of a node, as the cells of a new list hold them.
use genders.Base.{
  ℕ, ℤ, zero, suc, ◌+◌, Bool, Option, none, some, List, [], ◌∷◌, ◌≡◌, refl, sym, ap, arith, length,
  replicate, set, Str,
}
use genders.Libcommon.{Hash}
use genders.Handle.{Handle, Attrval}
use genders.Value.Expand.{shown}
use genders.Array.{Array}
use genders.Array.Writes.{writes}
use genders.Lookup.{or_nodename}
use genders.Attrs.Items.{ReadsValue, AllReadable, value_cell, value_cells}

-- The text of a value, empty without one.
abbrev pub text_of : Handle → Str → Option Str → Bool → Str
text_of h n none contains_subst = []
text_of h n (some v) contains_subst = shown h n v contains_subst

abbrev pub texts_of : Handle → Str → Hash Attrval → List Str
texts_of h n [] = []
texts_of h n ((k, av) ∷ items) = text_of h n av.val av.val_contains_subst ∷ texts_of h n items

-- The cells from an index on hold empty texts.
abbrev pub AllFresh : Array → Type 0
AllFresh [] = Unit
AllFresh (none ∷ list) = ⊥
AllFresh (some s ∷ list) = (s ≡ []) × AllFresh list

abbrev pub FreshFrom : ℕ → Array → Type 0
FreshFrom zero list = AllFresh list
FreshFrom (suc i) [] = Unit
FreshFrom (suc i) (cell ∷ list) = FreshFrom i list

pub replicate-AllFresh : (n : ℕ) → AllFresh (replicate n (some []))
replicate-AllFresh zero = tt
replicate-AllFresh (suc n) = (refl, replicate-AllFresh n)

set-FreshFrom :
    (list : Array) (i : ℕ) (cell : Option Str)
    → FreshFrom i list
    → FreshFrom (suc i) (set list i cell)
set-FreshFrom [] zero cell w = tt
set-FreshFrom [] (suc i) cell w = tt
set-FreshFrom (none ∷ list) zero cell w = absurd w
set-FreshFrom (some s ∷ list) zero cell w = w.1
set-FreshFrom (c ∷ list) (suc i) cell w = set-FreshFrom list i cell w

set-fresh : (list : Array) (i : ℕ) → FreshFrom i list → set list i (some []) ≡ list
set-fresh [] zero w = refl
set-fresh [] (suc i) w = refl
set-fresh (none ∷ list) zero w = absurd w
set-fresh (some s ∷ list) zero w = rw w.0 refl
set-fresh (c ∷ list) (suc i) w = ap (λ xs. c ∷ xs) (set-fresh list i w)

value_cell-set :
    (h : Handle) (n : Str) (list : Array) (i : ℕ) (v : Option Str) (cs : Bool)
    → FreshFrom i list
    → value_cell h n (some list) i v cs ≡ some (set list i (some (text_of h n v cs)))
value_cell-set h n list i none cs w = ap some (sym (set-fresh list i w))
value_cell-set h n list i (some v) cs w = refl

pub value_cells-writes :
    (h : Handle) (n : Str) (items : Hash Attrval) (list : Array) (i : ℕ)
    → FreshFrom i list
    → value_cells h n (some list) i items ≡ some (writes list i (texts_of h n items))
unfolding writes
value_cells-writes h n [] list i w = refl
value_cells-writes h n ((k, av) ∷ items) list i w =
    let text = text_of h n av.val av.val_contains_subst in
    let next : suc i ≡ i + 1 = omega arith in
    let w' : FreshFrom (i + 1) (set list i (some text)) =
      rw next at (set-FreshFrom list i (some text) w) in
    rw (value_cell-set h n list i av.val av.val_contains_subst w)
      (value_cells-writes h n items (set list i (some text)) (i + 1) w')

pub length-texts_of :
    (h : Handle) (n : Str) (items : Hash Attrval) → length (texts_of h n items) ≡ length items
length-texts_of h n [] = refl
length-texts_of h n ((k, av) ∷ items) = ap suc (length-texts_of h n items)

-- None of this reads the error code.
pub same_node :
    (host : Option Str) (h : Handle) (e : ℤ)
    → or_nodename host (record h { errnum = e }) ≡ or_nodename host h
same_node none h e = refl
same_node (some []) h e = refl
same_node (some (c ∷ s)) h e = refl

reads_value :
    (h : Handle) (e : ℤ) (n : Str) (v : Option Str) (cs : Bool)
    → ReadsValue h n v cs
    → ReadsValue (record h { errnum = e }) n v cs
reads_value h e n none cs r = tt
reads_value h e n (some v) cs r = r

pub same_readable :
    (h : Handle) (e : ℤ) (n : Str) (items : Hash Attrval)
    → AllReadable h n items
    → AllReadable (record h { errnum = e }) n items
same_readable h e n [] r = tt
same_readable h e n ((k, av) ∷ items) (r, rs) =
    (reads_value h e n av.val av.val_contains_subst r, same_readable h e n items rs)

same_text :
    (h : Handle) (e : ℤ) (n : Str) (v : Option Str) (cs : Bool)
    → text_of (record h { errnum = e }) n v cs ≡ text_of h n v cs
same_text h e n none cs = refl
same_text h e n (some v) cs = refl

pub same_texts :
    (h : Handle) (e : ℤ) (n : Str) (items : Hash Attrval)
    → texts_of (record h { errnum = e }) n items ≡ texts_of h n items
same_texts h e n [] = refl
same_texts h e n ((k, av) ∷ items) =
    rw (same_text h e n av.val av.val_contains_subst, same_texts h e n items) refl
