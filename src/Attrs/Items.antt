-- ===== src/Attrs/Items.antt =====
-- One item of `genders_getattr`: the cells that it writes.
use genders.Base.{
  ℕ, ◌+◌, ◌<◌, Bool, true, Option, none, some, List, [], ◌∷◌, ◌++◌, ◌≡◌, refl, ap, ◌∙◌, arith, ℤ,
  pos, length, length-set, set, if◌then◌else◌, Str,
}
use genders.Libcommon.{Hash, hostlist_has}
use genders.Handle.{Handle, Hosts, Attrval}
use genders.Value.Expand.{shown, is_readable, get_valptr-shown}
use genders.Array.{Array, put_in_array}
use genders.Array.Writes.{IsFilled, put_in_array-set, set-IsFilled}
use genders.Attrs.{after_both, store_both, store_attr_val}

-- The items of the lines of a node, in the order of the lines and of their hashes.
abbrev pub node_items : Str → List Hosts → Hash Attrval
node_items n [] = []
node_items n (gh ∷ hosts) =
    if hostlist_has gh.hl n then gh.attrval_index ++ node_items n hosts else node_items n hosts

abbrev pub names_of : Hash Attrval → List Str
names_of [] = []
names_of ((k, av) ∷ items) = k ∷ names_of items

-- The values of the node can be read.
abbrev pub ReadsValue : Handle → Str → Option Str → Bool → Type 0
ReadsValue h n none contains_subst = Unit {0}
ReadsValue h n (some v) contains_subst = is_readable h n v contains_subst ≡ true

abbrev pub AllReadable : Handle → Str → Hash Attrval → Type 0
AllReadable h n [] = Unit {0}
AllReadable h n ((k, av) ∷ items) =
    ReadsValue h n av.val av.val_contains_subst × AllReadable h n items

-- The array of values after one item: a cell is written where there is a value.
abbrev pub value_cell : Handle → Str → Option Array → ℕ → Option Str → Bool → Option Array
value_cell h n none i v contains_subst = none
value_cell h n (some list) i none contains_subst = some list
value_cell h n (some list) i (some v) contains_subst =
    some (set list i (some (shown h n v contains_subst)))

abbrev pub value_cells : Handle → Str → Option Array → ℕ → Hash Attrval → Option Array
value_cells h n vals i [] = vals
value_cells h n vals i ((k, av) ∷ items) =
    value_cells h n (value_cell h n vals i av.val av.val_contains_subst) (i + 1) items

-- An array of non-NULL cells of some length, if there is one.
abbrev pub HasCells : ℕ → Option Array → Type 0
HasCells m none = Unit {0}
HasCells m (some list) = IsFilled list × (length list ≡ m)

pub value_cell-HasCells :
    (m : ℕ) (h : Handle) (n : Str) (vals : Option Array) (i : ℕ) (v : Option Str) (cs : Bool)
    → HasCells m vals
    → HasCells m (value_cell h n vals i v cs)
value_cell-HasCells m h n none i v cs c = tt
value_cell-HasCells m h n (some list) i none cs c = c
value_cell-HasCells m h n (some list) i (some v) cs (f, e) =
    (set-IsFilled list i (shown h n v cs) f, length-set list i _ ∙ e)

put_cell :
    (m : ℕ) (s : Str) (list : Array) (i : ℕ) (h : Handle)
    → IsFilled list
    → length list ≡ m
    → i < m
    → put_in_array s list i (pos m) h ≡ (some (set list i (some s)), h)
put_cell m s list i h f e lt = rw (← e) (put_in_array-set s list i h f (omega (arith, e, lt)))

store_both-cells :
    (m : ℕ) (n key attr : Str) (v : Option Str) (cs : Bool) (attrs : Array) (vals : Option Array)
    (i : ℕ) (h : Handle)
    → HasCells m (some attrs)
    → HasCells m vals
    → i < m
    → ReadsValue h n v cs
    → (b : Option Str) × (store_both
          (pos m)
          n
          key
          (record { attr = attr; val = v; val_contains_subst = cs })
          attrs
          vals
          i
          h
        ≡ (some (set attrs i (some key), value_cell h n vals i v cs), record h { valbuf = b }))
unfolding store_both
store_both-cells m n key attr v cs attrs none i h (f, e) c lt r =
    (h.valbuf, rw (put_cell m key attrs i h f e lt) refl)
store_both-cells m n key attr none cs attrs (some list) i h (f, e) c lt r =
    (h.valbuf, rw (put_cell m key attrs i h f e lt) refl)
store_both-cells m n key attr (some v) cs attrs (some list) i h (f, e) (fv, ev) lt r =
    let (b, read) = get_valptr-shown h n v cs r in
    (
      b,
      rw
          (
            put_cell m key attrs i h f e lt,
            read,
            put_cell m (shown h n v cs) list i (record h { valbuf = b }) fv ev lt,
          )
          refl,
    )

pub store_attr_val-cells :
    (m : ℕ) (n key : Str) (av : Attrval) (attrs : Array) (vals : Option Array) (i : ℕ) (h : Handle)
    (e : ℤ)
    → HasCells m (some attrs)
    → HasCells m vals
    → i < m
    → ReadsValue h n av.val av.val_contains_subst
    → (b : Option Str) × (store_attr_val
          (pos m)
          n
          key
          av
          (record { handle = h; attrs = attrs; vals = vals; index = i; errnum = e })
        ≡ (
          record {
            handle = record h { valbuf = b };
            attrs = set attrs i (some key);
            vals = value_cell h n vals i av.val av.val_contains_subst;
            index = i + 1;
            errnum = e;
          },
          true,
        ))
unfolding store_attr_val
store_attr_val-cells m n key av attrs vals i h e f c lt r =
    let (b, both) =
      store_both-cells m n key av.attr av.val av.val_contains_subst attrs vals i h f c lt r in
    let same : store_both (pos m) n key av attrs vals i h ≡ (
      some (set attrs i (some key), value_cell h n vals i av.val av.val_contains_subst),
      record h { valbuf = b },
    ) =
      both in
    (
      b,
      ap (after_both (record { handle = h; attrs = attrs; vals = vals; index = i; errnum = e }))
          same,
    )
