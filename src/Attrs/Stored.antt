-- ===== src/Attrs/Stored.antt =====
-- What `genders_getattr` stores for a node.
use native.Mathlib.Nat.{add-zero, zero-add}
use genders.Base.{
  ℕ, suc, ◌+◌, ◌≤◌, ◌==◌, true, Option, some, List, [], ◌∷◌, ◌++◌, ◌≡◌, refl, ap, ◌∙◌, arith, ℤ,
  pos, pos_not_negative, length, length-append, length-set, set, Str, Bool-cases, inl, inr,
}
use genders.Libcommon.{Hash, hash_for_each, hostlist_has}
use genders.Handle.{Handle, Hosts, Attrval, err_success}
use genders.Handle.Checks.{IsLoaded, loaded_check-IsLoaded}
use genders.Array.{Array}
use genders.Array.Writes.{writes, writes-IsFilled, length-writes, writes-append, set-IsFilled}
use genders.Lookup.{or_nodename}
use genders.Lookup.Correct.{IsKnown}
use genders.Attrs.{Container, store_attr_val, getattr_hosts, getattr}
use genders.Attrs.Items.{
  node_items, names_of, AllReadable, value_cell, value_cells, HasCells, value_cell-HasCells,
  store_attr_val-cells,
}

-- The container after some items, from one that has room for them.
abbrev Fills : ℕ → Str → Hash Attrval → Container → Container × ℕ → Type 0
Fills m n items gc r =
    (b : Option Str) × (r ≡ (
      record gc {
        handle = record gc.handle { valbuf = b };
        attrs = writes gc.attrs gc.index (names_of items);
        vals = value_cells gc.handle n gc.vals gc.index items;
        index = gc.index + length items;
      },
      length items,
    ))

hash_for_each-Fills :
    (m : ℕ) (n : Str) (items : Hash Attrval) (h : Handle) (attrs : Array) (vals : Option Array)
    (i : ℕ) (e : ℤ)
    → HasCells m (some attrs)
    → HasCells m vals
    → i + length items ≤ m
    → AllReadable h n items
    → (let gc : Container = record {
      handle = h;
      attrs = attrs;
      vals = vals;
      index = i;
      errnum = e;
    } in
        Fills m n items gc (hash_for_each (store_attr_val (pos m) n) items gc))
unfolding writes
hash_for_each-Fills m n [] h attrs vals i e f c room r = (h.valbuf, rw add-zero refl)
hash_for_each-Fills m n ((k, av) ∷ items) h attrs vals i e f c room (r, rs) =
    let (b, one) = store_attr_val-cells m n k av attrs vals i h e f c (omega arith) r in
    let (b', rest) =
      hash_for_each-Fills m n items (record h { valbuf = b }) (set attrs i (some k))
        (value_cell h n vals i av.val av.val_contains_subst) (i + 1) e
        (set-IsFilled attrs i k f.0, length-set attrs i (some k) ∙ f.1)
        (value_cell-HasCells m h n vals i av.val av.val_contains_subst c) (omega arith) rs in
    let next : i + 1 + length items ≡ i + suc (length items) = omega arith in
    let count : length items + 1 ≡ suc (length items) = omega arith in
    (b', rw (one, rest, next, count) refl)

-- The loop over the lines, from a container that has room for the items of the node.
abbrev Collects : ℕ → Str → List Hosts → Container → Option Container × Handle → Type 0
Collects m n hosts gc r =
    (b : Option Str) × (r ≡ (
      some (record gc {
        handle = record gc.handle { valbuf = b };
        attrs = writes gc.attrs gc.index (names_of (node_items n hosts));
        vals = value_cells gc.handle n gc.vals gc.index (node_items n hosts);
        index = gc.index + length (node_items n hosts);
      }),
      record gc.handle { valbuf = b },
    ))

names_of-append : (xs ys : Hash Attrval) → names_of (xs ++ ys) ≡ names_of xs ++ names_of ys
names_of-append [] ys = refl
names_of-append ((k, av) ∷ xs) ys = ap (λ ks. k ∷ ks) (names_of-append xs ys)

pub length-names_of : (xs : Hash Attrval) → length (names_of xs) ≡ length xs
length-names_of [] = refl
length-names_of ((k, av) ∷ xs) = ap suc (length-names_of xs)

value_cells-append :
    (h : Handle) (n : Str) (vals : Option Array) (i : ℕ) (xs ys : Hash Attrval)
    → value_cells h n vals i (xs ++ ys)
      ≡ value_cells h n (value_cells h n vals i xs) (i + length xs) ys
value_cells-append h n vals i [] ys = rw add-zero refl
value_cells-append h n vals i ((k, av) ∷ xs) ys =
    let next : i + 1 + length xs ≡ i + suc (length xs) = omega arith in
    value_cells-append h n (value_cell h n vals i av.val av.val_contains_subst) (i + 1) xs ys
    ∙ rw next refl

value_cells-HasCells :
    (m : ℕ) (h : Handle) (n : Str) (vals : Option Array) (i : ℕ) (xs : Hash Attrval)
    → HasCells m vals
    → HasCells m (value_cells h n vals i xs)
value_cells-HasCells m h n vals i [] c = c
value_cells-HasCells m h n vals i ((k, av) ∷ xs) c =
    value_cells-HasCells m h n (value_cell h n vals i av.val av.val_contains_subst) (i + 1) xs
      (value_cell-HasCells m h n vals i av.val av.val_contains_subst c)

AllReadable-append :
    (h : Handle) (n : Str) (xs ys : Hash Attrval)
    → AllReadable h n (xs ++ ys)
    → AllReadable h n xs × AllReadable h n ys
AllReadable-append h n [] ys r = (tt, r)
AllReadable-append h n ((k, av) ∷ xs) ys (r, rs) =
    let (left, right) = AllReadable-append h n xs ys rs in ((r, left), right)

eq_refl : (n : ℕ) → (n == n) ≡ true
eq_refl n = ground arith

-- A line of the node in front of the others.
getattr_hosts-line :
    (m : ℕ) (n : Str) (gh : Hosts) (hosts : List Hosts) (h : Handle) (attrs : Array)
    (vals : Option Array) (i : ℕ) (e : ℤ) (b b' : Option Str)
    → (let items = gh.attrval_index in
        let gc : Container = record {
          handle = h;
          attrs = attrs;
          vals = vals;
          index = i;
          errnum = e;
        } in
        let gc1 : Container = record {
          handle = record h { valbuf = b };
          attrs = writes attrs i (names_of items);
          vals = value_cells h n vals i items;
          index = i + length items;
          errnum = e;
        } in
        hostlist_has gh.hl n ≡ true
        → hash_for_each (store_attr_val (pos m) n) items gc ≡ (gc1, length items)
        → getattr_hosts (pos m) n hosts gc1 ≡ (
          some (record gc1 {
            handle = record h { valbuf = b' };
            attrs = writes gc1.attrs gc1.index (names_of (node_items n hosts));
            vals = value_cells h n gc1.vals gc1.index (node_items n hosts);
            index = gc1.index + length (node_items n hosts);
          }),
          record h { valbuf = b' },
        )
        → getattr_hosts (pos m) n (gh ∷ hosts) gc ≡ (
          some (record gc {
            handle = record h { valbuf = b' };
            attrs = writes attrs i (names_of (node_items n (gh ∷ hosts)));
            vals = value_cells h n vals i (node_items n (gh ∷ hosts));
            index = i + length (node_items n (gh ∷ hosts));
          }),
          record h { valbuf = b' },
        ))
unfolding getattr_hosts
getattr_hosts-line m n gh hosts h attrs vals i e b b' here one rest =
    let items = gh.attrval_index in
    let rest_items = node_items n hosts in
    let total : i + length (items ++ rest_items) ≡ i + length items + length rest_items =
      omega (arith, length-append items rest_items) in
    rw
      (
        here,
        one,
        eq_refl (length items),
        rest,
        total,
        names_of-append items rest_items,
        writes-append attrs i (names_of items) (names_of rest_items),
        length-names_of items,
        value_cells-append h n vals i items rest_items,
      )
      refl

getattr_hosts-Collects :
    (m : ℕ) (n : Str) (hosts : List Hosts) (h : Handle) (attrs : Array) (vals : Option Array)
    (i : ℕ) (e : ℤ)
    → HasCells m (some attrs)
    → HasCells m vals
    → i + length (node_items n hosts) ≤ m
    → AllReadable h n (node_items n hosts)
    → (let gc : Container = record {
      handle = h;
      attrs = attrs;
      vals = vals;
      index = i;
      errnum = e;
    } in
        Collects m n hosts gc (getattr_hosts (pos m) n hosts gc))
unfolding getattr_hosts writes
getattr_hosts-Collects m n [] h attrs vals i e f c room r = (h.valbuf, rw add-zero refl)
getattr_hosts-Collects m n (gh ∷ hosts) h attrs vals i e f c room r =
    elim (Bool-cases (hostlist_has gh.hl n)) [
      | inr away ↦
          let (b, rest) =
            getattr_hosts-Collects m n hosts h attrs vals i e f c (rw away at room)
              (rw away at r) in
          (b, rw (away, rest) refl)
      | inl here ↦
          let items = gh.attrval_index in
          let rest_items = node_items n hosts in
          let sum = length-append items rest_items in
          let (reads, reads_rest) = AllReadable-append h n items rest_items (rw here at r) in
          let room' : i + length (items ++ rest_items) ≤ m = rw here at room in
          let (b, one) =
            hash_for_each-Fills m n items h attrs vals i e f c (omega (arith, sum, room')) reads in
          let (b', rest) =
            getattr_hosts-Collects m n hosts (record h { valbuf = b })
              (writes attrs i (names_of items)) (value_cells h n vals i items) (i + length items) e
              (
                writes-IsFilled attrs i (names_of items) f.0,
                length-writes attrs i (names_of items) ∙ f.1,
              )
              (value_cells-HasCells m h n vals i items c) (omega (arith, sum, room')) reads_rest in
          (b', getattr_hosts-line m n gh hosts h attrs vals i e b b' here one rest)
    ]

-- `genders_getattr` for a node of the database, with arrays of non-NULL cells that have room for
-- the attributes of its lines, where its values can be read: it returns their number, stores their
-- names in the order of the lines and their hashes, and, if `vals` is not NULL, the value of each
-- one that has a value into the cell of the same place. The other cells, those of attributes
-- without a value too, keep their contents. The error code is set to success.
pub getattr-stores :
    (node : Option Str) (attrs : Array) (vals : Option Array) (h : Handle)
    → IsLoaded h
    → IsKnown h (or_nodename node h)
    → HasCells (length attrs) (some attrs)
    → HasCells (length attrs) vals
    → length (node_items (or_nodename node h) h.genders_hosts) ≤ length attrs
    → AllReadable h (or_nodename node h) (node_items (or_nodename node h) h.genders_hosts)
    → (let items = node_items (or_nodename node h) h.genders_hosts in
        (b : Option Str) × (getattr (some attrs) vals (pos (length attrs)) node h ≡ (
          some (
            length items,
            writes attrs 0 (names_of items),
            value_cells h (or_nodename node h) vals 0 items,
          ),
          record h { errnum = err_success; valbuf = b },
        )))
unfolding getattr
getattr-stores node attrs vals h l k f c room r =
    let (b, done) =
      getattr_hosts-Collects (length attrs) (or_nodename node h) h.genders_hosts h attrs vals 0
        (pos 0) f c (omega (arith, room)) r in
    (
      b,
      rw
          (
            loaded_check-IsLoaded h l,
            pos_not_negative (length attrs),
            k.some_nodes,
            k.listed,
            done,
            zero-add,
          )
          refl,
    )
