-- ===== src/Cfengine/Classes.antt =====
-- The classes that are registered, from the lines of the database.
use genders.Base.{
  take, codes, List, ◌∷◌, ap, ◌++◌, ◌≤◌, true, Option, none, some, [], ◌≡◌, ◌≢◌, refl, ◌∙◌, arith,
  pos, is_some, length, length-replicate, replicate, Str,
}
use genders.Libcommon.{Libcommon, HashLaws, Hash}
use genders.Handle.{Handle, Attrval, err_success}
use genders.Handle.Checks.{IsLoaded, loaded_check-IsLoaded}
use genders.Array.{Array, attrlist_create, vallist_create, list_create}
use genders.Array.Writes.{writes, stored, stored-writes, replicate-IsFilled}
use genders.Lookup.{or_nodename}
use genders.Lookup.Correct.{IsKnown}
use genders.Attrs.Items.{node_items, names_of, AllReadable, value_cells}
use genders.Attrs.Stored.{getattr-stores, length-names_of}
use genders.Parse.File.{File}
use genders.Load.{load_data, handle_create, getmaxattrs, getnumattrs}
use genders.Load.Correct.{IsDatabase, Loads, handle_create-IsEmpty, load_data-Loads}
use genders.Cfengine.{
  valued_class, hard_classes, registered, with_attrs, with_database, cfagent_module_getclasses,
}
use genders.Cfengine.Texts.{
  FreshFrom, replicate-AllFresh, value_cells-writes, length-texts_of, same_node, same_readable,
  same_texts, texts_of, text_of,
}

-- The classes of one attribute: its name and, for a text that is not empty, the first 8190 bytes of
-- the name, "_is_" and the text.
abbrev pub classes_of_item : Str → Str → List Str
classes_of_item key [] = key ∷ []
classes_of_item key (c ∷ val) = key ∷ take 8190 (key ++ codes "_is_" ++ c ∷ val) ∷ []

-- The classes of the items of a node.
abbrev pub classes_of : Handle → Str → Hash Attrval → List Str
classes_of h n [] = []
classes_of h n ((key, av) ∷ items) =
    classes_of_item key (text_of h n av.val av.val_contains_subst) ++ classes_of h n items

valued_class-cut : (key val : Str) → valued_class key val ≡ take 8190 (key ++ codes "_is_" ++ val)
unfolding valued_class
valued_class-cut key val = refl

hard_classes-item :
    (key val : Str) (keys vals : List Str)
    → hard_classes (key ∷ keys) (val ∷ vals) ≡ classes_of_item key val ++ hard_classes keys vals
unfolding hard_classes
hard_classes-item key [] keys vals = refl
hard_classes-item key (c ∷ val) keys vals =
    ap (λ class. key ∷ class ∷ hard_classes keys vals) (valued_class-cut key (c ∷ val))

hard_classes-items :
    (h : Handle) (n : Str) (items : Hash Attrval)
    → hard_classes (names_of items) (texts_of h n items) ≡ classes_of h n items
unfolding hard_classes
hard_classes-items h n [] = refl
hard_classes-items h n ((key, av) ∷ items) =
    let text = text_of h n av.val av.val_contains_subst in
    hard_classes-item key text (names_of items) (texts_of h n items)
    ∙ ap (λ cs. classes_of_item key text ++ cs) (hard_classes-items h n items)

-- What is stored by `genders_getattr`, read back.
registered-items :
    (h h' : Handle) (n : Str) (items : Hash Attrval) (cells : Array)
    → FreshFrom 0 cells
    → length items ≤ length cells
    → registered (
      some (length items, writes cells 0 (names_of items), value_cells h n (some cells) 0 items),
      h',
    )
      ≡ record {
        rc = pos 0;
        classes = hard_classes (names_of items) (texts_of h n items);
        stderr = [];
      }
registered-items h h' n items cells fresh room =
    let texts = texts_of h n items in
    let ln = length-names_of items in
    let lt = length-texts_of h n items in
    let names : stored (length items) (writes cells 0 (names_of items)) ≡ names_of items =
      rw ln at (stored-writes cells (names_of items) (omega (arith, ln, room))) in
    let values : stored (length items) (writes cells 0 texts) ≡ texts =
      rw lt at (stored-writes cells texts (omega (arith, lt, room))) in
    rw (value_cells-writes h n items cells 0 fresh, names, values) refl

-- The lists and the length on a loaded handle that has attributes.
attrlist_create-loaded :
    (h : Handle)
    → IsLoaded h
    → h.numattrs ≢ 0
    → attrlist_create true h ≡ (
      some (some (replicate h.numattrs (some [])), h.numattrs),
      record h { errnum = err_success },
    )
unfolding attrlist_create list_create
attrlist_create-loaded h l some_attrs = rw (loaded_check-IsLoaded h l) (ground (arith, some_attrs))

vallist_create-loaded :
    (h : Handle)
    → IsLoaded h
    → h.numattrs ≢ 0
    → vallist_create true h ≡ (
      some (some (replicate h.numattrs (some [])), h.numattrs),
      record h { errnum = err_success },
    )
unfolding vallist_create list_create
vallist_create-loaded h l some_attrs = rw (loaded_check-IsLoaded h l) (ground (arith, some_attrs))

getmaxattrs-loaded :
    (h : Handle) → IsLoaded h → getmaxattrs h ≡ (some h.numattrs, record h { errnum = err_success })
unfolding getmaxattrs getnumattrs
getmaxattrs-loaded h l = rw (loaded_check-IsLoaded h l) refl

-- The run on a loaded database.
with_attrs-items :
    (host : Option Str) (h : Handle)
    → IsLoaded h
    → h.numattrs ≢ 0
    → IsKnown h (or_nodename host h)
    → length (node_items (or_nodename host h) h.genders_hosts) ≤ h.numattrs
    → AllReadable h (or_nodename host h) (node_items (or_nodename host h) h.genders_hosts)
    → (let items = node_items (or_nodename host h) h.genders_hosts in
        with_attrs host (attrlist_create true h) ≡ record {
          rc = pos 0;
          classes = hard_classes (names_of items) (texts_of h (or_nodename host h) items);
          stderr = [];
        })
with_attrs-items host h l some_attrs known room readable =
    let h' = record h { errnum = err_success } in
    let l' : IsLoaded h' = record { has_magic = l.has_magic; loaded = l.loaded } in
    let cells : Array = replicate h.numattrs (some []) in
    let same : length cells ≡ h.numattrs = length-replicate h.numattrs (some []) in
    let items = node_items (or_nodename host h) h.genders_hosts in
    let n = or_nodename host h in
    let stores =
      rw (same_node host h err_success) at (getattr-stores host cells (some cells) h' l') in
    let filled = replicate-IsFilled h.numattrs in
    let (b, done) =
      stores (record { some_nodes = known.some_nodes; listed = known.listed }) (filled, refl)
        (filled, refl) (rw same room) (same_readable h err_success n items readable) in
    rw
      (
        attrlist_create-loaded h l some_attrs,
        vallist_create-loaded h' l' some_attrs,
        getmaxattrs-loaded h' l',
        rw same at done,
        ← same_texts h err_success n items,
      )
      (registered-items h' (record h { errnum = err_success; valbuf = b }) n items cells
        (replicate-AllFresh h.numattrs) (rw same room))

module _ (L : Libcommon) (laws : HashLaws L) where
  Loads-IsDatabase :
      (q : Option (Unit {0}) × Handle) → Loads q → is_some q.0 ≡ true → IsDatabase q.1
  Loads-IsDatabase (none, h) e s = cc
  Loads-IsDatabase (some _, h) d s = d

  with_database-attrs :
      (host : Option Str) (q : Option (Unit {0}) × Handle)
      → is_some q.0 ≡ true
      → with_database host q ≡ with_attrs host (attrlist_create true q.1)
  with_database-attrs host (none, h) s = cc
  with_database-attrs host (some _, h) s = refl

  -- A run of `cfagent_module_getclasses` on a file that is there and is loaded, for a host of the
  -- database (the machine's own if none is named) whose values can be read, where the lines give it
  -- no more attributes than the database has: it returns 0, writes nothing to stderr, and registers
  -- for each attribute of its lines, in their order, the attribute and, where its value as the host
  -- reads it is not empty, one class more: the attribute, "_is_" and the value, cut at 8190 bytes.
  pub getclasses-items :
      (file : Option File) (hostname host : Option Str)
      → (let q = load_data L file hostname handle_create in
          let h = q.1 in
          let n = or_nodename host h in
          let items = node_items n h.genders_hosts in
          is_some q.0 ≡ true
          → h.numattrs ≢ 0
          → IsKnown h n
          → length items ≤ h.numattrs
          → AllReadable h n items
          → cfagent_module_getclasses L true file hostname host
            ≡ record { rc = pos 0; classes = classes_of h n items; stderr = [] })
  unfolding cfagent_module_getclasses
  getclasses-items file hostname host loaded some_attrs known room readable =
      let q = load_data L file hostname handle_create in
      let database =
        Loads-IsDatabase q
          (load_data-Loads L laws file hostname handle_create handle_create-IsEmpty).0 loaded in
      with_database-attrs host q loaded
      ∙ with_attrs-items host q.1 database.is_loaded some_attrs known room readable
      ∙ ap (λ cs. record { rc = pos 0; classes = cs; stderr = [] })
          (hard_classes-items q.1 (or_nodename host q.1)
            (node_items (or_nodename host q.1) q.1.genders_hosts))
