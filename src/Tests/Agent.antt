-- ===== src/Tests/Agent.antt =====
-- The theorem on the agent module of cfengine, for the node n2 of the small database.
use genders.Base.{◌≤◌, true, some, [], ◌∷◌, ◌≡◌, ◌≢◌, refl, codes, arith, length, pos, str_eq}
use genders.Handle.{Handle}
use genders.Lookup.Correct.{IsKnown}
use genders.Attrs.Items.{node_items, names_of, AllReadable}
use genders.Load.{load_data, handle_create}
use genders.Cfengine.{cfagent_module_getclasses, hard_classes, valued_class}
use genders.Cfengine.Classes.{classes_of, getclasses-items}
use genders.Cfengine.Texts.{texts_of}
use genders.Tests.Hostlists.{plain, plain-HashLaws}
use genders.Tests.Setup.{file, db, load_test}
use genders.Tests.Values.{n2-IsKnown}

abbrev read : Handle
read = (load_data plain (some file) (some (codes "n1.site")) handle_create).1

read-IsKnown : IsKnown read (codes "n2")
read-IsKnown = rw (read, load_test) n2-IsKnown

read_attrs : read.numattrs ≢ 0
read_attrs = rw (read, load_test) (λ e. cc)

n2_few : length (node_items (codes "n2") db.genders_hosts) ≤ 3
unfolding str_eq
n2_few = omega arith

n2_readable : AllReadable db (codes "n2") (node_items (codes "n2") db.genders_hosts)
unfolding str_eq
n2_readable = (tt, (refl, tt))

getclasses-items_example :
    (let items = node_items (codes "n2") read.genders_hosts in
      cfagent_module_getclasses plain true (some file) (some (codes "n1.site")) (some (codes "n2"))
      ≡ record { rc = pos 0; classes = classes_of read (codes "n2") items; stderr = [] })
getclasses-items_example =
    getclasses-items plain plain-HashLaws (some file) (some (codes "n1.site")) (some (codes "n2"))
      (rw load_test refl) read_attrs read-IsKnown (rw load_test n2_few) (rw load_test n2_readable)

-- What these classes are.
classes_test :
    (let items = node_items (codes "n2") db.genders_hosts in
      hard_classes (names_of items) (texts_of db (codes "n2") items)
      ≡ codes "c" ∷ codes "a" ∷ codes "a_is_y" ∷ [])
unfolding str_eq hard_classes valued_class
classes_test = refl
