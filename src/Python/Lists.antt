-- ===== src/Python/Lists.antt =====
-- src/extensions/python/libgendersmodule.c: the methods that give a list, as a text with commas.
use genders.Base.{
  ℕ, ℤ, pos, true, Option, none, some, List, [], ◌∷◌, ◌++◌, ◌⊎◌, Str, ◌==◌, if◌then◌else◌,
}
use genders.Libcommon.{Libcommon}
use genders.Handle.{Handle, M}
use genders.Handle.Checks.{genders_errnum}
use genders.Array.{Array, nodelist_create, nodelist_destroy, attrlist_create, attrlist_destroy}
use genders.Array.Writes.{stored}
use genders.Nodes.{getnodes}
use genders.Attrs.{getattr, getattr_all}
use genders.Query.{Tree, query}
use genders.Load.{getmaxnodelen, getmaxattrlen, set_errnum}
use genders.Python.Object.{Python, Libgenders, Method, raise, exception_check, build, call}

-- The text that the loop of `_build_comma_separated_string` writes.
unfoldable pub comma_separated : List Str → Str
comma_separated [] = []
comma_separated (s ∷ []) = s
comma_separated (s ∷ t ∷ ss) = s ++ (b',' ∷ comma_separated (t ∷ ss))

module _ (P : Python) where
  open P use {Object, text_value}

  -- `_build_comma_separated_string`, where the memory is had.
  unfoldable pub build_comma_separated_string : List Str → Method P
  build_comma_separated_string itemlist = build P (text_value (some (comma_separated itemlist)))

  -- What is done with a list of `itemlistlen` texts, `getmaxlen` being the call for their length.
  unfoldable pub build_list : M ℕ → ℕ → Array → Method P
  build_list getmaxlen itemlistlen itemlist =
      if itemlistlen == 0
      then build P (text_value none)
      else call P getmaxlen λ maxitemlen. build_comma_separated_string (stored itemlistlen itemlist)

  -- The label `cleanup`: the list is destroyed, and the error code stays as it was.
  unfoldable pub cleanup :
      (Option Array → M (Unit {0}))
      → Option Array
      → Option Object × Libgenders
      → Option Object × Libgenders
  cleanup destroy list (rv, self) =
      let errnum = genders_errnum (some self.gh) in
      (rv, record self { gh = (set_errnum errnum (destroy list self.gh).1).1 })

  -- A method behind the creation of its list: `fill` is the call that stores the texts.
  abbrev pub with_created :
      (Option Array → M (Unit {0}))
      → M ℕ
      → (Option Array → ℤ → M (ℕ × Array))
      → Option (Option Array × ℕ) × Handle
      → Method P
  with_created destroy getmaxlen fill (none, h) self =
      cleanup destroy none (none, exception_check (record self { gh = h }))
  with_created destroy getmaxlen fill (some (list, len), h) self = cleanup destroy list (
      call P (fill list (pos len)) (λ found. build_list getmaxlen found.0 found.1)
        (record self { gh = h }))

  unfoldable pub with_list :
      M (Option Array × ℕ)
      → (Option Array → M (Unit {0}))
      → M ℕ
      → (Option Array → ℤ → M (ℕ × Array))
      → Method P
  with_list create destroy getmaxlen fill self =
      with_created destroy getmaxlen fill (create self.gh) self

  -- `Libgenders_getnodes`
  unfoldable pub libgenders_getnodes : Option (Option Str × Option Str) → Method P
  libgenders_getnodes none self = cleanup nodelist_destroy none (none, raise self)
  libgenders_getnodes (some (attr, val)) self =
      with_list (nodelist_create true) nodelist_destroy getmaxnodelen
        (λ nodelist len. getnodes nodelist len attr val) self

  -- The names that `genders_getattr` stores.
  abbrev pub names_found : Option (ℕ × Array × Option Array) × Handle → Option (ℕ × Array) × Handle
  names_found (none, h) = (none, h)
  names_found (some (n, names, vals), h) = (some (n, names), h)

  abbrev pub getattr_names : Option Str → Option Array → ℤ → M (ℕ × Array)
  getattr_names node attrs len h = names_found (getattr attrs none len node h)

  -- `Libgenders_getattr`
  unfoldable pub libgenders_getattr : Option (Option Str) → Method P
  libgenders_getattr none self = cleanup attrlist_destroy none (none, raise self)
  libgenders_getattr (some node) self =
      with_list (attrlist_create true) attrlist_destroy getmaxattrlen (getattr_names node) self

  -- `Libgenders_getattr_all`
  unfoldable pub libgenders_getattr_all : Method P
  libgenders_getattr_all =
      with_list (attrlist_create true) attrlist_destroy getmaxattrlen getattr_all

  -- `Libgenders_query`
  unfoldable pub libgenders_query : Libcommon → (Str → ℤ ⊎ Tree) → Option (Option Str) → Method P
  libgenders_query L parse_query none self = cleanup nodelist_destroy none (none, raise self)
  libgenders_query L parse_query (some q) self =
      with_list (nodelist_create true) nodelist_destroy getmaxnodelen
        (λ nodelist len. query L parse_query nodelist len q) self
