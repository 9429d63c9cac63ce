-- ===== src/Copy/Lines.antt =====
-- The loops over the items of a hash copy it as `_genders_rehash` does.
use genders.Base.{
  ℕ, suc, ◌+◌, true, false, some, List, [], ◌∷◌, ℤ, pos, ◌==◌, ◌≡◌, refl, ◌∙◌, sym, ap, arith,
  length, is_some, Str,
}
use genders.Libcommon.{Libcommon, HashLaws, Hash, hash_find, hash_for_each, HasDistinctKeys}
use genders.Handle.{Handle, Hosts, Attrval, err_internal, err_outmem}
use genders.Parse.Attributes.{reinsert}
use genders.Parse.Rehash.{Apart, Apart-place, Apart-nil, find-reinsert, or_else-none}
use genders.Load.{handle_create}
use genders.Copy.{Copying, copy_item, copy_attrvals, copy_attr, copied_all, copy_hosts, copy_attrs}

-- The items of a table are stored under their own names.
abbrev pub IsNamed : Hash Attrval → Type 0
IsNamed [] = Unit
IsNamed ((k, av) ∷ index) = (av.attr ≡ k) × IsNamed index

abbrev pub IsNamedStr : Hash Str → Type 0
IsNamedStr [] = Unit
IsNamedStr ((k, s) ∷ attrs) = (s ≡ k) × IsNamedStr attrs

-- A line that can be copied.
abbrev pub CanCopyLines : List Hosts → Type 0
CanCopyLines [] = Unit
CanCopyLines (gh ∷ hosts) =
    (IsNamed gh.attrval_index × HasDistinctKeys gh.attrval_index) × CanCopyLines hosts

-- Lines with the same hosts and the same items.
abbrev pub SameLines : List Hosts → List Hosts → Type 0
SameLines [] [] = Unit
SameLines [] (g ∷ gs) = ⊥
SameLines (h ∷ hs) [] = ⊥
SameLines (h ∷ hs) (g ∷ gs) =
    ((g.hl ≡ h.hl) × ((j : Str) → hash_find g.attrval_index j ≡ hash_find h.attrval_index j))
    × SameLines hs gs

copy_item-place :
    (L : Libcommon) (V : Type 0) (size : ℕ) (k : Str) (v : V) (e : ℤ) (c : Copying V)
    → is_some (hash_find c.table k) ≡ false
    → copy_item L V size k v e c ≡ (record c { table = L.place V size k v c.table }, true)
unfolding copy_item
copy_item-place L V size k v e c fresh = rw fresh refl

copy_attrvals-place :
    (L : Libcommon) (size : ℕ) (k : Str) (av : Attrval) (c : Copying Attrval)
    → av.attr ≡ k
    → is_some (hash_find c.table k) ≡ false
    → copy_attrvals L size k av c ≡ (record c { table = L.place Attrval size k av c.table }, true)
unfolding copy_attrvals
copy_attrvals-place L size k av c named fresh =
    ap (λ x. copy_item L Attrval size x av err_internal c) named
    ∙ copy_item-place L Attrval size k av err_internal c fresh

copy_attr-place :
    (L : Libcommon) (size : ℕ) (k s : Str) (c : Copying Str)
    → s ≡ k
    → is_some (hash_find c.table k) ≡ false
    → copy_attr L size k s c ≡ (record c { table = L.place Str size k s c.table }, true)
unfolding copy_attr
copy_attr-place L size k s c named fresh =
    copy_item-place L Str size k k err_outmem c fresh
    ∙ ap (λ (x : Str). (record c { table = L.place Str size k x c.table }, true)) (sym named)

eq_refl : (n : ℕ) → (n == n) ≡ true
eq_refl n = ground arith

module _ (L : Libcommon) (laws : HashLaws L) where
  attrvals-reinsert :
      (size : ℕ) (index new : Hash Attrval) (h : Handle) (e : ℤ)
      → IsNamed index
      → HasDistinctKeys index
      → Apart L laws Attrval index new
      → hash_for_each (copy_attrvals L size) index (record { handle = h; table = new; errnum = e })
        ≡ (
          record { handle = h; table = reinsert L Attrval size index new; errnum = e },
          length index,
        )
  unfolding reinsert
  attrvals-reinsert size [] new h e n d a = refl
  attrvals-reinsert size ((k, av) ∷ index) new h e n d a =
      let one : length index + 1 ≡ suc (length index) = omega arith in
      rw (copy_attrvals-place L size k av (record { handle = h; table = new; errnum = e }) n.0 a.0)
        (rw
          (attrvals-reinsert size index (L.place Attrval size k av new) h e n.1 d.1
            (Apart-place L laws Attrval size k av index new d.0 a.0 a.1))
          (rw one refl))

  attrs-reinsert :
      (size : ℕ) (attrs new : Hash Str) (h : Handle) (e : ℤ)
      → IsNamedStr attrs
      → HasDistinctKeys attrs
      → Apart L laws Str attrs new
      → hash_for_each (copy_attr L size) attrs (record { handle = h; table = new; errnum = e })
        ≡ (record { handle = h; table = reinsert L Str size attrs new; errnum = e }, length attrs)
  unfolding reinsert
  attrs-reinsert size [] new h e n d a = refl
  attrs-reinsert size ((k, s) ∷ attrs) new h e n d a =
      let one : length attrs + 1 ≡ suc (length attrs) = omega arith in
      rw (copy_attr-place L size k s (record { handle = h; table = new; errnum = e }) n.0 a.0) (
        rw
          (attrs-reinsert size attrs (L.place Str size k s new) h e n.1 d.1
            (Apart-place L laws Str size k s attrs new d.0 a.0 a.1))
          (rw one refl))

  -- The loop over the lines succeeds and changes nothing in the handle.
  pub copy_hosts-SameLines :
      (hosts : List Hosts) (h : Handle)
      → CanCopyLines hosts
      → (copied : List Hosts) × (copy_hosts L hosts h ≡ (some copied, h)) × SameLines hosts copied
  unfolding copy_hosts copied_all
  copy_hosts-SameLines [] h can = ([], refl, tt)
  copy_hosts-SameLines (gh ∷ hosts) h can =
      let (rest, done, same) = copy_hosts-SameLines hosts h can.1 in
      let index = reinsert L Attrval gh.attrval_index_size gh.attrval_index [] in
      let new : Hosts = record {
        hl = gh.hl;
        attrval_index = index;
        attrval_index_size = gh.attrval_index_size;
      } in
      (
        new ∷ rest,
        rw
            (attrvals-reinsert gh.attrval_index_size gh.attrval_index [] h (pos 0) can.0.0 can.0.1
              (Apart-nil L laws Attrval gh.attrval_index))
            (rw (eq_refl (length gh.attrval_index), done) refl),
        (
          (
            refl,
            λ j.
                find-reinsert L laws Attrval gh.attrval_index_size gh.attrval_index [] j can.0.1
                  (Apart-nil L laws Attrval gh.attrval_index)
                ∙ or_else-none (hash_find gh.attrval_index j),
          ),
          same,
        ),
      )

  pub copy_attrs-find :
      (h : Handle)
      → IsNamedStr h.attrs
      → HasDistinctKeys h.attrs
      → h.numattrs ≡ length h.attrs
      → (copied : Hash Str) × (copy_attrs L h ≡ (some copied, h))
        × ((j : Str) → hash_find copied j ≡ hash_find h.attrs j)
  unfolding copy_attrs copied_all
  copy_attrs-find h named d counted =
      let size = handle_create.attrs_size in
      (
        reinsert L Str size h.attrs [],
        rw (attrs-reinsert size h.attrs [] h (pos 0) named d (Apart-nil L laws Str h.attrs))
            (rw (counted, eq_refl (length h.attrs)) refl),
        λ j.
            find-reinsert L laws Str size h.attrs [] j d (Apart-nil L laws Str h.attrs)
            ∙ or_else-none (hash_find h.attrs j),
      )
