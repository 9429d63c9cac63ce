-- ===== src/Attrs/All.antt =====
-- What `genders_getattr_all` stores: the keys of the table of attributes.
use genders.Base.{
  ℕ, suc, ◌+◌, ◌≤◌, ◌<◌, ◌==◌, true, false, some, none, List, [], ◌∷◌, ◌≡◌, refl, ap, ◌∙◌, arith, ℤ,
  pos, pos_not_negative, ltb_ℤ, length, length-set, set, Str, Bool-cases, inl, inr, leb,
  if◌then◌else◌,
}
use native.Mathlib.Nat.{add-zero}
use genders.Libcommon.{Hash, hash_for_each}
use genders.Handle.{Handle, err_success, err_overflow}
use genders.Handle.Checks.{IsLoaded, loaded_check-IsLoaded}
use genders.Array.{Array}
use genders.Array.Writes.{IsFilled, writes, set-IsFilled, put_in_array-set}
use genders.Attrs.{store_attr, getattr_all}

-- The keys in the order of the hash.
abbrev pub keys_of : Hash Str → List Str
keys_of [] = []
keys_of ((k, s) ∷ items) = k ∷ keys_of items

store_attr-writes :
    (m : ℕ) (k v : Str) (list : Array) (i : ℕ) (h : Handle) (e : ℤ)
    → IsFilled list
    → length list ≡ m
    → i < m
    → store_attr (pos m) k v (record { handle = h; attrs = list; index = i; errnum = e })
      ≡ (record { handle = h; attrs = set list i (some k); index = i + 1; errnum = e }, true)
unfolding store_attr
store_attr-writes m k v list i h e f same lt =
    let put = rw same at (put_in_array-set k list i h f (omega (arith, same))) in
    let same_handle = ap (λ r. r.1) put in rw (store_attr, put, same_handle) refl

hash_for_each-store_attr :
    (m : ℕ) (items : Hash Str) (list : Array) (i : ℕ) (h : Handle) (e : ℤ)
    → IsFilled list
    → length list ≡ m
    → i + length items ≤ m
    → hash_for_each
        (store_attr (pos m))
        items
        (record { handle = h; attrs = list; index = i; errnum = e })
      ≡ (
        record {
          handle = h;
          attrs = writes list i (keys_of items);
          index = i + length items;
          errnum = e;
        },
        length items,
      )
unfolding writes
hash_for_each-store_attr m [] list i h e f same room = rw add-zero refl
hash_for_each-store_attr m ((k, s) ∷ items) list i h e f same room =
    let one = store_attr-writes m k s list i h e f same (omega arith) in
    let rest =
      hash_for_each-store_attr m items (set list i (some k)) (i + 1) h e (set-IsFilled list i k f)
        (length-set list i (some k) ∙ same) (omega arith) in
    let next : i + 1 + length items ≡ i + suc (length items) = omega arith in
    let count : length items + 1 ≡ suc (length items) = omega arith in
    rw (one, rest, next, count) refl

-- `genders_getattr_all` on a loaded database whose table holds `numattrs` attributes, for an array
-- of non-NULL cells: if the array has room for them, the call returns their number, stores each
-- attribute of the table in the order of the hash, and sets the error code to success; otherwise it
-- fails with an overflow and stores nothing.
pub getattr_all-stores :
    (list : Array) (h : Handle)
    → IsLoaded h
    → h.numattrs ≡ length h.attrs
    → IsFilled list
    → getattr_all (some list) (pos (length list)) h ≡ (
        if leb h.numattrs (length list)
        then (some (h.numattrs, writes list 0 (keys_of h.attrs)), record h { errnum = err_success })
        else (none, record h { errnum = err_overflow }))
unfolding getattr_all
getattr_all-stores list h l counted f = elim (Bool-cases (leb h.numattrs (length list))) [
  | inl room ↦
      let enough : ltb_ℤ (pos (length list)) (pos h.numattrs) ≡ false = ground arith in
      let done =
        hash_for_each-store_attr (length list) h.attrs list 0 h (pos 0) f refl (ground arith) in
      let all : (length h.attrs == h.numattrs) ≡ true = ground arith in
      rw (loaded_check-IsLoaded h l, pos_not_negative (length list), enough, room, done, all) refl
  | inr short ↦
      let over : ltb_ℤ (pos (length list)) (pos h.numattrs) ≡ true = ground arith in
      rw (loaded_check-IsLoaded h l, pos_not_negative (length list), over, short) refl
]
