-- ===== src/Array/Writes.antt =====
-- Successive calls of `_genders_put_in_array`, as one write of a list of strings.
use genders.Base.{
  ℕ, suc, ◌+◌, ◌≤◌, ◌<◌, Option, none, some, List, [], ◌∷◌, ◌++◌, ◌≡◌, refl, ◌∙◌, arith, pos,
  length, length-set, get_elem?, set, Str, replicate, zero,
}
use native.Mathlib.Nat.{add-zero}
use genders.Handle.{Handle, err_overflow}
use genders.Array.{Array, put_in_array}

-- No cell is a NULL pointer.
abbrev pub IsFilled : Array → Type 0
IsFilled [] = Unit
IsFilled (none ∷ list) = ⊥
IsFilled (some s ∷ list) = IsFilled list

-- The strings stored from an index on.
unfoldable pub writes : Array → ℕ → List Str → Array
writes list index [] = list
writes list index (s ∷ strs) = writes (set list index (some s)) (index + 1) strs

-- The strings in the first cells.
abbrev pub stored : ℕ → Array → List Str
stored zero list = []
stored (suc n) [] = []
stored (suc n) (none ∷ list) = [] ∷ stored n list
stored (suc n) (some s ∷ list) = s ∷ stored n list

pub set-IsFilled : (list : Array) (i : ℕ) (s : Str) → IsFilled list → IsFilled (set list i (some s))
set-IsFilled [] i s f = tt
set-IsFilled (none ∷ list) i s f = absurd f
set-IsFilled (some t ∷ list) zero s f = f
set-IsFilled (some t ∷ list) (suc i) s f = set-IsFilled list i s f

pub writes-IsFilled :
    (list : Array) (i : ℕ) (strs : List Str) → IsFilled list → IsFilled (writes list i strs)
unfolding writes
writes-IsFilled list i [] f = f
writes-IsFilled list i (s ∷ strs) f = writes-IsFilled _ (i + 1) strs (set-IsFilled list i s f)

pub length-writes :
    (list : Array) (i : ℕ) (strs : List Str) → length (writes list i strs) ≡ length list
unfolding writes
length-writes list i [] = refl
length-writes list i (s ∷ strs) =
    length-writes (set list i (some s)) (i + 1) strs ∙ length-set list i (some s)

pub writes-append :
    (list : Array) (i : ℕ) (xs ys : List Str)
    → writes list i (xs ++ ys) ≡ writes (writes list i xs) (i + length xs) ys
unfolding writes
writes-append list i [] ys = rw add-zero
writes-append list i (x ∷ xs) ys =
    let e : i + 1 + length xs ≡ i + suc (length xs) = omega arith in
    rw (writes-append (set list i (some x)) (i + 1) xs ys, e)

-- Writing cells behind the first one leaves the first one alone.
writes-cons :
    (cell : Option Str) (list : Array) (i : ℕ) (strs : List Str)
    → writes (cell ∷ list) (suc i) strs ≡ cell ∷ writes list i strs
unfolding writes
writes-cons cell list i [] = refl
writes-cons cell list i (s ∷ strs) =
    let e : suc i + 1 ≡ suc (i + 1) = omega arith in
    rw (e, writes-cons cell (set list i (some s)) (i + 1) strs)

-- What was written from the start of a large enough array is what its first cells hold.
pub stored-writes :
    (list : Array) (strs : List Str)
    → length strs ≤ length list
    → stored (length strs) (writes list 0 strs) ≡ strs
unfolding writes
stored-writes list [] h = refl
stored-writes [] (s ∷ strs) h = absurd (omega arith)
stored-writes (cell ∷ list) (s ∷ strs) h =
    rw (writes-cons (some s) list 0 strs, stored-writes list strs (omega arith))

get_elem?-IsFilled :
    (list : Array) (i : ℕ)
    → IsFilled list
    → i < length list
    → (s : Str) × (get_elem? list i ≡ some (some s))
get_elem?-IsFilled [] i f h = elim h [ ]
get_elem?-IsFilled (none ∷ list) i f h = absurd f
get_elem?-IsFilled (some s ∷ list) zero f h = (s, refl)
get_elem?-IsFilled (some s ∷ list) (suc i) f h = get_elem?-IsFilled list i f (omega arith)

-- Within an array of non-NULL cells the call writes its cell.
pub put_in_array-set :
    (s : Str) (list : Array) (i : ℕ) (h : Handle)
    → IsFilled list
    → i < length list
    → put_in_array s list i (pos (length list)) h ≡ (some (set list i (some s)), h)
unfolding put_in_array
put_in_array-set s list i h f lt = let (t, e) = get_elem?-IsFilled list i f lt in ground arith

-- Past the length that the caller gave, it reports an overflow and writes nothing.
pub put_in_array-overflow :
    (s : Str) (list : Array) (i n : ℕ) (h : Handle)
    → n ≤ i
    → put_in_array s list i (pos n) h ≡ (none, record h { errnum = err_overflow })
unfolding put_in_array
put_in_array-overflow s list i n h le = ground arith

pub replicate-IsFilled : (n : ℕ) → IsFilled (replicate n (some []))
replicate-IsFilled zero = tt
replicate-IsFilled (suc n) = replicate-IsFilled n
