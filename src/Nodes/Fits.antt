-- ===== src/Nodes/Fits.antt =====
-- What `genders_getnodes` copies into the caller's cells is no longer than the cells of a list of
-- nodes, for a database whose names are within `maxnodelen`.
use genders.Base.{
  ℕ, zero, suc, ◌≤◌, Bool, true, false, ◌&&◌, Option, none, some, List, [], ◌∷◌, ◌≡◌, refl, arith,
  ℤ, pos, ltb_ℤ, length, get_elem?, set, Str, str_eq, is_some, ◌==◌, if◌then◌else◌, Bool-cases, inl,
  inr, replicate,
}
use genders.Libcommon.{Hostlist, hash_find}
use genders.Handle.{Handle, Hosts, Attrval, M, pure, proceed, magic_num, err_success}
use genders.Handle.Checks.{loaded_handle_error_check}
use genders.Value.{get_valptr}
use genders.Array.{Array, put_in_array}
use genders.Lookup.{or_null, index_is_on}
use genders.Nodes.{
  Cursor, put_node, put_nodes, put_matching, put_line, put_hosts, getnodes_scanned, getnodes_by,
  getnodes,
}
use genders.Parse.Lengths.{AllWithin, LinesWithin}

-- The texts in the cells are no longer than the bound.
abbrev pub CellsWithin : ℕ → Array → Type 0
CellsWithin m [] = Unit
CellsWithin m (none ∷ list) = CellsWithin m list
CellsWithin m (some s ∷ list) = (length s ≤ m) × CellsWithin m list

-- What a call that succeeds leaves.
abbrev pub Leaves {ℓ} : {A : Type ℓ} → (A → Type 0) → Option A × Handle → Type 0
Leaves Q (some a, h) = Q a
Leaves Q (none, h) = Unit

pub proceed-Leaves {ℓ κ} :
    {A : Type ℓ} {B : Type κ} (Q : A → Type 0) (Q' : B → Type 0) (r : Option A × Handle)
    (f : A → M B)
    → Leaves Q r
    → ((a : A) (h : Handle) → Q a → Leaves Q' (f a h))
    → Leaves Q' (proceed r f)
proceed-Leaves Q Q' (some a, h) f q k = k a h q
proceed-Leaves Q Q' (none, h) f q k = tt

pub anything_left {ℓ} : {A : Type ℓ} (r : Option A × Handle) → Leaves (λ _. Unit {0}) r
anything_left (some a, h) = tt
anything_left (none, h) = tt

CellsWithin-set :
    (m : ℕ) (list : Array) (i : ℕ) (s : Str)
    → length s ≤ m
    → CellsWithin m list
    → CellsWithin m (set list i (some s))
CellsWithin-set m [] i s le w = tt
CellsWithin-set m (none ∷ list) zero s le w = (le, w)
CellsWithin-set m (some t ∷ list) zero s le w = (le, w.1)
CellsWithin-set m (none ∷ list) (suc i) s le w = CellsWithin-set m list i s le w
CellsWithin-set m (some t ∷ list) (suc i) s le w = (w.0, CellsWithin-set m list i s le w.1)

-- The empty texts of a new list are within every bound.
pub replicate-CellsWithin : (m n : ℕ) → CellsWithin m (replicate n (some []))
replicate-CellsWithin m zero = tt
replicate-CellsWithin m (suc n) = (omega arith, replicate-CellsWithin m n)

module _ (m : ℕ) where
  found_cell-Fits :
      (found : Option (Option Str)) (s : Str) (list : Array) (i : ℕ) (h : Handle)
      → length s ≤ m
      → CellsWithin m list
      → get_elem? list i ≡ found
      → (len : ℤ) → Leaves (CellsWithin m) (put_in_array s list i len h)
  unfolding put_in_array
  found_cell-Fits none s list i h le w e len = elim (Bool-cases (ltb_ℤ (pos i) len)) [
    | inl t ↦ rw (t, e) tt
    | inr t ↦ rw t tt
  ]
  found_cell-Fits (some none) s list i h le w e len = elim (Bool-cases (ltb_ℤ (pos i) len)) [
    | inl t ↦ rw (t, e) tt
    | inr t ↦ rw t tt
  ]
  found_cell-Fits (some (some t)) s list i h le w e len = elim (Bool-cases (ltb_ℤ (pos i) len)) [
    | inl t ↦ rw (t, e) (CellsWithin-set m list i s le w)
    | inr t ↦ rw t tt
  ]

  pub put_in_array-Fits :
      (s : Str) (list : Array) (i : ℕ) (len : ℤ) (h : Handle)
      → length s ≤ m
      → CellsWithin m list
      → Leaves (CellsWithin m) (put_in_array s list i len h)
  put_in_array-Fits s list i len h le w =
      found_cell-Fits (get_elem? list i) s list i h le w refl len

  abbrev Fits : Option Cursor × Handle → Type 0
  Fits = Leaves (λ cur. CellsWithin m cur.0)

  put_node-Fits :
      (len : ℤ) (node : Str) (cur : Cursor) (h : Handle)
      → length node ≤ m
      → CellsWithin m cur.0
      → Fits (put_node len node cur h)
  unfolding put_node
  put_node-Fits len node (list, i) h le w =
      proceed-Leaves (CellsWithin m) (λ cur. CellsWithin m cur.0) (put_in_array node list i len h) _
        (put_in_array-Fits node list i len h le w) (λ list' h' w'. w')

  put_nodes-Fits :
      (len : ℤ) (nodes : Hostlist) (cur : Cursor) (h : Handle)
      → AllWithin m nodes
      → CellsWithin m cur.0
      → Fits (put_nodes len nodes cur h)
  unfolding put_nodes
  put_nodes-Fits len [] cur h all w = w
  put_nodes-Fits len (node ∷ nodes) cur h all w =
      proceed-Leaves (λ c. CellsWithin m c.0) (λ c. CellsWithin m c.0) (put_node len node cur h) _
        (put_node-Fits len node cur h all.0 w) (λ c h' w'. put_nodes-Fits len nodes c h' all.1 w')

  put_if_Fits :
      (b : Bool) (len : ℤ) (node : Str) (cur : Cursor) (h : Handle)
      → length node ≤ m
      → CellsWithin m cur.0
      → let put : M Cursor = if b then put_node len node cur else pure cur in Fits (put h)
  put_if_Fits true len node cur h le w = put_node-Fits len node cur h le w
  put_if_Fits false len node cur h le w = w

  put_matching-Fits :
      (len : ℤ) (val v : Str) (nodes : Hostlist) (cur : Cursor) (h : Handle)
      → AllWithin m nodes
      → CellsWithin m cur.0
      → Fits (put_matching len val v nodes cur h)
  unfolding put_matching
  put_matching-Fits len val v [] cur h all w = w
  put_matching-Fits len val v (node ∷ nodes) cur h all w =
      proceed-Leaves (λ _. Unit {0}) (λ c. CellsWithin m c.0) (get_valptr node v true h) _
        (anything_left (get_valptr node v true h))
        (λ valptr h' _.
          let put : M Cursor = if str_eq val valptr.0 then put_node len node cur else pure cur in
          proceed-Leaves (λ c. CellsWithin m c.0) (λ c. CellsWithin m c.0) (put h')
            (put_matching len val v nodes)
            (put_if_Fits (str_eq val valptr.0) len node cur h' all.0 w)
            (λ c h'' w'. put_matching-Fits len val v nodes c h'' all.1 w'))

  put_value-Fits :
      (len : ℤ) (val : Str) (av_val : Option Str) (nodes : Hostlist) (cur : Cursor) (h : Handle)
      → AllWithin m nodes
      → CellsWithin m cur.0
      → (gh : Hosts) (av : Attrval) → av.val ≡ av_val
      → gh.hl ≡ nodes
      → Fits (put_line len (some val) gh av cur h)
  unfolding put_line
  put_value-Fits len val none nodes cur h all w gh av e eh = rw e w
  put_value-Fits len val (some v) nodes cur h all w gh av e eh =
      elim (Bool-cases av.val_contains_subst) [
        | inl s ↦ rw (e, s, eh) (put_matching-Fits len val v nodes cur h all w)
        | inr s ↦ elim (Bool-cases (str_eq val v)) [
          | inl t ↦ rw (e, s, t, eh) (put_nodes-Fits len nodes cur h all w)
          | inr t ↦ rw (e, s, t) w
        ]
      ]

  put_line-Fits :
      (len : ℤ) (val : Option Str) (gh : Hosts) (av : Attrval) (cur : Cursor) (h : Handle)
      → AllWithin m gh.hl
      → CellsWithin m cur.0
      → Fits (put_line len val gh av cur h)
  put_line-Fits len none gh av cur h all w = unfold put_line in put_nodes-Fits len gh.hl cur h all w
  put_line-Fits len (some val) gh av cur h all w =
      put_value-Fits len val av.val gh.hl cur h all w gh av refl refl

  -- The step for a line, on what `hash_find` gives, with the loop behind it.
  put_found-Fits :
      (found : Option Attrval) (len : ℤ) (val : Option Str) (gh : Hosts) (rest : Cursor → M Cursor)
      (cur : Cursor) (h : Handle)
      → AllWithin m gh.hl
      → CellsWithin m cur.0
      → ((c : Cursor) (h' : Handle) → CellsWithin m c.0 → Fits (rest c h'))
      → let put : M Cursor = elim found [
        | none ↦ rest cur
        | some av ↦ λ h'. proceed (put_line len val gh av cur h') rest
      ] in
        Fits (put h)
  put_found-Fits none len val gh rest cur h all w k = k cur h w
  put_found-Fits (some av) len val gh rest cur h all w k =
      proceed-Leaves (λ c. CellsWithin m c.0) (λ c. CellsWithin m c.0)
        (put_line len val gh av cur h) rest (put_line-Fits len val gh av cur h all w) k

  put_hosts-Fits :
      (ma mv : ℕ) (len : ℤ) (attr : Str) (val : Option Str) (hosts : List Hosts) (cur : Cursor)
      (h : Handle)
      → LinesWithin m ma mv hosts
      → CellsWithin m cur.0
      → Fits (put_hosts len attr val hosts cur h)
  unfolding put_hosts
  put_hosts-Fits ma mv len attr val [] cur h lines w = w
  put_hosts-Fits ma mv len attr val (gh ∷ hosts) cur h lines w =
      put_found-Fits (hash_find gh.attrval_index attr) len val gh (put_hosts len attr val hosts) cur
        h lines.0 w (λ c h' w'. put_hosts-Fits ma mv len attr val hosts c h' lines.2 w')

-- The names of a database that `genders_getnodes` reads are within `maxnodelen`.
abbrev pub HasNames : Handle → Type 0
HasNames h =
    AllWithin h.maxnodelen h.hostnames
    × LinesWithin h.maxnodelen h.maxattrlen h.maxvallen h.genders_hosts

-- The array that a call leaves.
abbrev pub ArrayFits : ℕ → Option (ℕ × Array) × Handle → Type 0
ArrayFits m = Leaves (λ r. CellsWithin m r.1)

finish-Fits :
    (m : ℕ) (r : Option Cursor × Handle)
    → Leaves (λ c. CellsWithin m c.0) r
    → ArrayFits m (proceed r (λ cur h'. (some (cur.1, cur.0), record h' { errnum = err_success })))
finish-Fits m (some cur, h) w = w
finish-Fits m (none, h) w = tt

getnodes_scanned-Fits :
    (len : ℤ) (nodes : Array) (attr : Str) (val : Option Str) (h : Handle)
    → HasNames h
    → CellsWithin h.maxnodelen nodes
    → ArrayFits h.maxnodelen (getnodes_scanned len nodes attr val h)
unfolding getnodes_scanned
getnodes_scanned-Fits len nodes attr val h names w = elim (Bool-cases (h.numattrs == 0)) [
  | inl e ↦ rw e w
  | inr e ↦ rw e (
      finish-Fits h.maxnodelen (put_hosts len attr val h.genders_hosts (nodes, 0) h) (
        put_hosts-Fits h.maxnodelen h.maxattrlen h.maxvallen len attr val h.genders_hosts (nodes, 0)
          h names.1 w))
]

getnodes_by-Fits :
    (len : ℤ) (nodes : Array) (attr val : Option Str) (h : Handle)
    → HasNames h
    → h.attrval_index ≡ none
    → CellsWithin h.maxnodelen nodes
    → ArrayFits h.maxnodelen (getnodes_by len nodes attr val h)
unfolding getnodes_by
getnodes_by-Fits len nodes none val h names off w =
    finish-Fits h.maxnodelen (put_nodes len h.hostnames (nodes, 0) h)
      (put_nodes-Fits h.maxnodelen len h.hostnames (nodes, 0) h names.0 w)
getnodes_by-Fits len nodes (some attr) none h names off w =
    getnodes_scanned-Fits len nodes attr none h names w
getnodes_by-Fits len nodes (some attr) (some val) h names off w =
    let e : (is_some h.attrval_index && index_is_on h attr) ≡ false = rw off refl in
    rw e (getnodes_scanned-Fits len nodes attr (some val) h names w)

-- `genders_getnodes` for whatever attribute, value and length, where the names of the database are
-- within `maxnodelen` and there is no index: where it succeeds, no cell of the array holds a text
-- longer than `maxnodelen`, if none did before. So what it copies into the cells of a list of
-- nodes, which have `maxnodelen` + 1 bytes, leaves room for the terminating NUL.
pub getnodes-ArrayFits :
    (nodes : Array) (len : ℤ) (attr val : Option Str) (h : Handle)
    → HasNames h
    → h.attrval_index ≡ none
    → CellsWithin h.maxnodelen nodes
    → ArrayFits h.maxnodelen (getnodes (some nodes) len attr val h)
unfolding getnodes loaded_handle_error_check
getnodes-ArrayFits nodes len attr val h names off w = elim (Bool-cases (h.magic == magic_num)) [
  | inr e ↦ rw e tt
  | inl e ↦ rw e (elim (Bool-cases (h.is_loaded == 0)) [
    | inl z ↦ rw z tt
    | inr z ↦ rw z (elim (Bool-cases (ltb_ℤ len (pos 0))) [
      | inl n ↦ rw n tt
      | inr n ↦ rw n (getnodes_by-Fits len nodes (or_null attr) (or_null val) h names off w)
    ])
  ])
]
