-- ===== src/Python/Answers.antt =====
-- What the methods that give a list answer, from the theorems on the library.
use genders.Base.{
  ◌++◌, ℕ, ◌+◌, ◌*◌, ◌≤◌, true, Option, none, some, List, [], ◌∷◌, ◌≡◌, ◌≢◌, refl, arith, length,
  length-append, length-replicate, replicate, Str, Bool-cases, inl, inr, ◌==◌, ltb, ℤ,
}
use native.Mathlib.Nat.{suc-mul}
use genders.Libcommon.{Libcommon}
use genders.Handle.{Handle, err_success, err_syntax, err_notloaded, err_parameters, magic_num}
use genders.Handle.Checks.{
  IsLoaded, loaded_check-IsLoaded, loaded_handle_error_check, handle_error_check, genders_errnum,
}
use genders.Array.{Array, nodelist_create, nodelist_destroy, list_create, list_destroy}
use genders.Query.{Tree}
use genders.Query.Token.{Token}
use genders.Query.Grammar.{IsParser, parse_query}
use genders.Query.Language.{Derives}
use genders.Query.Ask.{query-syntax}
use genders.Load.{set_errnum}
use genders.Parse.Lengths.{AllWithin}
use genders.Python.Object.{Python, Libgenders, exception_check}
use genders.Python.Lists.{comma_separated, cleanup, with_list, libgenders_query}

-- The text of a list of names that are no longer than `maxitemlen` fits, with its NUL, the buffer
-- of `_build_comma_separated_string`, which has `maxitemlen` + 1 bytes for each name.
comma_separated_fits :
    (maxitemlen : ℕ) (s : Str) (ss : List Str)
    → AllWithin maxitemlen (s ∷ ss)
    → length (comma_separated (s ∷ ss)) + 1 ≤ length (s ∷ ss) * (maxitemlen + 1)
unfolding comma_separated
comma_separated_fits m s [] w = omega (arith, suc-mul 0 (m + 1))
comma_separated_fits m s (t ∷ ss) w = omega (
  arith,
  comma_separated_fits m t ss w.1,
  length-append s (b',' ∷ comma_separated (t ∷ ss)),
  suc-mul (length (t ∷ ss)) (m + 1),
)

-- A new list of nodes, on a loaded handle that has nodes.
created-nodes :
    (h : Handle)
    → IsLoaded h
    → h.numnodes ≢ 0
    → nodelist_create true h ≡ (
      some (some (replicate h.numnodes (some [])), h.numnodes),
      record h { errnum = err_success },
    )
unfolding nodelist_create list_create
created-nodes h l some_nodes = rw (loaded_check-IsLoaded h l) (ground (arith, some_nodes))

-- The names behind the first one, each with a comma before it.
abbrev pub after_commas : List Str → Str
after_commas [] = []
after_commas (s ∷ ss) = (b',' ∷ s) ++ after_commas ss

-- The text for a list of names, none for no name.
abbrev pub listed : List Str → Option Str
listed [] = none
listed (s ∷ ss) = some (s ++ after_commas ss)

-- Destroying a list changes the error code only.
nodelist_destroy_errnum :
    (list : Option Array) (h : Handle)
    → h.magic ≡ magic_num
    → (e : ℤ) × ((nodelist_destroy list h).1 ≡ record h { errnum = e })
unfolding nodelist_destroy loaded_handle_error_check list_destroy
nodelist_destroy_errnum list h m = elim (Bool-cases (h.is_loaded == 0)) [
  | inl z ↦ (err_notloaded, rw (m, z) refl)
  | inr z ↦ elim (Bool-cases (ltb 0 h.numnodes)) [
    | inr n ↦ (err_success, rw (m, z, n) refl)
    | inl n ↦ elim list as (λ l. (e : ℤ) × ((nodelist_destroy l h).1 ≡ record h { errnum = e })) [
      | none ↦ (err_parameters, rw (m, z, n) refl)
      | some cells ↦ (err_success, rw (m, z, n) refl)
    ]
  ]
]

-- The label `cleanup` leaves the error code of the method.
cleanup-nodelist :
    (P : Python) (list : Option Array) (r : Option P.Object × Libgenders)
    → r.1.gh.magic ≡ magic_num
    → cleanup P nodelist_destroy list r ≡ r
unfolding cleanup set_errnum handle_error_check genders_errnum
cleanup-nodelist P list (rv, self) m =
    let (e, done) = nodelist_destroy_errnum list self.gh m in rw (done, m) refl

-- A syntax error raises no exception.
exception_check-silent :
    (self : Libgenders)
    → self.gh.magic ≡ magic_num
    → self.gh.errnum ≡ err_syntax
    → exception_check self ≡ self
unfolding exception_check genders_errnum
exception_check-silent self m e =
    let known : genders_errnum (some self.gh) ≡ err_syntax = rw m e in rw known refl

module _ (P : Python) where
  open P use {text_value}

  module _ (L : Libcommon) (yyparse : List Token → Option Tree) (parser : IsParser yyparse) where
    -- The method `query` on a loaded database with nodes, for a text from whose tokens the grammar
    -- derives no tree: it returns NULL, the error code is the one for a syntax error also behind
    -- the clean-up, nothing else has changed, and no exception is raised.
    pub libgenders_query-syntax :
        (c : ℕ) (q : Str) (self : Libgenders)
        → IsLoaded self.gh
        → self.gh.numnodes ≢ 0
        → ((t : Tree) → ¬ Derives (c ∷ q) t)
        → libgenders_query P L (parse_query yyparse) (some (some (c ∷ q))) self
          ≡ (none, record self { gh = record self.gh { errnum = err_syntax } })
    unfolding libgenders_query with_list
    libgenders_query-syntax c q self l some_nodes none_derived =
        let h = self.gh in
        let list : Array = replicate h.numnodes (some []) in
        let same : length list ≡ h.numnodes = length-replicate h.numnodes (some []) in
        let h' = record h { errnum = err_success } in
        let refused =
          query-syntax L yyparse parser c q list h'
            (record { has_magic = l.has_magic; loaded = l.loaded }) none_derived in
        let self' = record self { gh = record h { errnum = err_syntax } } in
        rw
          (
            created-nodes h l some_nodes,
            rw same at refused,
            exception_check-silent self' l.has_magic refl,
          )
          (cleanup-nodelist P (some list) (none, self') l.has_magic)
