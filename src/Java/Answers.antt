-- ===== src/Java/Answers.antt =====
-- What the native methods that give an array answer, from the theorems on the library.
use genders.Base.{
  List, if◌then◌else◌, ℕ, true, Option, none, some, List, [], ◌∷◌, ◌≡◌, ◌≢◌, refl, arith, length,
  length-replicate, replicate, Str, if◌then◌else◌,
}
use genders.Libcommon.{Libcommon}
use genders.Handle.{Handle, err_success, err_syntax, magic_num}
use genders.Handle.Checks.{IsLoaded, loaded_check-IsLoaded, genders_errnum}
use genders.Array.{Array, nodelist_create, nodelist_destroy, list_create, list_destroy}
use genders.Query.{Tree}
use genders.Query.Token.{Token}
use genders.Query.Grammar.{IsParser, parse_query}
use genders.Query.Language.{Derives}
use genders.Query.Ask.{query-syntax}
use genders.Java.Object.{
  Jni, Genders, R, syntax_exception, exception_of, throw_exception, get_handle, call, utf,
  with_list, machine_exception,
}
use genders.Java.{java_query}

-- What a function makes of all the texts, if it makes something of each.
abbrev pub both {ℓ} : {A : Type ℓ} → Option A → Option (List A) → Option (List A)
both none rest = none
both (some a) none = none
both (some a) (some rest) = some (a ∷ rest)

abbrev pub made_of_all {ℓ} : {A : Type ℓ} → (Str → Option A) → List Str → Option (List A)
made_of_all f [] = some []
made_of_all f (s ∷ ss) = both (f s) (made_of_all f ss)

-- A new list of nodes, on a loaded handle that has nodes; and its end.
pub nodelist_create-loaded :
    (h : Handle)
    → IsLoaded h
    → h.numnodes ≢ 0
    → nodelist_create true h ≡ (
      some (some (replicate h.numnodes (some [])), h.numnodes),
      record h { errnum = err_success },
    )
unfolding nodelist_create list_create
nodelist_create-loaded h l some_nodes = rw (loaded_check-IsLoaded h l) (ground (arith, some_nodes))

nodelist_destroy-loaded :
    (list : Array) (h : Handle)
    → IsLoaded h
    → nodelist_destroy (some list) h ≡ (some tt, record h { errnum = err_success })
unfolding nodelist_destroy list_destroy
nodelist_destroy-loaded list h l = rw (loaded_check-IsLoaded h l) (ground arith)

errnum-magic : (h : Handle) → h.magic ≡ magic_num → genders_errnum (some h) ≡ h.errnum
unfolding genders_errnum
errnum-magic h m = rw m refl

module _ (J : Jni) where
  get_handle-held :
      (h : Handle) (obj : Genders)
      → J.get_field_id ≡ true
      → obj.gh_addr ≡ some h
      → get_handle J obj ≡ (some tt, obj)
  unfolding get_handle
  get_handle-held h obj field held = rw (field, held) refl

  utf-read :
      (s : J.JString) (chars : Str) (obj : Genders)
      → J.utf_chars s ≡ some chars
      → utf J (some s) obj ≡ (some (some chars), obj)
  unfolding utf
  utf-read s chars obj e = rw (utf, e) refl

  -- The array that a method gives for some texts, by the calls of the virtual machine: the string
  -- that it makes of each text, in order, where it can make the array and all of them, and its
  -- exception otherwise.
  abbrev pub strings_or_exception : Option (List J.JString) → R (List J.JString)
  strings_or_exception none obj = (none, record obj { pending = some machine_exception })
  strings_or_exception (some strings) obj = (some strings, obj)

  abbrev pub array_of : List Str → R (List J.JString)
  array_of texts =
      strings_or_exception
        (if J.new_object_array (length texts) then made_of_all J.new_string texts else none)

  -- The method `query` of an object that holds a loaded database with nodes, for a text from whose
  -- tokens the grammar derives no tree, where the virtual machine finds the field, reads the text
  -- and has the class: it returns null, throws GendersExceptionSyntax, and keeps the database,
  -- with the error code of the clean-up.
  java_query-syntax :
      (L : Libcommon) (yyparse : List Token → Option Tree) (parser : IsParser yyparse)
      (q : J.JString) (c : ℕ) (cs : Str) (h : Handle) (obj : Genders)
      → J.get_field_id ≡ true
      → J.utf_chars q ≡ some (c ∷ cs)
      → J.find_class syntax_exception ≡ true
      → obj.gh_addr ≡ some h
      → IsLoaded h
      → h.numnodes ≢ 0
      → ((t : Tree) → ¬ Derives (c ∷ cs) t)
      → java_query J L (parse_query yyparse) (some q) obj ≡ (
        none,
        record {
          gh_addr = some (record h { errnum = err_success });
          pending = some syntax_exception;
        },
      )
  unfolding java_query with_list call throw_exception nodelist_destroy exception_of
  java_query-syntax L yyparse parser q c cs h obj field chars has_class held l some_nodes
        none_derived =
      let list : Array = replicate h.numnodes (some []) in
      let same : length list ≡ h.numnodes = length-replicate h.numnodes (some []) in
      let h' = record h { errnum = err_success } in
      let refused =
        query-syntax L yyparse parser c cs list h'
          (record { has_magic = l.has_magic; loaded = l.loaded }) none_derived in
      let failed = record h { errnum = err_syntax } in
      let code : genders_errnum (some failed) ≡ err_syntax = errnum-magic failed l.has_magic in
      let l' : IsLoaded failed = record { has_magic = l.has_magic; loaded = l.loaded } in
      rw
        (
          get_handle-held h obj field held,
          utf-read q (c ∷ cs) obj chars,
          held,
          nodelist_create-loaded h l some_nodes,
          rw same at refused,
          code,
          has_class,
          nodelist_destroy-loaded list failed l',
        )
        refl
