-- ===== src/Nodeattr/Options/Arguments.antt =====
-- The arguments that `main` reads are those that it was given.
use genders.Base.{
  ℕ, Bool, true, false, not, ◌&&◌, ◌||◌, ◌==◌, Option, some, none, List, [], ◌∷◌, ◌≡◌, refl, arith,
  Str, length, is_some, Bool-cases, inl, inr, if◌then◌else◌, ◌⊎◌,
}
use genders.Nodeattr.Options.{
  Options, Opt, Command, list_nodes_command, test_attr_command, test_query_command,
  list_attr_val_command, list_attrs_command, command, accepted, command_of, diff_or, chosen,
  counted_args, combined, all_nodes, argument, node_and, set_options, initial,
}

-- The arguments behind the options are those of the command.
abbrev pub Takes : Command → List Str → Type 0
Takes (list_nodes_command none excludequery qfmt) args = args ≡ []
Takes (list_nodes_command (some q) excludequery qfmt) args = args ≡ q ∷ []
Takes (test_attr_command none attr vopt) args = args ≡ attr ∷ []
Takes (test_attr_command (some node) attr vopt) args = args ≡ node ∷ attr ∷ []
Takes (test_query_command none q) args = args ≡ q ∷ []
Takes (test_query_command (some node) q) args = args ≡ node ∷ q ∷ []
Takes (list_attr_val_command attr uopt) args = args ≡ attr ∷ []
Takes (list_attrs_command none) args = args ≡ []
Takes (list_attrs_command (some node)) args = args ≡ node ∷ []
Takes _ args = args ≡ []

and_right : (a b : Bool) → (a && b) ≡ true → b ≡ true
and_right true b h = h
and_right false b h = absurd (cc)

one_or_two :
    (args : List Str)
    → (length args == 1 || length args == 2) ≡ true
    → ((a : Str) × (args ≡ a ∷ [])) ⊎ ((a : Str) × (b : Str) × (args ≡ a ∷ b ∷ []))
one_or_two (a ∷ []) h = inl (a, refl)
one_or_two (a ∷ b ∷ []) h = inr (a, b, refl)
one_or_two [] h = absurd (cc)
one_or_two (a ∷ b ∷ c ∷ args) h = absurd (ground arith)

none_left : (args : List Str) → (length args == 0) ≡ true → args ≡ []
none_left [] h = refl
none_left (a ∷ args) h = absurd (ground arith)

one_left : (args : List Str) → (length args == 1) ≡ true → (a : Str) × (args ≡ a ∷ [])
one_left (a ∷ []) h = (a, refl)
one_left [] h = absurd (cc)
one_left (a ∷ b ∷ args) h = absurd (ground arith)

Takes-if :
    (b : Bool) (x y : Command) (args : List Str)
    → (b ≡ true → Takes x args)
    → (b ≡ false → Takes y args)
    → Takes (if b then x else y) args
Takes-if true x y args f g = f refl
Takes-if false x y args f g = g refl

list_nodes-Takes :
    (o : Options) (args : List Str)
    → counted_args o (length args) ≡ true
    → o.qopt ≡ true
    → Takes
        (list_nodes_command (if o.aopt then none else some (argument args 0)) o.excludequery o.qfmt)
        args
unfolding counted_args argument
list_nodes-Takes o args h q = elim (Bool-cases o.aopt) [
  | inl a ↦ rw a (none_left args (ground arith))
  | inr a ↦ let (s, e) = one_left args (ground arith) in rw (a, e) refl
]

test_attr-Takes :
    (o : Options) (args : List Str)
    → (length args == 1 || length args == 2) ≡ true
    → Takes (test_attr_command (node_and args).0 (node_and args).1 o.vopt) args
unfolding node_and argument
test_attr-Takes o args h = elim (one_or_two args h) [
  | inl (a, e) ↦ rw e refl
  | inr (a, b, e) ↦ rw e refl
]

test_query-Takes :
    (args : List Str)
    → (length args == 1 || length args == 2) ≡ true
    → Takes (test_query_command (node_and args).0 (node_and args).1) args
unfolding node_and argument
test_query-Takes args h = elim (one_or_two args h) [
  | inl (a, e) ↦ rw e refl
  | inr (a, b, e) ↦ rw e refl
]

list_attr_val-Takes :
    (args : List Str) (uopt : Bool)
    → (length args == 1) ≡ true
    → Takes (list_attr_val_command (argument args 0) uopt) args
unfolding argument
list_attr_val-Takes args uopt h = let (a, e) = one_left args h in rw e refl

list_attrs-Takes :
    (args : List Str)
    → (length args == 0 || length args == 1) ≡ true
    → Takes (list_attrs_command (if length args == 1 then some (argument args 0) else none)) args
unfolding argument
list_attrs-Takes [] h = refl
list_attrs-Takes (a ∷ []) h = refl
list_attrs-Takes (a ∷ b ∷ args) h = absurd (ground arith)

chosen-Takes :
    (o : Options) (args : List Str)
    → counted_args o (length args) ≡ true
    → o.dfilename ≡ none
    → Takes (chosen o args) args
unfolding counted_args chosen
chosen-Takes o args h d =
    Takes-if o.kopt _ _ args (λ k. none_left args (ground arith))
      λ k.
        Takes-if o.eopt _ _ args (λ e. none_left args (ground arith))
          λ e.
            Takes-if o.copt _ _ args (λ c. none_left args (ground arith))
              λ c.
                Takes-if o.hopt _ _ args (λ s. none_left args (ground arith))
                  λ s.
                    Takes-if o.qopt _ _ args (λ q. list_nodes-Takes o args h q)
                      λ q.
                        Takes-if (not o.testquery_opt && not o.values_opt && not o.lopt) _ _ args
                          (λ t. test_attr-Takes o args (ground arith))
                          λ t.
                            Takes-if o.testquery_opt _ _ args
                              (λ u. test_query-Takes args (ground arith))
                              λ u.
                                Takes-if o.values_opt _ _ args
                                  (λ v. list_attr_val-Takes args o.uopt (ground arith))
                                  λ v. list_attrs-Takes args (ground arith)

counted_args-dfilename :
    (o : Options) (n : ℕ) → counted_args o n ≡ true → is_some o.dfilename ≡ true → (n == 0) ≡ true
unfolding counted_args
counted_args-dfilename o n h e = ground arith

diff_or-Takes :
    (o : Options) (args : List Str) (d : Option Str)
    → counted_args o (length args) ≡ true
    → o.dfilename ≡ d
    → Takes (diff_or d (chosen o args)) args
diff_or-Takes o args (some f) h e =
    none_left args (counted_args-dfilename o (length args) h (rw e refl))
diff_or-Takes o args none h e = chosen-Takes o args h e

if_some {ℓ} :
    {A : Type ℓ} (b : Bool) (x y : A) → (if b then some x else none) ≡ some y → (b ≡ true) × (x ≡ y)
if_some true x y h = (refl, cc)
if_some false x y h = absurd (cc)

accepted-Takes :
    (x : Option Options) (args : List Str) (r : Options × Command)
    → accepted x args ≡ some r
    → Takes r.1 args
unfolding accepted command_of
accepted-Takes none args r h = absurd (cc)
accepted-Takes (some p) args r h =
    let (e, same) = if_some _ _ _ h in
    rw (← same) (
      diff_or-Takes (all_nodes p) args (all_nodes p).dfilename
        (and_right (combined p) (counted_args (all_nodes p) (length args)) e) refl)

-- `main` reads no argument that it was not given and passes none over: whatever the options, where
-- the tests call no `usage()`, the arguments behind the options are exactly those of the command
-- that is chosen, in their order.
pub command-Takes :
    (opts : List Opt) (args : List Str) (default_file : Str) (o : Options) (c : Command)
    → command opts args default_file ≡ some (o, c)
    → Takes c args
unfolding command
command-Takes opts args default_file o c h =
    accepted-Takes (set_options opts (initial default_file)) args (o, c) h
