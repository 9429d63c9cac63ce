-- ===== src/Query/Sets.antt =====
-- The set operations on hostlists.
use genders.Base.{
  true, not, ◌||◌, some, [], ◌∷◌, ◌++◌, ◌≡◌, refl, ◌∙◌, arith, Str, str_eq, codes, select,
  append-nil, append_assoc, Bool-cases, inl, inr,
}
use genders.Libcommon.{
  Libcommon, HostlistLaws, Hostlist, hostlist_has, hostlist_has-append, hostlist_has-select,
}
use genders.Handle.{Handle}
use genders.Query.{
  push_all, push_ranged, calc_union, calc_intersection, calc_set_difference, calc_operator,
}
use genders.Query.Meaning.{combine}

-- Each name of a list, pushed as a text, is read as itself.
abbrev pub IsPlain : Libcommon → Hostlist → Type 0
IsPlain L [] = Unit
IsPlain L (n ∷ ns) = (L.hosts_of n ≡ some (n ∷ [])) × IsPlain L ns

pub push_all-IsPlain :
    (L : Libcommon) (ns h : Hostlist) → IsPlain L ns → push_all L ns h ≡ some (h ++ ns)
unfolding push_all
push_all-IsPlain L [] h p = rw append-nil
push_all-IsPlain L (n ∷ ns) h p =
    rw (p.0, push_all) (push_all-IsPlain L ns (h ++ n ∷ []) p.1 ∙ rw append_assoc)

-- The ranged text of a list fits the buffer.
abbrev pub HasText : Libcommon → Hostlist → Type 0
HasText L hl = (s : Str) × (L.ranged_string hl ≡ some s)

-- The operators that the grammar makes.
abbrev pub IsOperator : Str → Type 0
IsOperator op = (str_eq op (codes "||") || str_eq op (codes "&&") || str_eq op (codes "--")) ≡ true

module _ (L : Libcommon) (laws : HostlistLaws L) where
  open laws use {has-uniq, ranged-nil, ranged-hosts}

  push_ranged-has :
      (l h : Hostlist) (s n : Str)
      → L.ranged_string l ≡ some s
      → hostlist_has (push_ranged L s h) n ≡ (hostlist_has h n || hostlist_has l n)
  unfolding push_ranged
  push_ranged-has l h [] n e = rw (ranged-nil l n e) (ground arith)
  push_ranged-has l h (c ∷ s) n e =
      let (hosts, read, same) = ranged-hosts l (c ∷ s) e (λ z. cc) in
      rw (read, push_ranged) (hostlist_has-append h hosts n ∙ rw same)

  calc_union-has :
      (l r : Hostlist) (h : Handle)
      → HasText L l
      → HasText L r
      → (hl : Hostlist) × (calc_union L l r h ≡ (some (L.hostlist_uniq hl), h))
        × ((n : Str) → hostlist_has (L.hostlist_uniq hl) n ≡ (hostlist_has l n || hostlist_has r n))
  unfolding calc_union
  calc_union-has l r h (sl, el) (sr, er) =
      let left = push_ranged L sl [] in
      (
        push_ranged L sr left,
        rw (el, calc_union) (rw (er, calc_union)),
        λ n.
            has-uniq (push_ranged L sr left) n
            ∙ push_ranged-has r left sr n er
            ∙ rw (push_ranged-has l [] sl n el),
      )

  -- Each operator of a query succeeds and changes nothing, where the texts of its operands fit the
  -- buffer, and a node is in its result exactly when the combination of the two memberships holds.
  pub calc_operator-has :
      (op : Str) (l r : Hostlist) (h : Handle)
      → IsOperator op
      → HasText L l
      → HasText L r
      → (hl : Hostlist) × (calc_operator L op l r h ≡ (some (L.hostlist_uniq hl), h))
        × ((n : Str)
            → hostlist_has (L.hostlist_uniq hl) n
              ≡ combine op (hostlist_has l n) (hostlist_has r n))
  unfolding calc_operator calc_intersection calc_set_difference
  calc_operator-has op l r h known tl tr = elim (Bool-cases (str_eq op (codes "||"))) [
    | inl e ↦ rw e (calc_union-has l r h tl tr)
    | inr e ↦ rw e (elim (Bool-cases (str_eq op (codes "&&"))) [
      | inl e' ↦ rw e' (
        select (hostlist_has r) l,
        refl,
        λ n. has-uniq _ n ∙ hostlist_has-select (hostlist_has r) l n,
      )
      | inr e' ↦
          let e'' : str_eq op (codes "--") ≡ true = ground arith in
          rw e' (
            rw e'' (
              select (λ n. not (hostlist_has r n)) l,
              refl,
              λ n. has-uniq _ n ∙ hostlist_has-select (λ n. not (hostlist_has r n)) l n,
            ))
    ])
  ]
