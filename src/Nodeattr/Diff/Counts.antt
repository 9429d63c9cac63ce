-- ===== src/Nodeattr/Diff/Counts.antt =====
-- The result of `_diff` counts its messages.
use genders.Base.{
  ℕ, ◌+◌, Bool, true, false, Option, List, [], ◌∷◌, inr, ◌≡◌, refl, arith, Str, length, str_eq,
}
use genders.Lookup.{text}
use genders.Array.{Array}
use genders.Nodeattr.Process.{World, call_only, call_only_other}
use genders.Nodeattr.Reports.{
  Counts, Counts-pure, Counts-call, Counts-call_other, Counts-call_misreported,
  Counts-call_other_misreported, Counts-if, Counts-bind, Counts-report, Counts-sum,
  Counts-report_missing,
}
use genders.Nodeattr.Compare.{compare_values, compare_found, compare_attrs, compare_back}
use genders.Nodeattr.Diff.{
  Lists, clear_lists, compare_node, compare_nodes, diff_nodes, diff_attrs, destroy_lists, diff,
}

module _ (dfilename : Str) where
  Counts-compare_values :
      (node attr val dval : Str) → Counts 0 (compare_values dfilename node attr val dval) (λ n. n)
  unfolding compare_values
  Counts-compare_values node attr [] [] = Counts-pure 0 0 (λ n. n) refl
  Counts-compare_values node attr [] (c ∷ dval) = Counts-report _
  Counts-compare_values node attr (c ∷ val) [] = Counts-report _
  Counts-compare_values node attr (c ∷ val) (d ∷ dval) =
      Counts-if (str_eq (c ∷ val) (d ∷ dval)) 0 _ _ (λ n. n) (Counts-pure 0 0 (λ n. n) refl)
        (Counts-report _)

  Counts-compare_found :
      (node attr val : Str) (found : Bool × Option Str)
      → Counts 0 (compare_found dfilename node attr val found) (λ n. n)
  unfolding compare_found
  Counts-compare_found node attr val (false, dval) = Counts-report _
  Counts-compare_found node attr val (true, dval) = Counts-compare_values node attr val (text dval)

  Counts-compare_attrs :
      (dmaxvallen : ℕ) (node : Str) (attrs vals : List Str)
      → Counts 0 (compare_attrs dfilename dmaxvallen node attrs vals) (λ n. n)
  unfolding compare_attrs
  Counts-compare_attrs dmaxvallen node (attr ∷ attrs) (val ∷ vals) =
      Counts-bind 0 _ _ (λ _. 0) _ (Counts-call_other _ _)
        λ rv.
          Counts-bind 0 _ _ (λ n. n) _
            (Counts-if rv 0 _ _ _
              (Counts-bind 0 _ _ (λ _. 0) _ (Counts-call_other _ _)
                (Counts-compare_found node attr val))
              (Counts-pure 0 0 (λ n. n) refl))
            λ here.
              Counts-bind _ _ _ (λ n. n) _ (Counts-compare_attrs dmaxvallen node attrs vals)
                λ rest. Counts-sum here rest
  Counts-compare_attrs dmaxvallen node [] vals = Counts-pure 0 0 (λ n. n) refl
  Counts-compare_attrs dmaxvallen node (attr ∷ attrs) [] = Counts-pure 0 0 (λ n. n) refl

  Counts-compare_back :
      (node : Str) (attrs vals : List Str)
      → Counts 0 (compare_back dfilename node attrs vals) (λ n. n)
  unfolding compare_back
  Counts-compare_back node (attr ∷ attrs) (dval ∷ dvals) =
      Counts-bind 0 _ _ (λ _. 0) _ (Counts-call_misreported _ _)
        λ rv.
          Counts-bind 0 _ _ (λ n. n) _
            (Counts-if rv 0 _ _ _
              (Counts-bind 0 _ _ (λ _. 0) _ (Counts-call _ _)
                λ found.
                  Counts-if found.0 0 _ _ _ (Counts-pure 0 0 (λ n. n) refl) (Counts-report _))
              (Counts-pure 0 0 (λ n. n) refl))
            λ here.
              Counts-bind _ _ _ (λ n. n) _ (Counts-compare_back node attrs dvals)
                λ rest. Counts-sum here rest
  Counts-compare_back node [] vals = Counts-pure 0 0 (λ n. n) refl
  Counts-compare_back node (attr ∷ attrs) [] = Counts-pure 0 0 (λ n. n) refl

  Counts-clear_lists : (l : Lists) → Counts 0 (clear_lists l) (λ _. 0)
  unfolding clear_lists
  Counts-clear_lists l =
      Counts-bind 0 _ _ (λ _. 0) _ (Counts-call _ _)
        λ _.
          Counts-bind 0 _ _ (λ _. 0) _ (Counts-call _ _)
            λ _.
              Counts-bind 0 _ _ (λ _. 0) _ (Counts-call_other _ _)
                λ _. Counts-bind 0 _ _ (λ _. 0) _ (Counts-call_other _ _) λ _ w. refl

  Counts-compare_node :
      (node : Str) (lists : Lists) → Counts 0 (compare_node dfilename node lists) (λ r. r.0)
  unfolding compare_node
  Counts-compare_node node lists =
      Counts-bind 0 _ _ (λ _. 0) _ (Counts-clear_lists lists)
        λ l.
          Counts-bind 0 _ _ (λ _. 0) _ (Counts-call _ _)
            λ got.
              Counts-bind 0 _ _ (λ n. n) _ (Counts-compare_attrs _ node _ _)
                λ there.
                  Counts-bind _ _ _ (λ _. 0) _ (Counts-call_other _ _)
                    λ dgot.
                      Counts-bind _ _ _ (λ n. n) _ (Counts-compare_back node _ _)
                        λ back w. omega arith

  Counts-compare_nodes :
      (nodes : List Str) (lists : Lists) → Counts 0 (compare_nodes dfilename nodes lists) (λ n. n)
  unfolding compare_nodes
  Counts-compare_nodes [] lists = Counts-pure 0 0 (λ n. n) refl
  Counts-compare_nodes (node ∷ nodes) lists =
      Counts-bind 0 _ _ (λ _. 0) _ (Counts-call_other _ _)
        λ rv.
          Counts-bind 0 _ _ (λ r. r.0) _
            (Counts-if rv 0 _ _ _ (Counts-compare_node node lists) (λ w. refl))
            λ here.
              Counts-bind _ _ _ (λ n. n) _ (Counts-compare_nodes nodes here.1)
                λ rest. Counts-sum here.0 rest

  Counts-diff_nodes :
      (nodes dnodes : List Str) → Counts 0 (diff_nodes dfilename nodes dnodes) (λ n. n)
  unfolding diff_nodes
  Counts-diff_nodes nodes dnodes =
      Counts-bind 0 _ _ (λ n. n) _ (Counts-report_missing _ _ nodes λ s. Counts-call_other _ _)
        λ gone.
          Counts-bind _ _ _ (λ n. n) _ (Counts-report_missing _ _ dnodes λ s. Counts-call _ _)
            λ new. Counts-sum gone new

  Counts-diff_attrs :
      (attrs dattrs : List Str) → Counts 0 (diff_attrs dfilename attrs dattrs) (λ n. n)
  unfolding diff_attrs
  Counts-diff_attrs attrs dattrs =
      Counts-bind 0 _ _ (λ n. n) _ (Counts-report_missing _ _ attrs λ s. Counts-call_other _ _)
        λ gone.
          Counts-bind _ _ _ (λ n. n) _ (Counts-report_missing _ _ dattrs λ s. Counts-call _ _)
            λ new. Counts-sum gone new

  Counts-destroy_lists :
      (nodes dnodes : Option Array) (l : Lists)
      → Counts 0 (destroy_lists dfilename nodes dnodes l) (λ _. 0)
  unfolding destroy_lists call_only call_only_other
  Counts-destroy_lists nodes dnodes l w = refl

  Counts-diff : Counts 0 (diff dfilename) (λ n. n)
  unfolding diff
  Counts-diff =
      Counts-bind 0 _ _ (λ _. 0) _ (Counts-call _ _)
        λ list.
          Counts-bind 0 _ _ (λ _. 0) _ (Counts-call _ _)
            λ nodes.
              Counts-bind 0 _ _ (λ _. 0) _ (Counts-call_other_misreported _ _)
                λ dlist.
                  Counts-bind 0 _ _ (λ _. 0) _ (Counts-call_other _ _)
                    λ dnodes.
                      Counts-bind 0 _ _ (λ n. n) _ (Counts-diff_nodes _ _)
                        λ by_nodes.
                          Counts-bind _ _ _ (λ _. 0) _ (Counts-call _ _)
                            λ attrs.
                              Counts-bind _ _ _ (λ _. 0) _ (Counts-call_other _ _)
                                λ dattrs.
                                  Counts-bind _ _ _ (λ _. 0) _ (Counts-call _ _)
                                    λ all.
                                      Counts-bind _ _ _ (λ _. 0) _ (Counts-call_other _ _)
                                        λ dall.
                                          Counts-bind _ _ _ (λ n. n) _ (Counts-diff_attrs _ _)
                                            λ by_attrs.
                                              Counts-bind _ _ _ (λ _. 0) _ (Counts-call _ _)
                                                λ vals.
                                                  Counts-bind _ _ _ (λ _. 0) _
                                                    (Counts-call_other _ _)
                                                    λ dvals.
                                                      Counts-bind _ _ _ (λ _. 0) _
                                                        (Counts-call_other _ _)
                                                        λ dmax.
                                                          Counts-bind _ _ _ (λ n. n) _
                                                            (Counts-compare_nodes _ _)
                                                            λ by_values.
                                                            Counts-bind _ _ _ (λ _. 0) _
                                                            (Counts-destroy_lists _ _ _)
                                                            λ _ w. omega arith

  -- `_diff`, where no call of the library fails, prints one message for each difference that it
  -- counts, and no other: its result is the number of messages.
  pub diff-Counts :
      (w : World) (n : ℕ) (w' : World)
      → diff dfilename w ≡ (inr n, w')
      → length w'.err ≡ length w.err + n
  diff-Counts w n w' e = let counted = Counts-diff w in omega (arith, rw e at counted)
