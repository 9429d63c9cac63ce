-- ===== src/Nodeattr/Compare.antt =====
-- src/nodeattr/nodeattr.c: the loops of `_diff`, which compares two databases. Each returns the
-- number of differences that it has reported.
use genders.Base.{
  ℕ, ◌+◌, pos, Bool, true, false, Option, some, List, [], ◌∷◌, ◌++◌, Str, codes, if◌then◌else◌,
  str_eq,
}
use genders.Handle.{M}
use genders.Lookup.{text, isnode, isattr, testattr}
use genders.Nodeattr.Process.{P, pure, ◌>>=◌, ◌>>◌, eprintf, or_exit, call, call_other}

-- A call on `gh` whose failure is reported with `dgh`.
unfoldable pub call_misreported {ℓ} : {A : Type ℓ} → M A → Str → P A
call_misreported m msg w =
    let (r, h) = m w.handle in or_exit r w.other msg (record w { handle = h })

-- A call on `dgh` whose failure is reported with `gh`.
unfoldable pub call_other_misreported {ℓ} : {A : Type ℓ} → M A → Str → P A
call_other_misreported m msg w =
    let (r, h) = m w.other in or_exit r w.handle msg (record w { other = h })

-- The questions about a node or an attribute of one of the databases.
abbrev pub isnode_other : Str → P Bool
isnode_other node = call_other (isnode (some node)) (codes "genders_isnode")

abbrev pub isnode_first : Str → P Bool
isnode_first node = call (isnode (some node)) (codes "genders_isnode")

abbrev pub isattr_other : Str → P Bool
isattr_other attr = call_other (isattr (some attr)) (codes "genders_isattr")

abbrev pub isattr_first : Str → P Bool
isattr_first attr = call (isattr (some attr)) (codes "genders_isattr")

-- `errcount++` behind a message.
unfoldable pub report : Str → P ℕ
report msg = do eprintf msg; pure 1

abbrev pub quote : Str → Str
quote s = codes "\"" ++ s ++ codes "\""

abbrev pub node_attr : Str → Str → Str → Str
node_attr dfilename node attr =
    dfilename ++ codes ": Node " ++ quote node ++ codes ", attribute " ++ quote attr

-- The four loops of the tests 1 and 2: `is_there` is the question asked of the other database.
unfoldable pub report_missing : (Str → P Bool) → (Str → Str) → List Str → P ℕ
report_missing is_there msg [] = pure 0
report_missing is_there msg (s ∷ ss) = do
  rv ← is_there s
  here ← if rv then pure 0 else report (msg s)
  rest ← report_missing is_there msg ss
  pure (here + rest)

module _ (dfilename : Str) where
  -- A value against the text that the other database stored.
  unfoldable pub compare_values : Str → Str → Str → Str → P ℕ
  compare_values node attr [] [] = pure 0
  compare_values node attr [] (c ∷ dval) =
      report
        (node_attr dfilename node attr ++ codes " has a value " ++ quote (c ∷ dval) ++ codes "\n")
  compare_values node attr (c ∷ val) [] =
      report (node_attr dfilename node attr ++ codes " does not have a value\n")
  compare_values node attr (c ∷ val) (d ∷ dval) =
      if str_eq (c ∷ val) (d ∷ dval)
      then pure 0
      else report (
          node_attr dfilename node attr
          ++ codes " has a different value "
          ++ quote (d ∷ dval)
          ++ codes "\n")

  -- What `genders_testattr` found for an attribute of both databases.
  unfoldable pub compare_found : Str → Str → Str → Bool × Option Str → P ℕ
  unfolding compare_values
  compare_found node attr val (false, dval) = report (
      dfilename
      ++ codes ": Node "
      ++ quote node
      ++ codes " does not contain attribute "
      ++ quote attr
      ++ codes "\n")
  compare_found node attr val (true, dval) = compare_values node attr val (text dval)

  -- The loop over the attributes of a node in the first database, with their values.
  unfoldable pub compare_attrs : ℕ → Str → List Str → List Str → P ℕ
  unfolding compare_found
  compare_attrs dmaxvallen node (attr ∷ attrs) (val ∷ vals) = do
    rv ← isattr_other attr
    here ←
        if rv
        then (do
          found ←
              call_other (testattr (some node) (some attr) true (pos (dmaxvallen + 1)))
                (codes "genders_testattr")
          compare_found node attr val found)
        else pure 0
    rest ← compare_attrs dmaxvallen node attrs vals
    pure (here + rest)
  compare_attrs dmaxvallen node _ _ = pure 0

  -- The message for an attribute that only the second database gives to a node.
  unfoldable pub additional : Str → Str → Str → Str
  additional node attr [] =
      codes "Node "
      ++ quote node
      ++ codes " contains an additional attribute "
      ++ quote attr
      ++ codes "\n"
  additional node attr (c ∷ dval) =
      codes "Node "
      ++ quote node
      ++ codes " contains an additional attribute value pair "
      ++ quote (attr ++ codes "=" ++ c ∷ dval)
      ++ codes "\n"

  -- The loop over the attributes of a node in the second database.
  unfoldable pub compare_back : Str → List Str → List Str → P ℕ
  unfolding additional
  compare_back node (attr ∷ attrs) (dval ∷ dvals) = do
    rv ← call_misreported (isattr (some attr)) (codes "genders_isattr")
    here ←
        if rv
        then (do
          found ← call (testattr (some node) (some attr) false (pos 0)) (codes "genders_testattr")
          if found.0 then pure 0 else report (dfilename ++ codes ": " ++ additional node attr dval))
        else pure 0
    rest ← compare_back node attrs dvals
    pure (here + rest)
  compare_back node _ _ = pure 0
