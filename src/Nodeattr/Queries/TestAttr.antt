-- ===== src/Nodeattr/Queries/TestAttr.antt =====
-- The test of an attribute, with a value or without, against the lines of the database.
use genders.Base.{
  ℕ, ◌+◌, Bool, false, ◌&&◌, Option, none, some, [], ◌∷◌, inr, ◌≡◌, refl, ap, ◌∙◌, arith, Str,
  str_eq, str_eq_comm,
}
use genders.Handle.{Handle, err_success}
use genders.Handle.Checks.{IsLoaded, loaded_check-IsLoaded}
use genders.Lookup.{or_nodename, text}
use genders.Lookup.Correct.{IsKnown}
use genders.Lookup.Values.{AllFit, testattr_hosts-Answers, testattr_loop}
use genders.Load.{getmaxvallen}
use genders.Parse.Invariant.{IsWellFormed}
use genders.Query.{split_query}
use genders.Query.Meaning.{has_attr}
use genders.Nodeattr.Process.{World, call, or_exit}
use genders.Nodeattr.Queries.{test_attr, val_create, val_create_if, maxvallen_next}

-- The state after calls that set the error code to success and leave some text in the buffer.
abbrev pub settled : World → Option Str → World
settled w b = record w { handle = record w.handle { errnum = err_success; valbuf = b } }

val_create-loaded :
    (w : World)
    → IsLoaded w.handle
    → val_create w ≡ (inr w.handle.maxvallen, settled w w.handle.valbuf)
unfolding val_create call getmaxvallen or_exit
val_create-loaded w l = rw (loaded_check-IsLoaded w.handle l) refl

maxvallen_next-loaded :
    (w : World)
    → IsLoaded w.handle
    → maxvallen_next w ≡ (inr (w.handle.maxvallen + 1), settled w w.handle.valbuf)
unfolding maxvallen_next getmaxvallen
maxvallen_next-loaded w l = rw (loaded_check-IsLoaded w.handle l) refl

IsLoaded-settled :
    (h : Handle) (b : Option Str)
    → IsLoaded h
    → IsLoaded (record h { errnum = err_success; valbuf = b })
IsLoaded-settled h b l = record { has_magic = l.has_magic; loaded = l.loaded }

compared :
    (found : Bool × Option Str) (v : Str)
    → (str_eq v (text found.1) && found.0) ≡ (found.0 && str_eq (text found.1) v)
compared found v = ground (arith, str_eq_comm v (text found.1))

or_nodename-errnum :
    (node : Option Str) (h : Handle)
    → or_nodename node (record h { errnum = err_success }) ≡ or_nodename node h
or_nodename-errnum none h = refl
or_nodename-errnum (some []) h = refl
or_nodename-errnum (some (c ∷ s)) h = refl

-- `test_attr` for a text "attr=val" with a value, on a well-formed database, for a node of it whose
-- values can be read and are no longer than `maxvallen`: it returns 1 exactly if some line gives
-- the node the attribute with that value. It prints nothing, and sets the error code to success.
test_attr-has_value :
    (node : Option Str) (q : Str) (a : ℕ) (attr : Str) (c : ℕ) (val : Str) (w : World)
    → split_query q ≡ (a ∷ attr, some (c ∷ val))
    → IsLoaded w.handle
    → IsWellFormed w.handle.attrs w.handle.genders_hosts
    → IsKnown w.handle (or_nodename node w.handle)
    → AllFit w.handle (or_nodename node w.handle) (a ∷ attr) w.handle.genders_hosts
    → (b : Option Str) × (test_attr node q false w ≡ (
      inr (
          has_attr w.handle
            (a ∷ attr)
            (some (c ∷ val))
            (or_nodename node w.handle)
            w.handle.genders_hosts),
      settled w b,
    ))
unfolding test_attr val_create_if call or_exit
test_attr-has_value node q a attr c val w e l wf k fits =
    let h = w.handle in
    let h1 : Handle = record h { errnum = err_success } in
    let (found, b, run, answer) =
      testattr_hosts-Answers c val (or_nodename node h) (a ∷ attr) h.genders_hosts h1 fits
        wf.disjoint in
    let loop =
      testattr_loop node (or_nodename node h) a attr found h1 (record h1 { valbuf = b })
        (or_nodename-errnum node h) (IsLoaded-settled h h.valbuf l)
        (record { some_nodes = k.some_nodes; listed = k.listed }) run in
    (
      b,
      rw
          (
            e,
            val_create-loaded w l,
            maxvallen_next-loaded (settled w h.valbuf) (IsLoaded-settled h h.valbuf l),
            loop,
          )
          (ap (λ r. (inr r, settled w b)) (compared found (c ∷ val) ∙ answer)),
    )
