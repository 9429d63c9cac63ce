-- ===== src/Java/Signals.antt =====
-- A native method that gives up leaves an exception.
use genders.Base.{
  ℕ, ℤ, pos, Bool, true, false, Option, none, some, List, [], ◌∷◌, ◌⊎◌, ◌≡◌, refl, Str, is_some,
  length, Bool-cases, inl, inr, if◌then◌else◌,
}
use genders.Libcommon.{Libcommon}
use genders.Handle.{Handle, M, err_internal}
use genders.Array.{Array}
use genders.Array.Writes.{stored}
use genders.Query.{Tree}
use genders.Java.Object.{
  Jni, Genders, R, pure, proceed, ◌>>=◌, machine_failed, exception_of, throw_exception, get_handle,
  got_handle, call, called, returned, utf, or_failed, new_strings, new_array, destroyed,
  with_created, with_list,
}
use genders.Java.{
  java_getnumnodes, java_getnumattrs, java_getmaxattrs, java_getnodename, java_getnodes,
  java_getattr, java_getattr_all, java_getattrval, java_testattr, java_testattrval, java_isnode,
  java_isattr, java_isattrval, java_query, java_testquery,
}

-- An exception is pending where the method has gone to its clean-up.
abbrev pub Signals {ℓ} : {A : Type ℓ} → Option A × Genders → Type 0
Signals (none, obj) = is_some obj.pending ≡ true
Signals (some a, obj) = Unit

-- So it is for every object that the method is called on.
pub record AlwaysSignals {ℓ} {A : Type ℓ} (m : R A) : Type 0 where
  pub signals : (obj : Genders) → Signals (m obj)

proceed-Signals {ℓ κ} :
    {A : Type ℓ} {B : Type κ} (r : Option A × Genders) (f : A → R B)
    → Signals r
    → ((a : A) (obj : Genders) → Signals (f a obj))
    → Signals (proceed r f)
proceed-Signals (none, obj) f s k = s
proceed-Signals (some a, obj) f s k = k a obj

bind-AlwaysSignals {ℓ κ} :
    {A : Type ℓ} {B : Type κ} {m : R A} {f : A → R B}
    → AlwaysSignals m
    → ((a : A) → AlwaysSignals (f a))
    → AlwaysSignals (m >>= f)
bind-AlwaysSignals {m} {f} sm sf = record {
  signals = λ obj. proceed-Signals (m obj) f (sm.signals obj) (λ a obj'. (sf a).signals obj');
}

pure-AlwaysSignals {ℓ} : {A : Type ℓ} {a : A} → AlwaysSignals (pure a)
pure-AlwaysSignals = record { signals = λ obj. tt }

module _ (J : Jni) where
  throw_exception-Signals :
      (errnum : ℤ) (obj : Genders) → is_some (throw_exception J errnum obj).pending ≡ true
  unfolding throw_exception
  throw_exception-Signals errnum obj = elim (Bool-cases (J.find_class (exception_of errnum))) [
    | inl e ↦ rw e refl
    | inr e ↦ rw e refl
  ]

  get_handle-AlwaysSignals : AlwaysSignals (get_handle J)
  unfolding get_handle
  get_handle-AlwaysSignals = record {
    signals = λ obj.
        elim J.get_field_id
          as (λ (b : Bool).
            Signals (if b then got_handle J obj.gh_addr obj else machine_failed obj)) [
              | true ↦ on_field obj.gh_addr obj
              | false ↦ refl
            ];
  }
    where
      on_field : (gh : Option Handle) (obj : Genders) → Signals (got_handle J gh obj)
      on_field none obj = throw_exception-Signals err_internal obj
      on_field (some h) obj = tt

  returned-Signals {ℓ} :
      {A : Type ℓ} (r : Option A × Handle) (obj : Genders) → Signals (returned J r obj)
  returned-Signals (none, h) obj = throw_exception-Signals _ _
  returned-Signals (some a, h) obj = tt

  called-Signals {ℓ} :
      {A : Type ℓ} (gh : Option Handle) (m : M A) (obj : Genders) → Signals (called J gh m obj)
  called-Signals none m obj = throw_exception-Signals err_internal obj
  called-Signals (some h) m obj = returned-Signals (m h) obj

  call-AlwaysSignals {ℓ} : {A : Type ℓ} (m : M A) → AlwaysSignals (call J m)
  unfolding call
  call-AlwaysSignals m = record { signals = λ obj. called-Signals obj.gh_addr m obj }

  or_failed-AlwaysSignals {ℓ} : {A : Type ℓ} (a : Option A) → AlwaysSignals (or_failed J a)
  or_failed-AlwaysSignals none = record { signals = λ obj. refl }
  or_failed-AlwaysSignals (some a) = record { signals = λ obj. tt }

  utf-AlwaysSignals : (s : Option J.JString) → AlwaysSignals (utf J s)
  unfolding utf
  utf-AlwaysSignals none = record { signals = λ obj. tt }
  utf-AlwaysSignals (some s) = record {
    signals = λ obj.
        elim (J.utf_chars s)
          as (λ (chars : Option Str).
            Signals {A = Option Str}
              (elim chars [ none ↦ machine_failed obj | some cs ↦ (some (some cs), obj) ])) [
                | none ↦ refl
                | some cs ↦ tt
              ];
  }

  new_strings-AlwaysSignals : (strs : List Str) → AlwaysSignals (new_strings J strs)
  unfolding new_strings
  new_strings-AlwaysSignals [] = pure-AlwaysSignals
  new_strings-AlwaysSignals (s ∷ strs) =
      bind-AlwaysSignals (or_failed-AlwaysSignals (J.new_string s))
        (λ tmpstr. bind-AlwaysSignals (new_strings-AlwaysSignals strs) (λ rest. pure-AlwaysSignals))

  new_array-AlwaysSignals : (strs : List Str) → AlwaysSignals (new_array J strs)
  unfolding new_array
  new_array-AlwaysSignals strs = record {
    signals = λ obj. elim (Bool-cases (J.new_object_array (length strs))) [
      | inl e ↦ rw e ((new_strings-AlwaysSignals strs).signals obj)
      | inr e ↦ rw e refl
    ];
  }

  destroyed-Signals {ℓ} :
      {A : Type ℓ} (destroy : Option Array → M (Unit {0})) (list : Option Array)
      (r : Option A × Genders)
      → Signals r
      → Signals (destroyed J destroy list r)
  destroyed-Signals destroy none r s = s
  destroyed-Signals destroy (some list) (none, obj) s = s
  destroyed-Signals destroy (some list) (some a, obj) s = tt

  with_created-Signals :
      (destroy : Option Array → M (Unit {0})) (fill : Option Array → ℤ → M (ℕ × Array))
      (r : Option (Option Array × ℕ) × Genders)
      → Signals r
      → Signals (with_created J destroy fill r)
  with_created-Signals destroy fill (none, obj) s = s
  with_created-Signals destroy fill (some (list, len), obj) s =
      let filled =
        bind-AlwaysSignals {m = call J (fill list (pos len))}
          {f = λ found. new_array J (stored found.0 found.1)}
          (call-AlwaysSignals (fill list (pos len)))
          (λ found. new_array-AlwaysSignals (stored found.0 found.1)) in
      destroyed-Signals destroy list _ (filled.signals obj)

  with_list-AlwaysSignals :
      (create : M (Option Array × ℕ)) (destroy : Option Array → M (Unit {0}))
      (fill : Option Array → ℤ → M (ℕ × Array))
      → AlwaysSignals (with_list J create destroy fill)
  unfolding with_list
  with_list-AlwaysSignals create destroy fill = record {
    signals = λ obj.
        with_created-Signals destroy fill (call J create obj)
          ((call-AlwaysSignals create).signals obj);
  }

  if-AlwaysSignals {ℓ} :
      {A : Type ℓ} (b : Bool) {m n : R A}
      → AlwaysSignals m
      → AlwaysSignals n
      → AlwaysSignals (if b then m else n)
  if-AlwaysSignals true sm sn = sm
  if-AlwaysSignals false sm sn = sn

  ruleset signalling = (
    bind-AlwaysSignals, pure-AlwaysSignals, get_handle-AlwaysSignals, call-AlwaysSignals,
    or_failed-AlwaysSignals, utf-AlwaysSignals, with_list-AlwaysSignals, if-AlwaysSignals,
  )

  -- Every native method but the constructor, whatever the object, the arguments, and the calls of
  -- the virtual machine that fail: where it returns its default (-1, null or false) by going to
  -- its clean-up early, an exception is pending. So the caller never takes the default for an
  -- answer.
  pub methods-AlwaysSignal :
      (L : Libcommon) (parse_query : Str → ℤ ⊎ Tree) (r s t : Option J.JString)
      → AlwaysSignals (java_getnumnodes J)
        × AlwaysSignals (java_getnumattrs J)
        × AlwaysSignals (java_getmaxattrs J)
        × AlwaysSignals (java_getnodename J)
        × AlwaysSignals (java_getnodes J r s)
        × AlwaysSignals (java_getattr J r)
        × AlwaysSignals (java_getattr_all J)
        × AlwaysSignals (java_getattrval J r s)
        × AlwaysSignals (java_testattr J r s)
        × AlwaysSignals (java_testattrval J r s t)
        × AlwaysSignals (java_isnode J r)
        × AlwaysSignals (java_isattr J r)
        × AlwaysSignals (java_isattrval J r s)
        × AlwaysSignals (java_query J L parse_query r)
        × AlwaysSignals (java_testquery J L parse_query r s)
  unfolding java_getnumnodes java_getnumattrs java_getmaxattrs java_getnodename java_getnodes
      java_getattr java_getattr_all java_getattrval java_testattr java_testattrval java_isnode
      java_isattr java_isattrval java_query java_testquery
  methods-AlwaysSignal L parse_query r s t = search signalling depth 12
