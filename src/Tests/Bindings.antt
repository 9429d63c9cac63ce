-- ===== src/Tests/Bindings.antt =====
-- The theorems on the Python, Java and PHP functions, for interfaces whose objects
-- are integers and texts and whose calls succeed.
use genders.Base.{
  ◌<◌, is_some, if◌then◌else◌, negsuc, pos, arith, ℤ, false, true, Option, some, none, [], ◌≡◌, ◌⊎◌,
  Str, codes, inl, inr,
}
use genders.Handle.{err_syntax}
use genders.Query.Grammar.{parse_query}
use genders.Query.Automaton.{run, run-IsParser}
use genders.Python.Object.{Python, Libgenders}
use genders.Python.Lists.{libgenders_query}
use genders.Python.Answers.{libgenders_query-syntax}
use genders.Java.Object.{Jni, Genders}
use genders.Java.{
  java_getnumnodes, java_getnumattrs, java_getmaxattrs, java_getnodename, java_getnodes,
  java_getattr, java_getattr_all, java_getattrval, java_testattr, java_testattrval, java_isnode,
  java_isattr, java_isattrval, java_query, java_testquery,
}
use genders.Java.Signals.{AlwaysSignals, methods-AlwaysSignal}
use genders.Load.{load_data, handle_create}
use genders.Parse.File.{File}
use genders.Php.{php_getnumattrs, return_long, answered}
use genders.Php.Answers.{php_getnumattrs-unloaded}
use genders.Tests.Hostlists.{plain, plain-HashLaws}
use genders.Tests.Setup.{file, db, load_test}
use genders.Tests.Queries.{db-IsLoaded}
use genders.Tests.Grammar.{blank-not_derived}

abbrev python : Python
python = record {
  Object = ℤ ⊎ Option Str;
  int_value = λ n. some (inl n);
  text_value = λ s. some (inr s);
}

abbrev self : Libgenders
self = record { gh = db; raised = false }

abbrev jni : Jni
jni = record {
  JString = Str;
  utf_chars = λ s. some s;
  new_string = λ s. some s;
  new_object_array = λ n. true;
  find_class = λ e. true;
  get_field_id = true;
}

abbrev obj : Genders
obj = record { gh_addr = some db; pending = none }

libgenders_query-syntax_example :
    libgenders_query python plain (parse_query run) (some (some (codes " "))) self
    ≡ (none, record self { gh = record db { errnum = err_syntax } })
libgenders_query-syntax_example =
    libgenders_query-syntax python plain run run-IsParser b' ' [] self db-IsLoaded (λ e. cc)
      blank-not_derived

methods-AlwaysSignal_example :
    AlwaysSignals (java_getnumnodes jni)
    × AlwaysSignals (java_getnumattrs jni)
    × AlwaysSignals (java_getmaxattrs jni)
    × AlwaysSignals (java_getnodename jni)
    × AlwaysSignals (java_getnodes jni (some (codes "a")) (some (codes "y")))
    × AlwaysSignals (java_getattr jni (some (codes "a")))
    × AlwaysSignals (java_getattr_all jni)
    × AlwaysSignals (java_getattrval jni (some (codes "a")) (some (codes "y")))
    × AlwaysSignals (java_testattr jni (some (codes "a")) (some (codes "y")))
    × AlwaysSignals (java_testattrval jni (some (codes "a")) (some (codes "y")) none)
    × AlwaysSignals (java_isnode jni (some (codes "a")))
    × AlwaysSignals (java_isattr jni (some (codes "a")))
    × AlwaysSignals (java_isattrval jni (some (codes "a")) (some (codes "y")))
    × AlwaysSignals (java_query jni plain (parse_query run) (some (codes "a")))
    × AlwaysSignals
        (java_testquery jni plain (parse_query run) (some (codes "a")) (some (codes "y")))
methods-AlwaysSignal_example =
    methods-AlwaysSignal jni plain (parse_query run) (some (codes "a")) (some (codes "y")) none

abbrev files : Str → Option File
files name = some file

few :
    (load_data plain (some file) (some (codes "n1.site")) handle_create).1.numattrs
    < 0x8000000000000000
few = rw load_test (omega arith)

php_getnumattrs-unloaded_example :
    let q = load_data plain (some file) (some (codes "n1.site")) handle_create in
    php_getnumattrs plain files (some (codes "n1.site")) (some (codes "genders"))
    ≡ answered (return_long (if is_some q.0 then pos q.1.numattrs else negsuc 0))
php_getnumattrs-unloaded_example =
    php_getnumattrs-unloaded plain plain-HashLaws files (some (codes "n1.site")) (codes "genders")
      few
