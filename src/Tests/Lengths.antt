-- ===== src/Tests/Lengths.antt =====
-- The theorems on lengths, and a file whose value is written past the end of the buffer.
use genders.Base.{
  ℕ, ap, leb, ◌-◌, replicate, length-replicate, ◌+◌, ◌<◌, ◌≤◌, true, Option, some, [], ◌∷◌, ◌≡◌,
  refl, Str, codes, pos, arith, length, str_eq, starts_with, strstr, strchr,
}
use genders.Value.{get_valptr}
use genders.Value.Expand.{names, percents}
use genders.Value.Bounds.{get_valptr_overruns}
use genders.Nodes.{getnodes}
use genders.Nodes.Fits.{ArrayFits, getnodes-ArrayFits}
use genders.Load.{
  load_data, handle_create, load_return, load_file, stored_file, initialize_handle_info,
  load_cleanup, shorten, sort_hostnames, store_nodename,
}
use genders.Handle.Checks.{unloaded_handle_error_check, handle_error_check}
use genders.Parse.File.{File, open_and_parse, parse_lines, after_line, after_file}
use genders.Parse.Line.{
  parse_line, parse_fields, parse_rest, add_hosts, add_read, check_nodes, count_subst,
}
use genders.Parse.Text.{strip_trailing, strip_comment, strsep, skip_space, attr_tokens, isspace}
use genders.Parse.Attributes.{
  add_attr, contains_subst, count_attr, grow, insert_attr, insert_attrval, parse_attr, parse_attrs,
  parse_value, reinsert, split_attr,
}
use genders.Parse.Duplicates.{
  attr_lookup, attrval_intersect, duplicate_attr_checks, hostlist_intersect,
}
use genders.Parse.State.{Parser, ok, failed, not_shortened}
use genders.Parse.TooLong.{open_and_parse-too_long}
use genders.Tests.Databases.{start}
use genders.Handle.{err_parse, buflen}
use genders.Load.Correct.{handle_create-IsEmpty}
use genders.Load.Lengths.{HasLengths, LoadsLengths, load_data-LoadsLengths}
use genders.Tests.Hostlists.{plain, plain-HashLaws, plain-HostlistLaws}
use genders.Tests.Setup.{file, db, load_test}

load_data-LoadsLengths_example :
    LoadsLengths plain plain-HostlistLaws
      (load_data plain (some file) (some (codes "n1.site")) handle_create)
load_data-LoadsLengths_example =
    load_data-LoadsLengths plain plain-HostlistLaws plain-HashLaws (some file)
      (some (codes "n1.site")) handle_create handle_create-IsEmpty

db-HasLengths : HasLengths db
db-HasLengths = rw load_test at (
    load_data-LoadsLengths plain plain-HostlistLaws plain-HashLaws (some file)
      (some (codes "n1.site")) handle_create handle_create-IsEmpty)

getnodes-ArrayFits_example :
    ArrayFits 2
      (getnodes (some (some [] ∷ some [] ∷ [])) (pos 2) (some (codes "a")) (some (codes "y")) db)
getnodes-ArrayFits_example =
    getnodes-ArrayFits (some [] ∷ some [] ∷ []) (pos 2) (some (codes "a")) (some (codes "y")) db
      (db-HasLengths.bounds.names, db-HasLengths.bounds.lines) refl (omega arith, (omega arith, tt))

two_names : 2 ≤ names (codes "%n%n")
unfolding names
two_names = omega arith

not_percents : percents (codes "%n%n") ≡ 0
unfolding percents
not_percents = refl

-- The five bytes of the node twice, where the buffer has eight.
get_valptr_overruns_example :
    (w : Str) × (b : Option Str) × (get_valptr
        (codes "alpha")
        (codes "%n%n")
        true
        (record db { maxvallen = 7 })
      ≡ (some (w, true), record db { maxvallen = 7; valbuf = b }))
    × (7 + 1 < length w)
get_valptr_overruns_example =
    get_valptr_overruns (record db { maxvallen = 7 }) (codes "alpha") (codes "%n%n") refl two_names
      not_percents (omega arith) refl

abbrev twice_file : File
twice_file = record { buffers = codes "alpha a=%n%n\n" ∷ []; at_end = true }

-- Such a handle is what the file "alpha a=%n%n" gives on its node.
overrun_test :
    let q = load_data plain (some twice_file) (some (codes "alpha")) handle_create in
    (q.0 ≡ some tt) × (q.1.maxvallen ≡ 7) × (q.1.flags ≡ 0)
unfolding load_data load_return unloaded_handle_error_check handle_create load_file stored_file
    open_and_parse parse_lines after_line parse_line strip_trailing strip_comment strchr
    parse_fields parse_rest strsep skip_space starts_with str_eq strstr handle_error_check
    initialize_handle_info load_cleanup shorten sort_hostnames store_nodename add_attr
    contains_subst count_attr grow insert_attr insert_attrval parse_attr parse_attrs parse_value
    reinsert split_attr attr_lookup attrval_intersect duplicate_attr_checks hostlist_intersect
    after_file add_hosts add_read check_nodes count_subst attr_tokens isspace
overrun_test = (refl, refl, refl)

abbrev faulty : Parser
faulty = record start {
  errnum = err_parse;
  attrs = (codes "a", codes "a") ∷ [];
  stream = (1, not_shortened) ∷ [];
}

one_faulty :
    open_and_parse plain true
      (some (record { buffers = codes "n1.x a\n" ∷ []; at_end = true }))
      start
    ≡ (ok 1, faulty)
unfolding open_and_parse parse_lines after_line parse_line strip_trailing strip_comment strchr
    parse_fields parse_rest strsep skip_space starts_with str_eq strstr add_attr contains_subst
    count_attr grow insert_attr insert_attrval parse_attr parse_attrs parse_value reinsert
    split_attr attr_lookup attrval_intersect duplicate_attr_checks hostlist_intersect after_file
    add_hosts add_read check_nodes count_subst attr_tokens isspace
one_faulty = refl

open_and_parse-too_long_example :
    open_and_parse plain true
      (some (record {
        buffers = codes "n1.x a\n" ∷ replicate 65535 b'a' ∷ codes "n2 a\n" ∷ [];
        at_end = true;
      }))
      start
    ≡ (failed, record faulty { errnum = err_parse })
open_and_parse-too_long_example =
    open_and_parse-too_long plain true true (codes "n1.x a\n" ∷ []) (replicate 65535 b'a')
      (codes "n2 a\n" ∷ []) start faulty 1 one_faulty
      (ap (leb (buflen - 1)) (length-replicate {A = ℕ} 65535 b'a'))
