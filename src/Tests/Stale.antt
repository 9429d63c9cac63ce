-- ===== src/Tests/Stale.antt =====
-- Two inputs on which the program does not do what it means to.
use genders.Base.{
  true, false, none, some, [], ◌∷◌, ◌++◌, ◌≡◌, refl, codes, starts_with, str_eq, strstr, strchr,
  Str,
}
use genders.Load.{
  load_data, handle_create, load_return, load_file, stored_file, initialize_handle_info,
  load_cleanup, shorten, sort_hostnames, store_nodename, getnumattrs,
}
use genders.Handle.Checks.{
  unloaded_handle_error_check, loaded_handle_error_check, handle_error_check,
}
use genders.Parse.File.{File, open_and_parse, parse_lines, after_line, after_file}
use genders.Parse.Line.{
  parse_line, parse_fields, parse_rest, add_hosts, add_read, check_nodes, count_subst,
}
use genders.Parse.Text.{strip_trailing, strip_comment, strsep, skip_space, attr_tokens, isspace}
use genders.Parse.Attributes.{
  add_attr, contains_subst, count_attr, grow, insert_attr, insert_attrval, parse_attr, parse_attrs,
  parse_value, reinsert, split_attr,
}
use genders.Parse.Duplicates.{
  attr_lookup, attrval_intersect, duplicate_attr_checks, hostlist_intersect,
}
use genders.Handle.{Handle, Hosts}
use genders.Array.{
  put_in_array, attrlist_create, attrlist_destroy, vallist_create, vallist_destroy, list_create,
  list_destroy,
}
use genders.Value.{get_valptr, subst_loop, subst_fits}
use genders.Attrs.{getattr, getattr_hosts, store_attr_val, store_both}
use genders.Nodeattr.Process.{or_failed, World, call, call_only, or_exit}
use genders.Nodeattr.Values.{print_lines}
use genders.Nodeattr.Hosts.{list_attrs, attrs_of_hosts, hash_attrvals, hash_allattrvals}
use genders.Tests.Hostlists.{plain}
use genders.Tests.Setup.{db, line1, line2}
use genders.Tests.Commands.{start}

-- The line of n1 with its attributes in the other order.
abbrev swapped : Hosts
swapped = record line1 {
  attrval_index =
      (codes "a", record { attr = codes "a"; val = some (codes "x%n"); val_contains_subst = true })
      ∷ (codes "b", record { attr = codes "b"; val = none; val_contains_subst = false })
      ∷ [];
}

abbrev world : World
world = record start { handle = record db { genders_hosts = swapped ∷ line2 ∷ [] } }

abbrev output : Str
output = codes "a=y\n" ++ codes "c=xn1\n" ++ codes "b\n" ++ codes "a=xn1\n"

-- `nodeattr -l` for n2 and n1: the attribute c of n2, which has no value, is printed with the value
-- that n1 has for its first attribute.
list_attrs_test : (list_attrs plain (some (codes "n2" ∷ codes "n1" ∷ [])) world).1.out ≡ output
unfolding list_attrs attrs_of_hosts hash_attrvals hash_allattrvals or_failed call call_only or_exit
    print_lines attrlist_create attrlist_destroy vallist_create vallist_destroy list_create
    list_destroy getnumattrs loaded_handle_error_check handle_error_check getattr getattr_hosts
    store_attr_val store_both put_in_array get_valptr str_eq subst_loop subst_fits
list_attrs_test = refl

-- A node of one byte with the value "%n".
abbrev short_file : File
short_file = record { buffers = codes "a x=%n\n" ∷ []; at_end = true }

abbrev short_db : Handle
short_db = (load_data plain (some short_file) (some (codes "a")) handle_create).1

-- Its values are counted as one byte long, after substitution; the raw value has two.
raw_value_test : short_db.maxvallen ≡ 1
unfolding load_data load_return unloaded_handle_error_check handle_create load_file stored_file
    open_and_parse parse_lines after_line parse_line strip_trailing strip_comment strchr
    parse_fields parse_rest strsep skip_space starts_with str_eq strstr handle_error_check
    initialize_handle_info load_cleanup shorten sort_hostnames store_nodename add_attr
    contains_subst count_attr grow insert_attr insert_attrval parse_attr parse_attrs parse_value
    reinsert split_attr attr_lookup attrval_intersect duplicate_attr_checks hostlist_intersect
    after_file add_hosts add_read check_nodes count_subst attr_tokens isspace
raw_value_test = refl
