-- ===== src/Tests/Setup.antt =====
-- A small database, as `genders_load_data` reads it from a file.
use genders.Load.{
  load_data, handle_create, load_return, load_file, stored_file, initialize_handle_info,
  load_cleanup, shorten, sort_hostnames, store_nodename,
}
use genders.Handle.Checks.{unloaded_handle_error_check, handle_error_check}
use genders.Parse.File.{File, open_and_parse, parse_lines, after_line, after_file}
use genders.Parse.Line.{
  parse_line, parse_fields, parse_rest, add_hosts, add_read, check_nodes, count_subst,
}
use genders.Parse.Text.{strip_trailing, strip_comment, strsep, skip_space, attr_tokens, isspace}
use genders.Base.{
  true, false, some, none, [], ◌∷◌, ◌≡◌, refl, codes, starts_with, str_eq, strstr, strchr,
}
use genders.Parse.Attributes.{
  add_attr, contains_subst, count_attr, grow, insert_attr, insert_attrval, parse_attr, parse_attrs,
  parse_value, reinsert, split_attr,
}
use genders.Parse.Duplicates.{
  attr_lookup, attrval_intersect, duplicate_attr_checks, hostlist_intersect,
}
use genders.Handle.{Handle, Hosts, magic_num, err_success}
use genders.Tests.Hostlists.{plain}

abbrev pub file : File
file = record {
  buffers = codes "n1 a=x%n,b\n" ∷ codes "# none\n" ∷ codes "n2 a=y,c\n" ∷ [];
  at_end = true;
}

abbrev pub line1 : Hosts
line1 = record {
  hl = codes "n1" ∷ [];
  attrval_index =
      (codes "b", record { attr = codes "b"; val = none; val_contains_subst = false })
      ∷ (
        codes "a",
        record { attr = codes "a"; val = some (codes "x%n"); val_contains_subst = true },
      )
      ∷ [];
  attrval_index_size = 512;
}

abbrev pub line2 : Hosts
line2 = record {
  hl = codes "n2" ∷ [];
  attrval_index =
      (codes "c", record { attr = codes "c"; val = none; val_contains_subst = false })
      ∷ (codes "a", record { attr = codes "a"; val = some (codes "y"); val_contains_subst = false })
      ∷ [];
  attrval_index_size = 512;
}

abbrev pub db : Handle
db = record {
  magic = magic_num;
  errnum = err_success;
  is_loaded = 1;
  flags = 0;
  numnodes = 2;
  numattrs = 3;
  maxnodelen = 2;
  maxattrlen = 1;
  maxvallen = 3;
  nodename = codes "n1";
  genders_hosts = line1 ∷ line2 ∷ [];
  hostnames = codes "n1" ∷ codes "n2" ∷ [];
  attrs = (codes "c", codes "c") ∷ (codes "b", codes "b") ∷ (codes "a", codes "a") ∷ [];
  attrs_size = 512;
  valbuf = some [];
  attrval_index = none;
  attrval_index_attr = none;
  attrval_buflist = none;
}

-- The file is read as this database.
pub load_test : load_data plain (some file) (some (codes "n1.site")) handle_create ≡ (some tt, db)
unfolding load_data load_return unloaded_handle_error_check handle_create load_file stored_file
    open_and_parse parse_lines after_line parse_line strip_trailing strip_comment strchr
    parse_fields parse_rest strsep skip_space starts_with str_eq strstr handle_error_check
    initialize_handle_info load_cleanup shorten sort_hostnames store_nodename add_attr
    contains_subst count_attr grow insert_attr insert_attrval parse_attr parse_attrs parse_value
    reinsert split_attr attr_lookup attrval_intersect duplicate_attr_checks hostlist_intersect
    after_file add_hosts add_read check_nodes count_subst attr_tokens isspace
load_test = refl
