-- ===== src/Lib.antt =====
-- genders: a library that reads a static database of the nodes of a cluster and their attributes,
-- and answers questions and queries about it; nodeattr, the command line tool over it; and bindings
-- for other languages. The code modelled is src/libgenders, src/nodeattr, the bindings for Python
-- and Java, the PHP module and the cfengine module; every path below is relative to the root of the
-- repository.
--
-- Parts and files
--   Base            lists, texts (lists of codes), the int type and Boolean tests
--   Libcommon       the calls of src/libcommon that the code makes. A hash is the list of its
--                   items in the order of hash_for_each, a hostlist the list of its names. What
--                   the contents do not determine (where hash_insert puts an item, how a text is
--                   read as hosts, sorting, removal of duplicates, the ranged text) is a record
--                   of operations with named laws
--   Handle          struct genders (genders_api.h) as a record; a call is a function from a handle
--                   to an option, none for -1 or NULL, and the handle it leaves. The checks of
--                   genders_util.c are in Handle/Checks
--   Value           _genders_get_valptr (genders_util.c)
--   Array           _genders_put_in_array and the functions on result lists (genders.c)
--   Lookup          genders_getnodename, genders_isnode, genders_isattr, genders_testattr,
--                   genders_testattrval, genders_isattrval (genders.c)
--   Nodes           genders_getnodes (genders.c); Nodes/Fits is about the lengths that it copies
--   Attrs           genders_getattr and genders_getattr_all (genders.c); Attrs/Items says which
--                   attributes and values the lines give a node, Attrs/Stored and Attrs/All what
--                   the two calls store
--   Index           genders_index_attrvals (genders.c)
--   Parse           genders_parsing.c: the lines of a genders file, the whole file, and the growth
--                   of a hash (_genders_rehash of genders_util.c). Parse/Lengths says what the
--                   lengths that it counts bound, and Load/Lengths takes this to a loaded handle
--   Load            genders_handle_create, genders_handle_destroy, genders_load_data,
--                   genders_parse, the flags, the counters and the error texts (genders.c)
--   Copy            genders_copy (genders.c)
--   Query           genders_query.y: the tree of a query and its evaluation. Query/Token has the
--                   rules of the scanner (genders_query_parse.l), Query/Grammar the rules of the
--                   grammar as relations between tokens and trees and _parse_query,
--                   Query/Automaton a parser that decides them, Query/Print a way to write tokens
--                   and trees as queries, Query/Language and Query/Ask what follows for
--                   _parse_query and genders_query
--   Nodeattr        src/nodeattr/nodeattr.c. Process: the state of a run (two handles, the text on
--                   the two streams) and its end by exit. Options and Main: main, from the
--                   options to the command and its exit status. Queries: list_nodes, test_attr,
--                   test_query. Values: list_attr_val. Hosts: list_attrs and the hash from
--                   attributes to hosts. Compare and Diff: _diff and diff_genders. Expand,
--                   Compress: expand, compress, compress_hosts. Calls: _rangestr
--   Python          src/extensions/python/libgendersmodule.c: every method of the object. Object:
--                   the object and what follows a call. Lists: the methods that give a list
--   Java            src/extensions/java/src/Gendersjni.c: every native method. Object: the field
--                   gh_addr, exceptions and what follows a call
--   Php             contrib/php/genders.c: the functions of the PHP module
--   Cfengine        contrib/cfengine/genders.c: the run of the agent module of cfengine
--   Tests           the theorems on concrete inputs
--
-- A call that changes the handle returns the new one, so a failed call keeps what it wrote before
-- it failed. Loops are structural recursion over the list that the code walks, but for two. The
-- scanner has one unit of fuel for each character of the query, which is enough since each rule
-- takes a character; _rangestr doubles its buffer of 65536 bytes as often as an int of 32 bits can
-- hold the size, 14 times, and the run ends where that is not enough. The parser has a state of its
-- own, Parser, for the variables behind its pointer arguments, and an outcome that tells the return
-- value 1 of a debugging run from -1. The loading run and the debugging run are the same functions
-- with line number 0 or not.
--
-- A command of nodeattr is a function from the state of the run to a result and a new state, or to
-- the status of exit. It calls the functions of the library on the handle of the state.
--
-- A method of a binding is a function from the object, with its handle, to a result, none for NULL
-- or the default, and the object that it leaves. What the bindings call of the Python C API and of
-- the Java Native Interface is a record of operations, which may fail.
--
-- Not modelled: memory (allocation succeeds, nothing is freed), so the size of a result cell is not
-- checked by the model; reading the file, whose buffers are an argument; gethostname, likewise.
-- yyparse is generated: it is a parameter, a function from tokens to trees that decides the
-- grammar. The scanner starts every query with an empty buffer: the text that it keeps behind a
-- syntax error is left out, and so is a query that does not fit into the pipe. The calls that only
-- nodeattr makes of hostlist.c and list.c (hostlist_delete, the texts that a hostlist leaves in a
-- buffer of some size, list_sort) are a parameter too, and so are the name of the host and the text
-- of strerror(errno). Of nodeattr, the usage text, getopt_long (the options are an argument), and
-- the messages that genders_parse prints are left out; a failed assertion of hostlist_pop ends the
-- run with status 134. The build is one without WITH_NON_SHORTENED_HOSTNAMES. Of the bindings, the
-- tables of methods, the initialisation of the module and local references are left out, and the
-- arguments that PyArg_ParseTuple and zend_get_parameters read are an input, and so is whether the
-- file of the cfengine module is there. Of the repository, src/libcommon (copies of libraries of
-- other projects), the C++ and Perl bindings, the rest of contrib and the tests are left out.
-- Counters and the other buffer sizes are natural numbers, so they do not overflow.
pub mod Base
pub mod Libcommon
pub mod Handle
pub mod Value
pub mod Array
pub mod Lookup
pub mod Nodes
pub mod Attrs
pub mod Index
pub mod Parse
pub mod Load
pub mod Copy
pub mod Query
pub mod Nodeattr
pub mod Python
pub mod Java
pub mod Php
pub mod Cfengine
pub mod Tests
