-- ===== src/Lib.antt =====
-- pgvictoria is a tuning solution for PostgreSQL, which compares the configuration of servers: a
-- server and command line programs on one library, libpgvictoria. This library models the parts
-- of libpgvictoria that compute: texts, numbers, settings and command lines.
--
-- Parts, and the C code that they model:
--   Prelude        tests on native numbers, lists and machine integers that all parts share
--   Bytes          C strings, as lists of their bytes without the 0, and the character classes
--                  of the C library in the C locale
--   Utf8           src/libpgvictoria/utf8.c
--   Value          src/libpgvictoria/value.c, src/include/value.h
--   Guc            src/libpgvictoria/guc.c
--   Configuration  src/libpgvictoria/configuration.c: Numbers is as_int; Units is as_seconds,
--                  as_bytes and as_logging_rotation_size; Levels holds the readers of words;
--                  Lines is remove_leading_whitespace_and_comments and extract_key_value
--   Utils          src/libpgvictoria/utils.c: Wire holds the readers and writers of integers,
--                  Append the growing texts, Text the helpers on texts, with handle_escape_char
--                  of src/libpgvictoria/json.c, which undoes a character of escape_string, and
--                  Version the version numbers, Command the table of commands
--   Cmd            src/libpgvictoria/cmd.c
--   Deque          src/libpgvictoria/deque.c: Deque is the code on a memory of nodes, Spec what
--                  each operation promises on the list of items, Refine and Runs relate them
--   Message        the framing of messages in src/libpgvictoria/utils.c and message.c: Walk finds a
--                  message among others, Errors reads the fields of an error, and Response is what
--                  pgvictoria_query_execute makes of the bytes that it has read; Requests are the
--                  messages that are written, and the reading of the startup message
--   Json           the parser of src/libpgvictoria/json.c; Grammar is a grammar of compact JSON,
--                  Accepted the parser on its texts, Total is about its rounds
--   Art            src/libpgvictoria/art.c: Nodes adds children to the four layouts of a node,
--                  Search, Insert, Removing and Iterate are the recursive functions, the last with
--                  the search by prefix, Tree is what callers use;
--                  Layout, Changes, Adding, Indexing, Expanding, Children and Replacing are about
--                  one node, Holding and the files that use it about the tree
--
-- A function of the source has a definition of its name, without the prefix `pgvictoria_`; a
-- pointer that may be NULL is an Option, a status code and what is stored through pointers are
-- the result. The parts call each other as the source does: Guc grows its texts by Append, and
-- so do the readers of lines; Levels and Units read numbers by Numbers.as_int.
--
-- Bounds. A w-bit integer is a native number below 2 ^ w, with the wrap-around written out; an
-- `int` is an ℤ, and a product that leaves `int`, or a store behind a fixed buffer of MISC_LENGTH
-- (128) bytes, is an outcome of its own, since C gives it no meaning; so are a length that the int of
-- remove_prefix does not hold, the numbers of parts and of matches in split and prefix_search, and
-- the count of a removal from a deque, which is a fault. The length of a key of the radix tree is cut
-- to uint32_t where its callers pass it on, and what is computed from it below, a depth or a
-- prefix_len, is at most the length of a key: the theorems about the tree as a map are about keys
-- whose lengths fit. The loops of utf8.c and of remove_prefix run on fuel: the length of the
-- buffer, or of the text; the counting of split on one round more than the text is long. A numeral
-- takes as many rounds as the number has digits. A walk along a deque runs on one round more than
-- its size, one along messages or the fields of an error on one round more than there are bytes.
-- The parser of JSON allows as many objects inside each other as the text is long, and in each loop
-- one round more than there are characters left.
--
-- The search and the insertion of the radix tree are structural on it; find_index runs on as many
-- rounds as there are keys, and the loops over the arrays of a node on as many as the array is
-- long.
--
-- Memory. An address is a number and NULL is 0. The deque has its nodes in a store, by field; what
-- malloc returns is an argument, and a read or a write of a node that is not in use is a fault.
-- The deque itself is one that is not NULL, and its locks are left out. A node of the radix tree
-- has one owner and is a value: what is written through `node_ref` is the result of the function.
--
-- Not modelled. A failing malloc, everything that goes to files, sockets, processes or the log,
-- cryptography, and the conversions of floating point numbers. Of the computing parts the sort
-- and the printing of deques, the iterator object of a radix tree and its printing, the printer of
-- JSON, the loop that reads a whole configuration file and the configuration tool are
-- not modelled.
pub mod Prelude
pub mod Bytes
pub mod Utf8
pub mod Value
pub mod Guc
pub mod Configuration
pub mod Utils
pub mod Cmd
pub mod Deque
pub mod Message
pub mod Json
pub mod Art
