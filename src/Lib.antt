-- ===== src/Lib.antt =====
-- A verification library beside Xdebug, the debugging extension of PHP.
--
-- It models the parts that can be told apart from the PHP engine. Of src/lib: the path mapping (map
-- files, the rules they give, the lookups from remote to local files and back), the parser of DBGp
-- command lines, and the containers and string functions these rest on. A map file is read line by
-- line into a hash table of rules, which is then copied into two tables, one for each direction; a
-- lookup takes the rule of a path, or of the longest directory above it, and searches the rule's
-- line ranges. Of src/debugger: what happens before each statement and at each call and return
-- (steps, breakpoints, hit counts), which uses the path mapping; the commands of the client that
-- end a break; the resolving of breakpoints to lines; the reading of the client's messages, the
-- handlers of the commands about breakpoints and features, and the XML of the replies, with the
-- encodings it needs (entities, base64, file URLs). Of src/coverage: the branches of a function and
-- the search for the paths through them.
--
-- Files and the code they model (paths from the repository's root):
--   * Prelude: shared names; byte strings, lists and signed integers over the native numbers.
--   * CString: src/lib/strrnchr.h, and strchr and strrchr. Strtol: strtol of the C library.
--   * Trim: src/lib/trim.c. Stripcslashes: src/lib/stripcslashes.c.
--   * BitSet: xdebug_set of src/lib/set.c. BitSet/Bits has the single bits of a byte, BitSet/Growth
--     the invariant and what growing makes of a set.
--   * Arg: src/lib/arg.c. Crc32: src/lib/crc32.c. Vector: src/lib/vector.h. Base64: the base64
--     functions of src/lib/compat.c. Url: the paths and URLs of src/lib/usefulstuff.c.
--   * Hash: src/lib/hash.c. Hash/Keys hashes and compares keys, Hash/Chain is one slot's list,
--     Hash/Table the table. Hash/Valid has its invariant, Hash/Walk the walks.
--   * Llist: src/lib/llist.c, on nodes in memory. Llist/Segments has the nodes that stand for a
--     list, Llist/Refinement the invariant and, by operation, what they do to it.
--   * CmdParser: xdebug_cmd_parse of src/lib/cmd_parser.c; one step of its state machine is
--     `step_in`, the loop is `run`.
--   * Maps: src/lib/maps. Maps/Types has the rules, Maps/Ranges the two binary searches,
--     Maps/Lookup remote_to_local and local_to_remote (all of maps_private.c); under Maps/Parser
--     stand the parts of parser.c: State, LineRange (extract_line_range), Elements
--     (prepare_remote_element and prepare_local_element), Rule (state_add_rule), Lines
--     (state_file_read_lines) and Copy (copy_rule, copy_rule_reverse, xdebug_path_maps_parse_file).
--     Ordered is about the order of a mapping's ranges, Reading about the line loop, Copying about
--     the copies.
--   * Debugger: src/debugger. Debugger/Types has the breakpoints, Debugger/Location the place of
--     the program as the client sees it and xdebug_dbgp_break_on_line, Debugger/Hits
--     xdebug_handle_hit_value, Debugger/Context the state of stepping and the commands of
--     handler_dbgp.c that end a break. Debugger/Statement is xdebug_debugger_statement_call, with
--     step_over and step_out in Statement/Over and Statement/Out; Debugger/Functions and
--     Functions/Returns are xdebug_debugger_handle_breakpoints; Debugger/Program strings the hooks
--     of a program's statements, calls and returns up to the next stop, and Program/Quiet is about
--     calls and returns without a breakpoint. Debugger/Exclusive is about the steps that are under
--     way. Debugger/Resolve is line_breakpoint_resolve_helper, Debugger/Packets
--     xdebug_fd_read_line_delim, Debugger/Registry the breakpoints that the client has set.
--     Debugger/Session is the state of the connection and RETURN_RESULT. Debugger/Dispatch is the
--     table of commands, xdebug_dbgp_parse_option and xdebug_dbgp_cmdloop over all commands, with
--     the handlers as an interface: Dispatch/Known puts the handlers modelled here behind it, in
--     front of any others; Dispatch/Answers and Dispatch/Offered are about what a client can rely
--     on. Debugger/Features is feature_get and feature_set. Debugger/Breakpoints has the handlers:
--     Set is breakpoint_set, Describe the node of a breakpoint, Action breakpoint_get,
--     breakpoint_update, breakpoint_remove and breakpoint_list; Placement says where a breakpoint
--     is put, Adding how each type is, Kept and Touched what commands leave of the objects, Given
--     which ids were given out; Consistent, Leaves, Handlers and Reached are about the registry.
--     Debugger/Replies is make_message, Replies/Client a client that reads it.
--   * Xml: Xml/Encode is xdebug_xmlize of src/lib/var.c, Xml/Build src/lib/xml.c. Xml/Reader is a
--     reader of XML written for the proofs, Xml/Built and Xml/Strings are about the nodes that the
--     operations can build.
--   * Coverage: src/coverage/branch_info.c. Branches/Closing is xdebug_branch_post_process.
--     Branches/Edges and Branches/Ending are about the end of the search for paths, Branches/Trails
--     and Branches/Walks about the paths it finds.
--   * Tests: runs, and the theorems at concrete inputs.
--
-- State is passed explicitly, an error is a value with its code. A C string is the list of its
-- bytes; a pointer into one is an offset. `int` and `size_t` are of 32 and 64 bits, and conversions
-- between them are written out; a sum of two line numbers is taken not to overflow an `int`. The
-- platform is not Windows. A hash table records in `destroyed` the values it gave to its
-- destructor; a chain is a list instead of the linked list of Llist.
--
-- Fuel: the binary search gets the number of ranges plus 1, which bounds its rounds because each
-- one shrinks the interval; the walk over directories gets the length of the path plus 1, because
-- each round shortens the prefix; the line loop gets the length of the file plus 1, because each
-- round reads a byte; the stripping of slashes and the splitting of a string get its length. The
-- search, the walk and the line loop have an outcome of their own for no fuel. The scans for a line
-- get 5 rounds, their range; the search for paths gets the number of outs of all branches plus 1,
-- since a path takes no edge twice; emptying a linked list gets its size; a chain of catches gets
-- the number of opcodes, with an outcome of its own for a longer one. The reader of XML gets the
-- length of the text plus 1.
--
-- Handlers of breakpoints: the system is a parameter (the process id, realpath, the path of a
-- relative file, the order of qsort), and so are the path maps and the functions of a file. Hash
-- tables for functions and exceptions hold places in a store, so that a change through one pointer
-- is seen by all. Reading through NULL is an outcome of its own. The length of a reply fits an int.
-- An id is an unsigned int, of the process id and the count of breakpoints, in the bits of an int;
-- theorems that need the ids to be different ask for a next id below 2 ^ 31. The count itself does
-- not overflow.
--
-- The debugger: what PHP does is a parameter (the evaluation of a condition, the comparison of
-- names without regard to case), and so are the statements, calls and returns of the program. In
-- stepping, the client is the list of the commands it will send, of those that end a break. A
-- client that sends none has closed the connection, and a reply is not sent without a connection,
-- except in the status `starting`. Hit counts do not overflow. A branch is read and written inside
-- of its block; a position fits an int.
--
-- Not modelled: in the debugger exceptions, the handlers of the commands that evaluate code or show
-- data, notifications and logging; the marking of covered lines and branches; tracing, profiling
-- and development modes, which live on the data of the PHP engine; files and sockets; the error
-- messages of map files; memory management; string buffers as blocks of memory.
pub mod Prelude
pub mod CString
pub mod Hash
pub mod Trim
pub mod Strtol
pub mod Stripcslashes
pub mod CmdParser
pub mod Base64
pub mod BitSet
pub mod Crc32
pub mod Arg
pub mod Vector
pub mod Xml
pub mod Url
pub mod Debugger
pub mod Coverage
pub mod Llist
pub mod Maps
mod Tests
