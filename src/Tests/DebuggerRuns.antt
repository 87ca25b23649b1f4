-- ===== src/Tests/DebuggerRuns.antt =====
-- Runs of the debugger's registry of breakpoints.
use xdebug.Prelude.{◌≡◌, refl, ℕ, true, false, none, some, [], ◌∷◌, codes, equal}
use xdebug.Prelude.Int.{pos, to_int}
use xdebug.Arg.{explode, memnstr, pieces}
use xdebug.Trim.{skip_space}
use xdebug.Strtol.{strtol}
use xdebug.Hash
use xdebug.Hash.{hash_program}
use xdebug.Debugger.Types
use xdebug.Debugger.Types.{Breakpoint, line}
use xdebug.Debugger.Registry.{
  Registry, matches_key, fetch_line, breakpoint_brk_info_fetch, breakpoint_admin_add,
}

abbrev on_line : ℕ → Breakpoint
on_line n = record {
  id = pos n;
  brk_type = line;
  resolved = false;
  classname = none;
  functionname = none;
  exceptionname = none;
  function_break_type = line;
  filename = codes "a.php";
  original_lineno = pos n;
  resolved_lineno = pos n;
  condition = none;
  disabled = false;
  temporary = false;
  hit_count = 0;
  hit_value = pos 0;
  hit_condition = Types.hit_disabled;
}

abbrev two_lines : Registry
two_lines = record {
  breakpoint_count = 2;
  breakpoint_list = Hash.alloc 64 true;
  line_breakpoints = on_line 5 ∷ on_line 8 ∷ [];
  function_breakpoints = Hash.alloc 64 true;
  exception_breakpoints = Hash.alloc 64 true;
  store = [];
}

-- the breakpoint on line 5 is found by its key; a key that none has finds the last one
fetches :
    (breakpoint_brk_info_fetch two_lines line (codes "a.php$5") ≡ some (on_line 5))
    × (breakpoint_brk_info_fetch two_lines line (codes "b.php$9") ≡ some (on_line 8))
unfolding breakpoint_brk_info_fetch fetch_line matches_key explode memnstr pieces strtol to_int
    equal skip_space
fetches = (refl, refl)

-- the id of a new breakpoint, and its entry under that id
admin_added : (breakpoint_admin_add 3 two_lines line (codes "a.php$9")).1 ≡ 30003
unfolding breakpoint_admin_add
admin_added = refl
