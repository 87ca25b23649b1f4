-- ===== src/Tests/DebuggerProofs.antt =====
-- The theorems on breakpoints and packets at concrete inputs.
use xdebug.Prelude.{◌≡◌, refl, ℕ, true, false, none, [], ◌∷◌, ◌++◌, List, codes, Bytes, arith}
use xdebug.Prelude.Int.{pos}
use xdebug.BitSet
use xdebug.Hash
use xdebug.Hash.{Hash, hash_program}
use xdebug.Debugger.Types.{Breakpoint, line, equal}
use xdebug.Debugger.Resolve.{FunctionLines, find_smallest_range, resolve_in}
use xdebug.Debugger.Resolve.Smallest.{Smallest, find_smallest_range-Smallest}
use xdebug.Debugger.Resolve.Nearest.{candidates, first_breakable, resolve_in-first_breakable}
use xdebug.Debugger.Location.{Engine, break_on_line, is_dbgp_url, resolved_filename}
use xdebug.Debugger.Statement.{break_ok}
use xdebug.Debugger.Hits.Count.{visits, visits-expected}
use xdebug.Debugger.Packets.{Recv, received, interrupted, read_messages}
use xdebug.Debugger.Packets.Messages.{Brings, IsMessage, encode, read_messages-encode}

-- a function from line 3 to line 9 of which lines 4 and 7 can be broken on
abbrev a_function : FunctionLines
a_function = record {
  line_start = 3;
  line_end = 9;
  line_span = 6;
  lines_breakable = BitSet.add (BitSet.add (BitSet.create 12) 4) 7;
}

abbrev a_file : FunctionLines
a_file = record a_function { line_start = 1; line_end = 20; line_span = 19 }

-- a breakpoint on line 5, for the second time it is reached
abbrev on_five : Breakpoint
on_five = record {
  id = pos 1;
  brk_type = line;
  resolved = false;
  classname = none;
  functionname = none;
  exceptionname = none;
  function_break_type = line;
  filename = codes "a.php";
  original_lineno = pos 5;
  resolved_lineno = pos 5;
  condition = none;
  disabled = false;
  temporary = false;
  hit_count = 0;
  hit_value = pos 2;
  hit_condition = equal;
}

find_smallest_range-Smallest_example :
    Smallest
      (pos 5)
      (a_file ∷ a_function ∷ [])
      (find_smallest_range (a_file ∷ a_function ∷ []) on_five)
find_smallest_range-Smallest_example =
    find_smallest_range-Smallest (a_file ∷ a_function ∷ []) on_five

resolve_in-first_breakable_example :
    resolve_in a_function (pos 5) ≡ first_breakable a_function (candidates a_function 5)
resolve_in-first_breakable_example =
    resolve_in-first_breakable a_function 5 (omega arith) (omega arith) (omega arith) (omega arith)

abbrev plain_engine : Engine
plain_engine = record { do_eval = λ c. none; equals_ci = λ a b. true }

abbrev no_evals : Hash ℕ
no_evals = Hash.alloc 8 true

visits-expected_example : visits plain_engine no_evals (codes "a.php") (pos 5) 7 (on_five ∷ []) ≡ 1
visits-expected_example =
    visits-expected plain_engine no_evals (codes "a.php") (pos 5) on_five 1 7 refl refl refl
      (unfold break_on_line resolved_filename break_ok is_dbgp_url in refl)

-- two messages in three pieces, with an interruption
abbrev run_message : Bytes
run_message = codes "run -i 1"

abbrev stop_message : Bytes
stop_message = codes "stop"

abbrev pieces : List Recv
pieces =
    received (codes "run ")
    ∷ interrupted
    ∷ received (codes "-i 1" ++ (0 ∷ codes "st"))
    ∷ received (codes "op" ++ (0 ∷ []))
    ∷ []

pieces-Brings : Brings pieces (encode 0 (run_message ∷ stop_message ∷ []))
pieces-Brings =
    Brings.chunk _ _ _ _
      (Brings.after_eintr _ _ (Brings.chunk _ _ _ _ (Brings.chunk _ _ _ _ Brings.nothing)))

-- the delimiter, 0, is not in a message
all_run : IsMessage 0 run_message
all_run = (
  (λ h. cc),
  ((λ h. cc), ((λ h. cc), ((λ h. cc), ((λ h. cc), ((λ h. cc), ((λ h. cc), ((λ h. cc), tt))))))),
)

all_stop : IsMessage 0 stop_message
all_stop = ((λ h. cc), ((λ h. cc), ((λ h. cc), ((λ h. cc), tt))))

read_messages-encode_example : read_messages 2 0 [] pieces ≡ run_message ∷ stop_message ∷ []
read_messages-encode_example =
    read_messages-encode 0 (run_message ∷ stop_message ∷ []) [] pieces _ (all_run, (all_stop, tt))
      (omega arith) pieces-Brings refl
