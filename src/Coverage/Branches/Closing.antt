-- ===== src/Coverage/Branches/Closing.antt =====
-- xdebug_branch_post_process of src/coverage/branch_info.c: which catches are entry points, and where
-- the branches end.
use xdebug.Prelude.{
  ℕ, zero, suc, ◌-◌, Bool, true, false, not, ◌&&◌, Option, none, some, List, if◌then◌else◌, length,
  get_or, set,
}
use xdebug.BitSet
use xdebug.BitSet.{BitSet, in_set}
use xdebug.Coverage.Branches.{BranchInfo, branch_at}

-- the opcodes that are told apart: ZEND_FETCH_CLASS, ZEND_CATCH and all others
pub data OpcodeKind : Type 0 where
  fetch_class catch other : OpcodeKind

-- An opcode of PHP: whether it is the last catch (ZEND_LAST_CATCH), the opcode that its second
-- operand jumps to, and whether that operand is set.
pub record Opcode : Type 0 where
  pub kind : OpcodeKind
  pub last_catch : Bool
  pub jump : ℕ
  pub has_jump : Bool

abbrev pub no_opcode : Opcode
no_opcode = record { kind = other; last_catch = false; jump = 0; has_jump = false }

abbrev pub opcode_at : List Opcode → ℕ → Opcode
opcode_at opcodes i = get_or opcodes i no_opcode

abbrev is_catch : OpcodeKind → Bool
is_catch catch = true
is_catch _ = false

-- a class that is fetched is stepped over
abbrev behind_fetch : OpcodeKind → ℕ → ℕ
behind_fetch fetch_class position = suc position
behind_fetch _ position = position

-- only_leave_first_catch; `none` when the chain of catches is longer than the fuel
unfoldable pub only_leave_first_catch : ℕ → List Opcode → BitSet → ℕ → Option BitSet
only_leave_first_catch zero opcodes entries position = none
only_leave_first_catch (suc fuel) opcodes entries position =
    let here = behind_fetch (opcode_at opcodes position).kind position in
    let op = opcode_at opcodes here in
    let entries' = BitSet.remove entries here in
    let exit_jmp = behind_fetch (opcode_at opcodes op.jump).kind op.jump in
    let rest = only_leave_first_catch fuel opcodes entries' exit_jmp in
    if not (is_catch op.kind)
    then some entries
    else if op.last_catch
    then some entries'
    else if is_catch (opcode_at opcodes exit_jmp).kind
    then rest
    else some entries'

-- the first loop of xdebug_branch_post_process, over `n` opcodes from `i` on
unfoldable pub first_catches : ℕ → List Opcode → ℕ → BitSet → Option BitSet
first_catches zero opcodes i entries = some entries
first_catches (suc n) opcodes i entries =
    let op = opcode_at opcodes i in
    if not (in_set entries i && is_catch op.kind && op.has_jump)
    then first_catches n opcodes (suc i) entries
    else elim (only_leave_first_catch (length opcodes) opcodes entries op.jump) [
      | none ↦ none
      | some entries' ↦ first_catches n opcodes (suc i) entries'
    ]

-- The second loop of xdebug_branch_post_process: one round at opcode `i`. A write to the
-- branch at -1, before any has started, changes nothing here.
unfoldable pub end_at_start : BranchInfo → ℕ → ℕ → BranchInfo
end_at_start info last_start i =
    let b = branch_at info.branches last_start in
    record info {
      branches = set info.branches last_start (record b {
        outs_count = 1;
        outs = set b.outs 0 i;
        end_op = i - 1;
        end_lineno = (branch_at info.branches i).start_lineno;
      });
    }

-- the outs `from` on, copied from the opcode that ends the branch
unfoldable pub copy_outs : ℕ → List ℕ → List ℕ → List ℕ
copy_outs zero from to = to
copy_outs (suc j) from to = set (copy_outs j from to) j (get_or from j 0)

unfoldable pub end_at_end : BranchInfo → ℕ → ℕ → BranchInfo
end_at_end info last_start i =
    let b = branch_at info.branches last_start in
    let e = branch_at info.branches i in
    record info {
      branches = set info.branches last_start (record b {
        outs_count = e.outs_count;
        outs = copy_outs e.outs_count e.outs b.outs;
        end_op = i;
        end_lineno = e.start_lineno;
      });
    }

-- in_branch, last_start and the branches
pub record Scan : Type 0 where
  pub in_branch : Bool
  pub last_start : ℕ
  pub info : BranchInfo

unfoldable pub scan_start : Scan → ℕ → Scan
scan_start s i =
    if in_set s.info.starts i
    then record {
      in_branch = true;
      last_start = i;
      info = if s.in_branch then end_at_start s.info s.last_start i else s.info;
    }
    else s

unfoldable pub scan_end : Scan → ℕ → Scan
scan_end s i =
    if in_set s.info.ends i
    then record s { in_branch = false; info = end_at_end s.info s.last_start i }
    else s

-- the loop over `n` opcodes from `i` on
unfoldable pub scan : ℕ → ℕ → Scan → Scan
scan zero i s = s
scan (suc n) i s = scan n (suc i) (scan_end (scan_start s i) i)

-- that loop of xdebug_branch_post_process; without a start, `last_start` is outside of the block
unfoldable pub close_branches : BranchInfo → BranchInfo
close_branches info =
    (scan info.starts.size 0
      (record { in_branch = false; last_start = info.size; info = info })).info

-- xdebug_branch_post_process
unfoldable pub post_process : List Opcode → BranchInfo → Option BranchInfo
post_process opcodes info =
    elim (first_catches info.entry_points.size opcodes 0 info.entry_points) [
      | none ↦ none
      | some entries ↦ some (close_branches (record info { entry_points = entries }))
    ]
