-- ===== src/Debugger/Types.antt =====
-- The breakpoints of src/debugger/handlers.h.
use xdebug.Prelude.{ℕ, Bool, Bytes, Option}
use xdebug.Prelude.Int.{ℤ}

-- XDEBUG_BREAKPOINT_TYPE_*
pub data BreakpointType : Type 0 where
  line conditional call return exception watch : BreakpointType

-- XDEBUG_HIT_*
pub data HitCondition : Type 0 where
  hit_disabled greater_equal equal modulo : HitCondition

-- struct _xdebug_brk_info; a flag is a Boolean, and an empty file name stands for NULL. `hit_count` starts at 0 and is only incremented.
pub record Breakpoint : Type 0 where
  pub id : ℤ
  pub brk_type : BreakpointType
  pub resolved : Bool
  pub classname : Option Bytes
  pub functionname : Option Bytes
  pub exceptionname : Option Bytes
  pub function_break_type : BreakpointType
  pub filename : Bytes
  pub original_lineno : ℤ
  pub resolved_lineno : ℤ
  pub condition : Option Bytes
  pub disabled : Bool
  pub temporary : Bool
  pub hit_count : ℕ
  pub hit_value : ℤ
  pub hit_condition : HitCondition
