-- ===== src/Debugger/Hits.antt =====
-- xdebug_handle_hit_value of src/debugger/debugger.c: whether a hit of a breakpoint stops.
pub mod Count
use xdebug.Prelude.{ℕ, suc, ◌+◌, ◌%◌, Bool, true, false, leb, ltb, ◌==◌, if◌then◌else◌}
use xdebug.Prelude.Int.{ℤ, pos, negsuc, eqb_ℤ, leb_ℤ}
use xdebug.Debugger.Types.{Breakpoint, HitCondition, hit_disabled, greater_equal, equal, modulo}

-- hit_count % hit_value == 0, on a hit_value that is not 0; the sign of a remainder does not matter
unfoldable pub divides : ℤ → ℕ → Bool
divides (pos v) count = count % v == 0
divides (negsuc v) count = count % suc v == 0

-- the switch on hit_condition
unfoldable pub hit_condition_met : HitCondition → ℤ → ℕ → Bool
hit_condition_met greater_equal value count = leb_ℤ value (pos count)
hit_condition_met equal value count = eqb_ℤ (pos count) value
hit_condition_met modulo value count = divides value count
hit_condition_met hit_disabled value count = true

-- the breakpoint after a hit
unfoldable pub after_hit : Breakpoint → Breakpoint
after_hit brk = record brk {
  disabled = if brk.temporary then true else brk.disabled;
  hit_count = suc brk.hit_count;
}

-- what the function returns
unfoldable pub hit_stops : Breakpoint → Bool
hit_stops brk =
    if eqb_ℤ brk.hit_value (pos 0)
    then true
    else hit_condition_met brk.hit_condition brk.hit_value (suc brk.hit_count)
