-- ===== src/Debugger/Features/Laws.antt =====
-- What feature_set sets is what feature_get tells.
use xdebug.Prelude.{ℕ, ◌^◌, ◌<◌, ◌≡◌, refl, false, some, Bytes, codes, equal, if◌then◌else◌}
use xdebug.Prelude.Int.{ℤ, pos}
use xdebug.Prelude.Decimal.{decimal}
use xdebug.Strtol.Decimals.{to_int-decimal}
use xdebug.CmdParser.{Args}
use xdebug.Xml.Build.{Node}
use xdebug.Debugger.Replies.{decimal_int}
use xdebug.Debugger.Session.{Session, option}
use xdebug.Debugger.Features.{
  supported, feature, feature_value, set_feature, feature_switch, feature_set,
}

-- The features that are numbers of the session.
pub data Setting : Type 0 where
  max_children max_data max_depth show_hidden extended_properties notify_ok : Setting
  resolved_breakpoints breakpoint_details include_return_value virtual_exception : Setting

abbrev pub name : Setting → Bytes
name max_children = codes "max_children"
name max_data = codes "max_data"
name max_depth = codes "max_depth"
name show_hidden = codes "show_hidden"
name extended_properties = codes "extended_properties"
name notify_ok = codes "notify_ok"
name resolved_breakpoints = codes "resolved_breakpoints"
name breakpoint_details = codes "breakpoint_details"
name include_return_value = codes "breakpoint_include_return_value"
name virtual_exception = codes "virtual_exception_value"

-- One feature is set, and all others are what they were.
set_one :
    (version : Bytes) (s : Session) (x y : Setting) (v : ℤ)
    → (s' : Session) × (set_feature s (name x) v ≡ some s')
      × (feature version s' (name y) ≡ (
          if equal (name x) (name y)
          then supported (decimal_int v)
          else feature version s (name y)))
unfolding set_feature feature feature_value equal
set_one version s max_children max_children v = (_, refl, refl)
set_one version s max_children _ v = (_, refl, refl)
set_one version s max_data max_children v = (_, refl, refl)
set_one version s max_data _ v = (_, refl, refl)
set_one version s max_depth max_children v = (_, refl, refl)
set_one version s max_depth _ v = (_, refl, refl)
set_one version s show_hidden max_children v = (_, refl, refl)
set_one version s show_hidden _ v = (_, refl, refl)
set_one version s extended_properties max_children v = (_, refl, refl)
set_one version s extended_properties _ v = (_, refl, refl)
set_one version s notify_ok max_children v = (_, refl, refl)
set_one version s notify_ok _ v = (_, refl, refl)
set_one version s resolved_breakpoints max_children v = (_, refl, refl)
set_one version s resolved_breakpoints _ v = (_, refl, refl)
set_one version s breakpoint_details max_children v = (_, refl, refl)
set_one version s breakpoint_details _ v = (_, refl, refl)
set_one version s include_return_value max_children v = (_, refl, refl)
set_one version s include_return_value _ v = (_, refl, refl)
set_one version s virtual_exception max_children v = (_, refl, refl)
set_one version s virtual_exception _ v = (_, refl, refl)

-- The name of a number is not `encoding`.
not_encoding : (x : Setting) → equal (name x) (codes "encoding") ≡ false
unfolding equal
not_encoding max_children = refl
not_encoding _ = refl

-- After feature_set of one of the ten features that are numbers, with a value from 0 to 2 ^ 31 - 1,
-- the text that feature_get tells for this feature is that value, and for each of the other nine
-- what it was before.
pub feature-feature_set :
    (version : Bytes) (args : Args) (s : Session) (retval : Node) (x y : Setting) (k : ℕ)
    → k < 2 ^ 31
    → option args b'n' ≡ some (name x)
    → option args b'v' ≡ some (decimal k)
    → feature version (feature_set args s retval).0 (name y)
      ≡ (if equal (name x) (name y) then supported (decimal k) else feature version s (name y))
unfolding feature_set feature_switch
feature-feature_set version args s retval x y k h n v =
    let (s', set, told) = set_one version s x y (pos k) in
    rw (n, v, feature_set, not_encoding x, to_int-decimal k h, set) (unfold decimal_int in told)
