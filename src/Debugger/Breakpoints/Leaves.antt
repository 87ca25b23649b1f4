-- ===== src/Debugger/Breakpoints/Leaves.antt =====
-- What removing and changing of breakpoints leave of the table of ids.
use xdebug.Prelude.{
  Bool-cases, set, ℕ, ◌≡◌, refl, sym, ap, ◌∙◌, Bool, true, false, none, some, inl, inr, Bytes,
  equal, equal_iff, if◌then◌else◌, arith,
}
use xdebug.Hash
use xdebug.Hash.{Hash, Key, str, key_compare, key_compare_iff}
use xdebug.Hash.Valid.{delete-IsValid, find-delete}
use xdebug.Debugger.Types.{
  Breakpoint, BreakpointType, line, conditional, call, return, exception, watch,
}
use xdebug.Debugger.Registry.{
  Registry, BreakpointAdmin, breakpoint_admin_fetch, breakpoint_admin_remove, breakpoint_remove,
  remove_lines, remove_function,
}
use xdebug.Debugger.Breakpoints.Action.{assign_info, assign_hash}
use xdebug.Debugger.Breakpoints.Consistent.{IsConsistent}

-- The table of ids is the same.
pub record SameIds (r r' : Registry) : Type 0 where
  pub count : r'.breakpoint_count ≡ r.breakpoint_count
  pub list : r'.breakpoint_list ≡ r.breakpoint_list

fetch-same :
    (r r' : Registry)
    → SameIds r r'
    → (k : Bytes) → breakpoint_admin_fetch r' k ≡ breakpoint_admin_fetch r k
unfolding breakpoint_admin_fetch
fetch-same r r' e k = rw e.list

pub IsConsistent-same :
    (pid : ℕ) (r r' : Registry) → SameIds r r' → IsConsistent pid r → IsConsistent pid r'
IsConsistent-same pid r r' e c = record {
  valid = rw e.list c.valid;
  own = λ k a h. c.own k a (sym (fetch-same r r' e k) ∙ h);
  given = λ k a h. rw e.count (c.given k a (sym (fetch-same r r' e k) ∙ h));
}

assign_hash-SameIds :
    (r : Registry) (hash : Hash ℕ) (key : Bytes) (brk : Breakpoint)
    → SameIds r (assign_hash r hash key brk)
unfolding assign_hash
assign_hash-SameIds r hash key brk =
    elim (Hash.find hash (str key))
      as (λ x. SameIds r (elim x [ none ↦ r | some i ↦ record r { store = set r.store i brk } ])) [
        | none ↦ record { count = refl; list = refl }
        | some i ↦ record { count = refl; list = refl }
      ]

pub assign_info-SameIds :
    (r : Registry) (type : BreakpointType) (key : Bytes) (brk : Breakpoint)
    → SameIds r (assign_info r type key brk)
unfolding assign_info
assign_info-SameIds r line key brk = record { count = refl; list = refl }
assign_info-SameIds r conditional key brk = record { count = refl; list = refl }
assign_info-SameIds r call key brk = assign_hash-SameIds r _ key brk
assign_info-SameIds r return key brk = assign_hash-SameIds r _ key brk
assign_info-SameIds r exception key brk = assign_hash-SameIds r _ key brk
assign_info-SameIds r watch key brk = record { count = refl; list = refl }

pub breakpoint_remove-SameIds :
    (r : Registry) (type : BreakpointType) (key : Bytes)
    → SameIds r (breakpoint_remove r type key).0
unfolding breakpoint_remove remove_lines remove_function
breakpoint_remove-SameIds r line key = record { count = refl; list = refl }
breakpoint_remove-SameIds r _ key = record { count = refl; list = refl }

-- What a command does to the ids: `d` is gone if it is removed, and nothing else changes.
pub record Leaves (pid : ℕ) (r : Registry) (gone : Bool) (d : Bytes) (r' : Registry) : Type 0 where
  pub consistent : IsConsistent pid r'
  pub fetched :
      (k : Bytes)
      → breakpoint_admin_fetch r' k ≡ (
          if gone
          then (if equal k d then none else breakpoint_admin_fetch r k)
          else breakpoint_admin_fetch r k)

admin_remove-fetch :
    (pid : ℕ) (r : Registry) (d k : Bytes)
    → IsConsistent pid r
    → breakpoint_admin_fetch (breakpoint_admin_remove r d).0 k
      ≡ (if equal k d then none else breakpoint_admin_fetch r k)
unfolding breakpoint_admin_fetch breakpoint_admin_remove
admin_remove-fetch pid r d k c =
    let same : key_compare (str k) (str d) ≡ equal k d =
      ground (arith, key_compare_iff (str k) (str d), equal_iff k d) in
    rw (← same) (find-delete r.breakpoint_list c.valid (str d) (str k))

pub admin_remove-Leaves :
    (pid : ℕ) (r : Registry) (d : Bytes)
    → IsConsistent pid r
    → Leaves pid r true d (breakpoint_admin_remove r d).0
admin_remove-Leaves pid r d c = record {
  consistent = record {
    valid = unfold breakpoint_admin_remove in delete-IsValid r.breakpoint_list c.valid (str d);
    own = λ k a h. c.own k a (kept k a h);
    given = λ k a h. unfold breakpoint_admin_remove in c.given k a (kept k a h);
  };
  fetched = λ k. admin_remove-fetch pid r d k c;
}
  where
    kept :
        (k : Bytes) (a : BreakpointAdmin)
        → breakpoint_admin_fetch (breakpoint_admin_remove r d).0 k ≡ some a
        → breakpoint_admin_fetch r k ≡ some a
    kept k a h = ground (arith, admin_remove-fetch pid r d k c, h)

pub Leaves-same :
    (pid : ℕ) (r r1 : Registry) (gone : Bool) (d : Bytes) (r2 : Registry)
    → SameIds r r1
    → Leaves pid r1 gone d r2
    → Leaves pid r gone d r2
Leaves-same pid r r1 gone d r2 e l = record {
  consistent = l.consistent;
  fetched = λ k. l.fetched k ∙ rw (fetch-same r r1 e k);
}

pub Leaves-refl :
    (pid : ℕ) (r r' : Registry) (d : Bytes)
    → IsConsistent pid r
    → SameIds r r'
    → Leaves pid r false d r'
Leaves-refl pid r r' d c e = record {
  consistent = IsConsistent-same pid r r' e c;
  fetched = fetch-same r r' e;
}

-- an id that is not there need not be removed
pub Leaves-absent :
    (pid : ℕ) (r : Registry) (d : Bytes)
    → IsConsistent pid r
    → breakpoint_admin_fetch r d ≡ none
    → Leaves pid r true d r
Leaves-absent pid r d c absent = record {
  consistent = c;
  fetched = λ k. elim (Bool-cases (equal k d)) [
    | inl same ↦ rw same (ap (breakpoint_admin_fetch r) ((equal_iff k d).0 same) ∙ absent)
    | inr other ↦ rw other
  ];
}
