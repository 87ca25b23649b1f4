-- ===== src/Debugger/Breakpoints/Kept.antt =====
-- What stays true of the objects in the lists of breakpoints, through the steps of a command.
use xdebug.Prelude.{
  ℕ, zero, suc, ◌≡◌, Bool, Option, none, some, List, [], ◌∷◌, All, Bytes, set, get_elem?,
}
use xdebug.Hash
use xdebug.Hash.{Hash, str}
use xdebug.Xml.Build.{Node}
use xdebug.Debugger.Types.{
  Breakpoint, BreakpointType, line, conditional, call, return, exception, watch,
}
use xdebug.Debugger.Exclusive.{if-holds}
use xdebug.Debugger.Exclusive.Reached.{case-holds}
use xdebug.Debugger.Registry.{
  Registry, BreakpointAdmin, matches_key, fetch_line, fetch_hash, breakpoint_brk_info_fetch,
  remove_line, remove_lines, remove_function, breakpoint_remove, breakpoint_admin_remove,
}
use xdebug.Debugger.Breakpoints.{}
use xdebug.Debugger.Breakpoints.Action.{
  Action, get, remove, update, assign_line, assign_hash, assign_info, finish_action,
}

-- A property of the breakpoints that are in the lists, when `n` were set.
pub record Holds (P : Breakpoint → Type 0) (n : ℕ) (r : Registry) : Type 0 where
  pub counted : r.breakpoint_count ≡ n
  pub lines : All P r.line_breakpoints
  pub stored : All P r.store

-- what holds of an object if there is one
abbrev pub Maybe : (Breakpoint → Type 0) → Option Breakpoint → Type 0
Maybe P none = Unit {0}
Maybe P (some brk) = P brk

abbrev pub IfDone : (Breakpoint → Type 0) → ℕ → Option (Registry × Node) → Type 0
IfDone P n none = Unit {0}
IfDone P n (some (r, reply)) = Holds P n r

module _ (P : Breakpoint → Type 0) (n : ℕ) where
  fetch_line-Holds :
      (parts : List Bytes) (found : Option Breakpoint) (brks : List Breakpoint)
      → Maybe P found
      → All P brks
      → Maybe P (fetch_line parts found brks)
  unfolding fetch_line
  fetch_line-Holds parts found [] f h = f
  fetch_line-Holds parts found (brk ∷ brks) f (h, hs) =
      if-holds (Maybe P) (matches_key parts brk) _ _ h (fetch_line-Holds parts (some brk) brks h hs)

  get_elem-Holds : (l : List Breakpoint) (i : ℕ) → All P l → Maybe P (get_elem? l i)
  get_elem-Holds [] i h = tt
  get_elem-Holds (brk ∷ l) zero (h, hs) = h
  get_elem-Holds (brk ∷ l) (suc i) (h, hs) = get_elem-Holds l i hs

  set-Holds :
      (l : List Breakpoint) (i : ℕ) (brk : Breakpoint) → All P l → P brk → All P (set l i brk)
  set-Holds [] i brk h p = tt
  set-Holds (b ∷ l) zero brk (h, hs) p = (p, hs)
  set-Holds (b ∷ l) (suc i) brk (h, hs) p = (h, set-Holds l i brk hs p)

  assign_line-Holds :
      (parts : List Bytes) (brks : List Breakpoint) (brk' : Breakpoint)
      → All P brks
      → P brk'
      → All P (assign_line parts brks brk')
  unfolding assign_line
  assign_line-Holds parts [] brk' h p = tt
  assign_line-Holds parts (brk ∷ []) brk' h p = (p, tt)
  assign_line-Holds parts (brk ∷ next ∷ brks) brk' (h, hs) p =
      if-holds (All P) (matches_key parts brk) _ _ (p, hs)
        (h, assign_line-Holds parts (next ∷ brks) brk' hs p)

  remove_line-Holds :
      (parts : List Bytes) (brks : List Breakpoint) → All P brks → All P (remove_line parts brks).0
  unfolding remove_line
  remove_line-Holds parts [] h = tt
  remove_line-Holds parts (brk ∷ brks) (h, hs) =
      if-holds (λ (x : List Breakpoint × Bool). All P x.0) (matches_key parts brk) _ _ hs
        (h, remove_line-Holds parts brks hs)

  fetch_hash-Holds :
      (store : List Breakpoint) (hash : Hash ℕ) (key : Bytes)
      → All P store
      → Maybe P (fetch_hash store hash key)
  unfolding fetch_hash
  fetch_hash-Holds store hash key h =
      case-holds (Maybe P) (Hash.find hash (str key)) _ _ tt (λ i. get_elem-Holds store i h)

  pub fetch-Holds :
      (r : Registry) (type : BreakpointType) (key : Bytes)
      → Holds P n r
      → Maybe P (breakpoint_brk_info_fetch r type key)
  unfolding breakpoint_brk_info_fetch
  fetch-Holds r line key h = fetch_line-Holds _ none r.line_breakpoints tt h.lines
  fetch-Holds r conditional key h = fetch_line-Holds _ none r.line_breakpoints tt h.lines
  fetch-Holds r call key h = fetch_hash-Holds r.store _ key h.stored
  fetch-Holds r return key h = fetch_hash-Holds r.store _ key h.stored
  fetch-Holds r exception key h = fetch_hash-Holds r.store _ key h.stored
  fetch-Holds r watch key h = tt

  assign_hash-Holds :
      (r : Registry) (hash : Hash ℕ) (key : Bytes) (brk : Breakpoint)
      → Holds P n r
      → P brk
      → Holds P n (assign_hash r hash key brk)
  unfolding assign_hash
  assign_hash-Holds r hash key brk h p =
      case-holds (Holds P n) (Hash.find hash (str key)) _ _ h (λ i. record {
        counted = h.counted;
        lines = h.lines;
        stored = set-Holds r.store i brk h.stored p;
      })

  pub assign_info-Holds :
      (r : Registry) (type : BreakpointType) (key : Bytes) (brk : Breakpoint)
      → Holds P n r
      → P brk
      → Holds P n (assign_info r type key brk)
  unfolding assign_info
  assign_info-Holds r line key brk h p = record {
    counted = h.counted;
    lines = assign_line-Holds _ r.line_breakpoints brk h.lines p;
    stored = h.stored;
  }
  assign_info-Holds r conditional key brk h p = record {
    counted = h.counted;
    lines = assign_line-Holds _ r.line_breakpoints brk h.lines p;
    stored = h.stored;
  }
  assign_info-Holds r call key brk h p = assign_hash-Holds r _ key brk h p
  assign_info-Holds r return key brk h p = assign_hash-Holds r _ key brk h p
  assign_info-Holds r exception key brk h p = assign_hash-Holds r _ key brk h p
  assign_info-Holds r watch key brk h p = h

  remove-Holds :
      (r : Registry) (type : BreakpointType) (key : Bytes)
      → Holds P n r
      → Holds P n (breakpoint_remove r type key).0
  unfolding breakpoint_remove remove_lines remove_function
  remove-Holds r line key h = record {
    counted = h.counted;
    lines = remove_line-Holds _ r.line_breakpoints h.lines;
    stored = h.stored;
  }
  remove-Holds r conditional key h = record {
    counted = h.counted;
    lines = remove_line-Holds _ r.line_breakpoints h.lines;
    stored = h.stored;
  }
  remove-Holds r call key h = record { counted = h.counted; lines = h.lines; stored = h.stored }
  remove-Holds r return key h = record { counted = h.counted; lines = h.lines; stored = h.stored }
  remove-Holds r exception key h = record {
    counted = h.counted;
    lines = h.lines;
    stored = h.stored;
  }
  remove-Holds r watch key h = h

  pub finish_action-Holds :
      (action : Action) (r : Registry) (admin : BreakpointAdmin) (d : Bytes)
      → Holds P n r
      → Holds P n (finish_action action r admin d)
  unfolding finish_action breakpoint_admin_remove
  finish_action-Holds get r admin d h = h
  finish_action-Holds update r admin d h = h
  finish_action-Holds remove r admin d h =
      let removed = remove-Holds r admin.type admin.key h in
      record { counted = removed.counted; lines = removed.lines; stored = removed.stored }
