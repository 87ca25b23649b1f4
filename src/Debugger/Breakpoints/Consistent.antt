-- ===== src/Debugger/Breakpoints/Consistent.antt =====
-- The ids that breakpoint_set gives out, and what becomes of them.
use xdebug.Prelude.{
  ℕ, suc, ◌+◌, ◌*◌, ◌%◌, ◌^◌, ◌<◌, ◌≤◌, ◌≡◌, refl, sym, ap, ◌∙◌, false, Option, none, some, List,
  inl, inr, Bytes, equal, equal_iff, equal_refl, Bool-cases, if◌then◌else◌, arith,
}
use xdebug.Prelude.Decimal.{decimal}
use xdebug.Strtol.{strtol}
use xdebug.Strtol.Decimals.{strtol-decimal}
use xdebug.Hash.{Hash, str, key_compare, key_compare_iff}
use xdebug.Hash.Valid.{IsValid, add_or_update-IsValid}
use xdebug.Hash.Laws.{find-add_or_update}
use xdebug.Debugger.Types.{Breakpoint, BreakpointType}
use xdebug.Debugger.Registry.{
  Registry, BreakpointAdmin, breakpoint_admin_add, breakpoint_admin_fetch,
}

-- the first id of a process
abbrev pub base : ℕ → ℕ
base pid = pid % 2 ^ 17 * 10000

-- The table of ids is a valid table; each entry stands under its own id, which is one of those that
-- were given out.
pub record IsConsistent (pid : ℕ) (r : Registry) : Type 0 where
  pub valid : IsValid r.breakpoint_list
  pub own :
      (k : Bytes) (a : BreakpointAdmin) → breakpoint_admin_fetch r k ≡ some a → k ≡ decimal a.id
  pub given :
      (k : Bytes) (a : BreakpointAdmin)
      → breakpoint_admin_fetch r k ≡ some a
      → a.id ≤ base pid + r.breakpoint_count

-- Two numbers that are printed alike are one number.
decimal-injective : (m n : ℕ) → m < 2 ^ 63 → n < 2 ^ 63 → decimal m ≡ decimal n → m ≡ n
decimal-injective m n hm hn e =
    ground (arith, sym (strtol-decimal m hm) ∙ ap (λ s. strtol s 10) e ∙ strtol-decimal n hn)

-- The ids of a process stay below 2 ^ 31, so that they fit an int.
abbrev pub Bounded : ℕ → Registry → Type 0
Bounded pid r = base pid + suc r.breakpoint_count < 2 ^ 31

-- the next id, as an int has it
abbrev pub next_id : ℕ → Registry → ℕ
next_id pid r = (base pid + suc r.breakpoint_count) % 2 ^ 32

pub next_id-small :
    (pid : ℕ) (r : Registry) → Bounded pid r → next_id pid r ≡ base pid + suc r.breakpoint_count
next_id-small pid r b = omega (arith, b)

next_id-le : (pid : ℕ) (r : Registry) → next_id pid r ≤ base pid + suc r.breakpoint_count
next_id-le pid r = omega arith

-- the entry that breakpoint_admin_add makes
abbrev pub new_entry : ℕ → Registry → BreakpointType → Bytes → BreakpointAdmin
new_entry pid r type key = record { id = next_id pid r; type = type; key = key }

-- The new entry is found under its id, and every other id finds what it found before.
pub record Registers (pid : ℕ) (r r' : Registry) (a : BreakpointAdmin) : Type 0 where
  pub next_id : a.id ≡ base pid + suc r.breakpoint_count
  pub counted : r'.breakpoint_count ≡ suc r.breakpoint_count
  pub fresh : breakpoint_admin_fetch r (decimal a.id) ≡ none
  pub found : breakpoint_admin_fetch r' (decimal a.id) ≡ some a
  pub others :
      (k : Bytes)
      → equal k (decimal a.id) ≡ false
      → breakpoint_admin_fetch r' k ≡ breakpoint_admin_fetch r k

same_key : (a b : Bytes) → key_compare (str a) (str b) ≡ equal a b
same_key a b = ground (arith, key_compare_iff (str a) (str b), equal_iff a b)

fetch-add :
    (pid : ℕ) (r : Registry) (type : BreakpointType) (key k : Bytes)
    → IsConsistent pid r
    → breakpoint_admin_fetch (breakpoint_admin_add pid r type key).0 k ≡ (
        if equal k (decimal (next_id pid r))
        then some (new_entry pid r type key)
        else breakpoint_admin_fetch r k)
unfolding breakpoint_admin_fetch breakpoint_admin_add
fetch-add pid r type key k c = rw (← same_key k (decimal (next_id pid r))) (
    find-add_or_update r.breakpoint_list c.valid.shape c.valid.full (str (decimal (next_id pid r)))
      (str k) (new_entry pid r type key))

-- No entry stands under the next id.
next-fresh :
    (pid : ℕ) (r : Registry)
    → IsConsistent pid r
    → Bounded pid r
    → (found : Option BreakpointAdmin) → breakpoint_admin_fetch r (decimal (next_id pid r)) ≡ found
    → found ≡ none
next-fresh pid r c b none e = refl
next-fresh pid r c b (some a) e =
    let small = next_id-small pid r b in
    let own = c.own (decimal (next_id pid r)) a e in
    let given = c.given (decimal (next_id pid r)) a e in
    let same =
      decimal-injective (next_id pid r) a.id (omega (arith, small, b)) (omega (arith, given, b))
        own in
    absurd (omega (arith, given, same, small))

pub admin_add-Registers :
    (pid : ℕ) (r : Registry) (type : BreakpointType) (key : Bytes)
    → IsConsistent pid r
    → Bounded pid r
    → Registers pid r (breakpoint_admin_add pid r type key).0 (new_entry pid r type key)
admin_add-Registers pid r type key c b = record {
  next_id = next_id-small pid r b;
  counted = unfold breakpoint_admin_add in refl;
  fresh = next-fresh pid r c b _ refl;
  found =
      fetch-add pid r type key (decimal (next_id pid r)) c
      ∙ rw (equal_refl (decimal (next_id pid r)));
  others = λ k ne. fetch-add pid r type key k c ∙ rw ne;
}

admin_add-own :
    (pid : ℕ) (r : Registry) (type : BreakpointType) (key k : Bytes) (a : BreakpointAdmin)
    → IsConsistent pid r
    → breakpoint_admin_fetch (breakpoint_admin_add pid r type key).0 k ≡ some a
    → (k ≡ decimal a.id) × (a.id ≤ base pid + suc r.breakpoint_count)
admin_add-own pid r type key k a c e = elim (Bool-cases (equal k (decimal (next_id pid r)))) [
  | inl same ↦
      let new : new_entry pid r type key ≡ a = ground (arith, fetch-add pid r type key k c, e) in
      let id : next_id pid r ≡ a.id = ap (λ (x : BreakpointAdmin). x.id) new in
      ((equal_iff k _).0 same ∙ ap decimal id, omega (arith, id, next_id-le pid r))
  | inr other ↦
      let old : breakpoint_admin_fetch r k ≡ some a =
        ground (arith, fetch-add pid r type key k c, e) in
      (c.own k a old, omega (arith, c.given k a old))
]

pub admin_add-IsConsistent :
    (pid : ℕ) (r : Registry) (type : BreakpointType) (key : Bytes)
    → IsConsistent pid r
    → IsConsistent pid (breakpoint_admin_add pid r type key).0
admin_add-IsConsistent pid r type key c = record {
  valid = unfold breakpoint_admin_add in add_or_update-IsValid r.breakpoint_list c.valid _ _;
  own = λ k a e. (admin_add-own pid r type key k a c e).0;
  given = λ k a e. unfold breakpoint_admin_add in (admin_add-own pid r type key k a c e).1;
}

-- The other lists of the registry do not matter.
module _ (pid : ℕ) (l : List Breakpoint) (f e : Hash ℕ) (store : List Breakpoint) where
  abbrev pub relist : Registry → Registry
  relist r = record r {
    line_breakpoints = l;
    function_breakpoints = f;
    exception_breakpoints = e;
    store = store;
  }

  pub relist-IsConsistent : (r : Registry) → IsConsistent pid r → IsConsistent pid (relist r)
  unfolding breakpoint_admin_fetch
  relist-IsConsistent r c = record { valid = c.valid; own = c.own; given = c.given }

  pub relist-Registers :
      (r r' : Registry) (a : BreakpointAdmin) → Registers pid r r' a → Registers pid r (relist r') a
  unfolding breakpoint_admin_fetch
  relist-Registers r r' a g = record {
    next_id = g.next_id;
    counted = g.counted;
    fresh = g.fresh;
    found = g.found;
    others = g.others;
  }

  pub relisted-Registers :
      (r r' : Registry) (a : BreakpointAdmin) → Registers pid (relist r) r' a → Registers pid r r' a
  unfolding breakpoint_admin_fetch
  relisted-Registers r r' a g = record {
    next_id = g.next_id;
    counted = g.counted;
    fresh = g.fresh;
    found = g.found;
    others = g.others;
  }
