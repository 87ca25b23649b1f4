-- ===== src/Maps/Parser/Ordered.antt =====
-- The order of a mapping's line ranges, which the binary search relies on, as state_add_rule keeps it.
use mathlib.Core.Path.{subst}
use xdebug.Prelude.{
  ℕ, suc, ◌≤◌, ◌<◌, ◌≡◌, false, ◌&&◌, not, some, List, [], ◌∷◌, ◌++◌, last?, All, inl, inr,
  Option-cases, Bool-cases, if◌then◌else◌, arith,
}
use xdebug.Prelude.Int.{ℤ, pos, leb_ℤ, to_size, size_max}
use xdebug.Maps.Types.{Range, PathMapping, lines, kind_eq}
use xdebug.Maps.Ranges.{forward}
use xdebug.Maps.Ranges.Order.{IsOrdered}
use xdebug.Maps.Parser.State.{
  Result, ok, fail, wrong_range, ◌>>=◌, Holds, guard-Holds, bind-Holds_of,
}
use xdebug.Maps.Parser.Elements.{Element}
use xdebug.Maps.Parser.Rule.{new_range, same_path, check_tail, extend_rule}

-- Two line numbers that are not negative, in order.
pub record IsSpan (begin end : ℤ) : Type 0 where
  pub first : ℕ
  pub last : ℕ
  pub begins : begin ≡ pos first
  pub ends : end ≡ pos last
  pub upward : first ≤ last
  pub small : last < size_max

abbrev pub IsRemoteSpan : Range → Type 0
IsRemoteSpan r = IsSpan r.remote_begin r.remote_end

last?-All : (P : Range → Type 0) (rs : List Range) (t : Range) → All P rs → last? rs ≡ some t → P t
last?-All P [] t h e = cc
last?-All P (r ∷ []) t h e = let same : r ≡ t = cc in subst P same h.0
last?-All P (r ∷ s ∷ rs) t h e = last?-All P (s ∷ rs) t h.1 e

-- one more range behind the last one
IsOrdered-snoc :
    (rs : List Range) (t x : Range) (lo : ℕ)
    → IsOrdered forward lo rs
    → last? rs ≡ some t
    → to_size t.remote_end < to_size x.remote_begin
    → to_size x.remote_begin ≤ to_size x.remote_end
    → IsOrdered forward lo (rs ++ (x ∷ []))
IsOrdered-snoc [] t x lo h e lt up = cc
IsOrdered-snoc (r ∷ []) t x lo h e lt up =
    let same : t ≡ r = cc in
    (h.0, h.1, (subst (λ t. to_size t.remote_end < to_size x.remote_begin) same lt, up, tt))
IsOrdered-snoc (r ∷ s ∷ rs) t x lo h e lt up =
    (h.0, h.1, IsOrdered-snoc (s ∷ rs) t x (suc (to_size r.remote_end)) h.2 e lt up)

to_size-small : (n : ℕ) → n < size_max → to_size (pos n) ≡ n
unfolding to_size
to_size-small n h = omega arith

to_size-lt : (a b c d : ℤ) → IsSpan a b → IsSpan c d → leb_ℤ c b ≡ false → to_size b < to_size c
to_size-lt a b c d s t h =
    let behind : leb_ℤ (pos t.first) (pos s.last) ≡ false =
      subst (λ x. leb_ℤ x (pos s.last) ≡ false) t.begins
        (subst (λ x. leb_ℤ c x ≡ false) s.ends h) in
    let small : t.first < size_max = omega (arith, t.upward, t.small) in
    rw (s.ends, t.begins, to_size-small s.last s.small, to_size-small t.first small)
      (ground (arith, behind))

to_size-le : (a b : ℤ) → IsSpan a b → to_size a ≤ to_size b
to_size-le a b s =
    let small : s.first < size_max = omega (arith, s.upward, s.small) in
    rw (s.ends, s.begins, to_size-small s.last s.small, to_size-small s.first small) s.upward

check_tail-behind :
    (tail : Range) (remote local : Element)
    → local.type.skip ≡ false
    → Holds (λ _. leb_ℤ remote.begin tail.remote_end ≡ false) (check_tail tail remote local)
unfolding check_tail
check_tail-behind tail remote local plain =
    let skip = local.type.skip in
    let P : Unit {0} → Type 0 = λ _. leb_ℤ remote.begin tail.remote_end ≡ false in
    let third : Result (Unit {0}) =
      if not skip && leb_ℤ local.begin tail.local_end then fail wrong_range else ok tt in
    let second : Result (Unit {0}) =
      if not skip && leb_ℤ remote.begin tail.remote_end then fail wrong_range else third in
    guard-Holds P (not skip && not tail.local_skip && not (same_path tail.local_path local.path))
      wrong_range second
      λ _. guard-Holds P (not skip && leb_ℤ remote.begin tail.remote_end) wrong_range third λ h.
        guard-Holds P (not skip && leb_ℤ local.begin tail.local_end) wrong_range (ok tt)
          λ _. ground (arith, plain, h)

-- what a further range makes of an ordered mapping
extended-IsOrdered :
    (rule : PathMapping) (remote local : Element) (tail : Range)
    → IsOrdered forward 0 rule.line_ranges
    → All IsRemoteSpan rule.line_ranges
    → IsSpan remote.begin remote.end
    → last? rule.line_ranges ≡ some tail
    → leb_ℤ remote.begin tail.remote_end ≡ false
    → IsOrdered forward 0 (rule.line_ranges ++ (new_range remote local ∷ []))
extended-IsOrdered rule remote local tail order spans span e behind =
    let last = last?-All IsRemoteSpan rule.line_ranges tail spans e in
    IsOrdered-snoc rule.line_ranges tail (new_range remote local) 0 order e
      (to_size-lt tail.remote_begin tail.remote_end remote.begin remote.end last span behind)
      (to_size-le remote.begin remote.end span)

All-snoc :
    (P : Range → Type 0) (rs : List Range) (x : Range) → All P rs → P x → All P (rs ++ (x ∷ []))
All-snoc P [] x h p = (p, tt)
All-snoc P (r ∷ rs) x h p = (h.0, All-snoc P rs x h.1 p)

-- what the binary search of a mapping's ranges relies on
abbrev pub IsSearchable : PathMapping → Type 0
IsSearchable rule = IsOrdered forward 0 rule.line_ranges × All IsRemoteSpan rule.line_ranges

-- the outcome of extend_rule with the tail found
extend_tail : PathMapping → Element → Element → Range → Result PathMapping
extend_tail rule remote local tail = check_tail tail remote local >>= λ _.
    ok (record rule { line_ranges = rule.line_ranges ++ new_range remote local ∷ [] })

module _ (rule : PathMapping) (remote local : Element) (before : IsSearchable rule)
    (span : IsSpan remote.begin remote.end) (plain : local.type.skip ≡ false) where
  extend_tail-IsSearchable :
      (tail : Range)
      → last? rule.line_ranges ≡ some tail
      → Holds IsSearchable (extend_tail rule remote local tail)
  unfolding extend_tail
  extend_tail-IsSearchable tail e =
      let longer = record rule { line_ranges = rule.line_ranges ++ new_range remote local ∷ [] } in
      bind-Holds_of (λ _. leb_ℤ remote.begin tail.remote_end ≡ false) IsSearchable
        (check_tail tail remote local) (λ _. ok longer) (check_tail-behind tail remote local plain)
        λ _ behind. (
          extended-IsOrdered rule remote local tail before.0 before.1 span e behind,
          All-snoc IsRemoteSpan rule.line_ranges (new_range remote local) before.1 span,
        )

  extend_rule-Holds : Holds IsSearchable (extend_rule rule remote local)
  unfolding extend_rule
  extend_rule-Holds = elim (Bool-cases (not (kind_eq rule.type.kind lines && not rule.type.skip))) [
    | inl mixed ↦ rw (mixed, extend_rule) tt
    | inr ranges ↦ elim (Option-cases (last? rule.line_ranges)) [
      | inl e ↦ rw (ranges, extend_rule, e, extend_rule) tt
      | inr (tail, e) ↦
          rw (ranges, extend_rule, e, extend_rule)
            (unfold extend_tail in extend_tail-IsSearchable tail e)
    ]
  ]

  -- A range with lines of its own, that is one that is not a SKIP range, that state_add_rule appends
  -- to a mapping keeps the ranges of the mapping in increasing order and apart by their remote
  -- lines: the binary search relies on that.
  -- The remote lines, of the new range and of those before, must be numbers in order that are not
  -- negative.
  pub extend_rule-IsSearchable :
      (rule' : PathMapping) → extend_rule rule remote local ≡ ok rule' → IsSearchable rule'
  extend_rule-IsSearchable rule' e = subst (Holds IsSearchable) e extend_rule-Holds
