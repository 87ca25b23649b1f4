-- ===== src/Maps/Ranges/Search.antt =====
-- The binary search agrees with the search from front to back.
use xdebug.Prelude.{
  ℕ, zero, suc, ◌+◌, ◌-◌, ◌≤◌, ◌<◌, ◌≡◌, refl, Option, none, some, List, sym, ap, [], ◌∷◌, ◌⊎◌, inl,
  inr, arith, get_elem?, length, ltb, Bool-cases, Option-cases, Bytes,
}
use xdebug.Prelude.Int.{to_size}
use xdebug.Maps.Types.{Range}
use xdebug.Maps.Ranges.{
  Span, forward, reverse, match_line, hit, miss, middle, do_binary_search, find_local_line,
  find_remote_line,
}
use xdebug.Maps.Ranges.Order.{IsOrdered, first_match, match_line-none, match_line_outside}

get_elem?-length {ℓ} :
    {A : Type ℓ} (xs : List A) (i : ℕ) → i < length xs → (x : A) × (get_elem? xs i ≡ some x)
get_elem?-length [] i h = elim h [ ]
get_elem?-length (x ∷ xs) zero h = (x, refl)
get_elem?-length (x ∷ xs) (suc i) h = get_elem?-length xs i (omega arith)

get_elem?-none {ℓ} : {A : Type ℓ} (xs : List A) (i : ℕ) → length xs ≤ i → get_elem? xs i ≡ none
get_elem?-none [] i h = refl
get_elem?-none (x ∷ xs) zero h = elim h [ ]
get_elem?-none (x ∷ xs) (suc i) h = get_elem?-none xs i (omega arith)

module _ (view : Range → Span) where
  abbrev begin : Range → ℕ
  begin r = to_size (view r).begin

  abbrev end : Range → ℕ
  end r = to_size (view r).end

  -- A range at an index is non-empty and starts at or behind the bound.
  IsOrdered-get_elem? :
      (lo : ℕ) (rs : List Range) (i : ℕ) (r : Range)
      → IsOrdered view lo rs
      → get_elem? rs i ≡ some r
      → (lo ≤ begin r) × (begin r ≤ end r)
  IsOrdered-get_elem? lo (x ∷ rs) zero r h e = ground arith
  IsOrdered-get_elem? lo [] i r h e = ground arith
  IsOrdered-get_elem? lo (x ∷ rs) (suc i) r h e =
      ground (arith, IsOrdered-get_elem? (suc (end x)) rs i r h.2 e)

  IsOrdered-lt :
      (lo : ℕ) (rs : List Range) (i j : ℕ) (r s : Range)
      → IsOrdered view lo rs
      → i < j
      → get_elem? rs i ≡ some r
      → get_elem? rs j ≡ some s
      → end r < begin s
  IsOrdered-lt lo [] i j r s h lt e f = ground arith
  IsOrdered-lt lo (x ∷ rs) zero (suc j) r s h lt e f =
      ground (arith, IsOrdered-get_elem? (suc (end x)) rs j s h.2 f)
  IsOrdered-lt lo (x ∷ rs) (suc i) (suc j) r s h lt e f =
      IsOrdered-lt (suc (end x)) rs i j r s h.2 (omega arith) e f
  IsOrdered-lt lo (x ∷ rs) i zero r s h lt e f = elim lt [ ]

  -- The line lies outside of the range.
  abbrev Outside : ℕ → Range → Type 0
  Outside line r = (line < begin r) ⊎ (end r < line)

  first_match-miss :
      (lo : ℕ) (rs : List Range) (line : ℕ)
      → IsOrdered view lo rs
      → ((i : ℕ) (r : Range) → get_elem? rs i ≡ some r → Outside line r)
      → first_match view rs line ≡ miss
  first_match-miss lo [] line h out = refl
  first_match-miss lo (x ∷ rs) line h out =
      rw (match_line_outside (view x) line h.1 (out 0 x refl), first_match)
        (first_match-miss (suc (end x)) rs line h.2 (λ i r e. out (suc i) r e))

  first_match-hit :
      (lo : ℕ) (rs : List Range) (line i : ℕ) (r : Range) (path : Option Bytes) (to_line : ℕ)
      → IsOrdered view lo rs
      → get_elem? rs i ≡ some r
      → match_line (view r) line ≡ some (path, to_line)
      → begin r ≤ line
      → first_match view rs line ≡ hit path to_line
  first_match-hit lo [] line i r path to_line h e m le = ground arith
  first_match-hit lo (x ∷ rs) line zero r path to_line h e m le = ground arith
  first_match-hit lo (x ∷ rs) line (suc i) r path to_line h e m le =
      let gap = IsOrdered-lt lo (x ∷ rs) 0 (suc i) x r h (omega arith) refl e in
      rw (match_line_outside (view x) line h.1 (inr (omega arith)), first_match)
        (first_match-hit (suc (end x)) rs line i r path to_line h.2 e m le)

  match_line-some :
      (r : Range) (line : ℕ) (answer : Option Bytes × ℕ)
      → begin r ≤ end r
      → match_line (view r) line ≡ some answer
      → (begin r ≤ line) × (line ≤ end r)
  match_line-some r line answer h e = elim (Bool-cases (ltb line (begin r))) [
    | inl before ↦ cc (match_line_outside (view r) line h (inl (ground arith)))
    | inr behind ↦ elim (Bool-cases (ltb (end r) line)) [
      | inl after ↦ cc (match_line_outside (view r) line h (inr (ground arith)))
      | inr within ↦ ground arith
    ]
  ]

  module _ (rs : List Range) (lo line : ℕ) (ordered : IsOrdered view lo rs) where
    -- All ranges before `low` end before the line, and all from `past` begin behind it.
    abbrev Narrowed : ℕ → ℕ → Type 0
    Narrowed low past =
        ((i : ℕ) (r : Range) → i < low → get_elem? rs i ≡ some r → end r < line)
        × ((i : ℕ) (r : Range) → past ≤ i → get_elem? rs i ≡ some r → line < begin r)

    Narrowed-left :
        (low past mid : ℕ) (r : Range)
        → get_elem? rs mid ≡ some r
        → line < begin r
        → Narrowed low past
        → Narrowed low mid
    Narrowed-left low past mid r e lt n = (
      n.0,
      λ i s le f. elim (Bool-cases (ltb mid i)) [
        | inl more ↦ omega (
          arith,
          IsOrdered-lt lo rs mid i r s ordered (ground arith) e f,
          IsOrdered-get_elem? lo rs mid r ordered e,
        )
        | inr same ↦ let m : i ≡ mid = ground arith in ground (arith, ap (get_elem? rs) m)
      ],
    )

    Narrowed-right :
        (low past mid : ℕ) (r : Range)
        → get_elem? rs mid ≡ some r
        → end r < line
        → Narrowed low past
        → Narrowed (mid + 1) past
    Narrowed-right low past mid r e lt n = (
      λ i s le f. elim (Bool-cases (ltb i mid)) [
        | inl less ↦ omega (
          arith,
          IsOrdered-lt lo rs i mid s r ordered (ground arith) f e,
          IsOrdered-get_elem? lo rs mid r ordered e,
        )
        | inr same ↦ let m : i ≡ mid = ground arith in ground (arith, ap (get_elem? rs) m)
      ],
      n.1,
    )

    Narrowed-first_match-miss :
        (low past : ℕ) → past ≤ low → Narrowed low past → first_match view rs line ≡ miss
    Narrowed-first_match-miss low past le n = first_match-miss lo rs line ordered (λ i r e.
        elim (Bool-cases (ltb i low)) [
          | inl less ↦ inr (n.0 i r (ground arith) e)
          | inr more ↦ inl (n.1 i r (ground arith) e)
        ])

    do_binary_search-first_match :
        (fuel low past : ℕ)
        → past ≤ length rs
        → past - low < fuel
        → Narrowed low past
        → do_binary_search view fuel rs low past line ≡ first_match view rs line
    unfolding do_binary_search
    do_binary_search-first_match zero low past le f n = absurd (omega arith)
    do_binary_search-first_match (suc fuel) low past le f n = elim (Bool-cases (ltb low past)) [
      | inr stop ↦
          rw (stop, do_binary_search) (sym (Narrowed-first_match-miss low past (ground arith) n))
      | inl go ↦
          let mid : ℕ = middle low past in
          let lt : low < past = ground arith in
          let (r, e) = get_elem?-length rs (middle low past) (omega arith) in
          rw (go, do_binary_search, e)
            (elim (Option-cases (match_line (view r) line)) [
              | inr (answer, m) ↦ rw m (
                  sym (
                    first_match-hit lo rs line (middle low past) r answer.0 answer.1 ordered e m
                      (match_line-some r line answer
                        (IsOrdered-get_elem? lo rs (middle low past) r ordered e).1 m).0))
              | inl m ↦
                  let apart =
                    match_line-none (view r) line
                      (IsOrdered-get_elem? lo rs (middle low past) r ordered e).1 m in
                  elim (Bool-cases (ltb line (begin r))) [
                    | inl before ↦
                        rw (m, before)
                          (do_binary_search-first_match fuel low (middle low past) (omega arith)
                            (omega arith) (Narrowed-left low past _ r e (ground arith) n))
                    | inr behind ↦
                        rw (m, behind)
                          (do_binary_search-first_match fuel (middle low past + 1) past le
                            (omega arith) (Narrowed-right low past _ r e (ground arith) n))
                  ]
            ])
    ]

-- The local line of a remote line is that of the first range, from the front, that holds it, and
-- there is none if no range does. The ranges must be in increasing order and apart by their remote
-- lines.
pub find_local_line-first_match :
    (rs : List Range) (line : ℕ)
    → IsOrdered forward 0 rs
    → find_local_line line rs ≡ first_match forward rs line
unfolding find_local_line
find_local_line-first_match rs line h =
    do_binary_search-first_match forward rs 0 line h (length rs + 1) 0 (length rs) (omega arith)
      (omega arith) ((λ i r lt e. absurd (omega arith)), λ i r le e. cc (get_elem?-none rs i le))

-- The remote line of a local line is that of the first range, from the front, that holds it, and
-- there is none if no range does. The ranges must be in increasing order and apart by their local
-- lines.
pub find_remote_line-first_match :
    (rs : List Range) (line : ℕ)
    → IsOrdered reverse 0 rs
    → find_remote_line line rs ≡ first_match reverse rs line
unfolding find_remote_line
find_remote_line-first_match rs line h =
    do_binary_search-first_match reverse rs 0 line h (length rs + 1) 0 (length rs) (omega arith)
      (omega arith) ((λ i r lt e. absurd (omega arith)), λ i r le e. cc (get_elem?-none rs i le))
