-- ===== src/Arg.antt =====
-- src/lib/arg.c: a string is split at a delimiter and joined again. The delimiter is not empty.
pub mod RoundTrip
use xdebug.Prelude.{
  ℕ, zero, suc, ◌+◌, ◌-◌, Bool, true, false, ◌&&◌, ◌||◌, Option, none, some, List, [], ◌∷◌, ◌++◌,
  Bytes, ltb, ◌==◌, if◌then◌else◌, length, take, drop, get_or, get_elem?, equal,
}
use xdebug.Prelude.Int.{ℤ, pos, negsuc, pos_part, ◌-ℤ◌, ltb_ℤ, eqb_ℤ}

-- xdebug_memnstr: the offset of the first occurrence of the needle, in what is left up to `end`
unfoldable pub memnstr : Bytes → Bytes → Option ℕ
memnstr [] needle = none
memnstr (c ∷ s) needle =
    let rest : Option ℕ = memnstr s needle in
    if ltb (length (c ∷ s)) (length needle)
    then none
    else if c == get_or needle 0 0 && equal (take (length needle) (c ∷ s)) needle
    then some 0
    else elim rest [ none ↦ none | some i ↦ some (suc i) ]

-- `limit == -1 || --limit > 1`, and what it leaves in `limit`
abbrev pub goes_on : ℤ → Bool
goes_on limit = eqb_ℤ limit (negsuc 0) || ltb_ℤ (pos 1) (limit -ℤ pos 1)

abbrev pub next_limit : ℤ → ℤ
next_limit limit = if eqb_ℤ limit (negsuc 0) then limit else limit -ℤ pos 1

-- the do-while loop, with `p2` at an offset from `p1`, and the rest behind it
unfoldable pub pieces : ℕ → Bytes → Bytes → ℕ → ℤ → List Bytes
pieces zero delim p1 p2 limit = []
pieces (suc fuel) delim p1 p2 limit =
    take p2 p1 ∷ elim (memnstr (drop (p2 + length delim) p1) delim) [
      | none ↦ drop (p2 + length delim) p1 ∷ []
      | some next ↦ elim (goes_on limit) [
        | true ↦ pieces fuel delim (drop (p2 + length delim) p1) next (next_limit limit)
        | false ↦ drop (p2 + length delim) p1 ∷ []
      ]
    ]

-- xdebug_explode, as the arguments that it appends
unfoldable pub explode : Bytes → Bytes → ℤ → List Bytes
explode delim str limit = elim (memnstr str delim) [
  | none ↦ str ∷ []
  | some p2 ↦ pieces (length str) delim str p2 limit
]

-- the loop of xdebug_join, over the arguments from `begin` on
unfoldable pub join_loop : Bytes → ℕ → List Bytes → Bytes
join_loop delim zero args = []
join_loop delim (suc n) [] = []
join_loop delim (suc n) (a ∷ args) = a ++ delim ++ join_loop delim n args

-- `end`, at most `args->c - 1`
abbrev pub last_arg : ℤ → ℕ → ℤ
last_arg end c = if ltb_ℤ (pos c -ℤ pos 1) end then pos c -ℤ pos 1 else end

-- xdebug_join; `none` is a read of `args->args[end]` outside of the arguments
unfoldable pub join : Bytes → List Bytes → ℤ → ℤ → Option Bytes
join delim args begin end = elim (last_arg end (length args)) [
  | negsuc n ↦ none
  | pos e ↦ elim (get_elem? args e) [
    | none ↦ none
    | some last ↦ some (join_loop delim (e - pos_part begin) (drop (pos_part begin) args) ++ last)
  ]
]
