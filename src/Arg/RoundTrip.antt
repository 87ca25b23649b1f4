-- ===== src/Arg/RoundTrip.antt =====
-- Joining what was split gives the string back.
use mathlib.Core.Path.{subst}
use xdebug.Prelude.{
  Option, ℕ, zero, suc, ◌+◌, ◌-◌, ◌≤◌, ◌<◌, ◌≡◌, ◌≢◌, refl, sym, ap, ◌∙◌, true, false, none, some,
  List, [], ◌∷◌, ◌++◌, Bytes, ◌==◌, ◌&&◌, length, take, drop, get_or, get_elem?, equal, equal_iff,
  inl, inr, Bool-cases, Option-cases, take-append-drop, append_assoc, arith, length-drop,
}
use xdebug.Prelude.Int.{ℤ, pos, ◌-ℤ◌}
use xdebug.Arg.{memnstr, goes_on, next_limit, pieces, explode, join_loop, last_arg, join}

-- The arguments with the delimiter between them.
unfoldable pub glue : Bytes → List Bytes → Bytes
glue delim [] = []
glue delim (a ∷ []) = a
glue delim (a ∷ b ∷ rest) = a ++ delim ++ glue delim (b ∷ rest)

-- a match at the front
match_front : (s d : Bytes) → equal (take (length d) s) d ≡ true → d ++ drop (length d) s ≡ s
match_front s d h =
    ap (λ x. x ++ drop (length d) s) (sym ((equal_iff (take (length d) s) d).0 h))
    ∙ take-append-drop (length d) s

take_front :
    (s d : Bytes) (i : ℕ)
    → i ≡ 0
    → equal (take (length d) s) d ≡ true
    → take i s ++ d ++ drop (i + length d) s ≡ s
take_front s d i z h =
    let e : 0 + length d ≡ length d = omega arith in rw (z, e) (match_front s d h)

take_later :
    (c : ℕ) (s d : Bytes) (i j : ℕ)
    → i ≡ suc j
    → take j s ++ d ++ drop (j + length d) s ≡ s
    → take i (c ∷ s) ++ d ++ drop (i + length d) (c ∷ s) ≡ c ∷ s
take_later c s d i j n h =
    let e : suc j + length d ≡ suc (j + length d) = omega arith in rw (n, e) (ap (◌∷◌ c) h)

memnstr-some :
    (s d : Bytes) (i : ℕ) → memnstr s d ≡ some i → take i s ++ d ++ drop (i + length d) s ≡ s
unfolding memnstr
memnstr-some [] d i h = cc
memnstr-some (c ∷ s) d i h =
    elim (Bool-cases (c == get_or d 0 0 && equal (take (length d) (c ∷ s)) d)) [
      | inl front ↦ take_front (c ∷ s) d i (ground arith) (ground arith)
      | inr apart ↦ elim (Option-cases (memnstr s d)) [
        | inl e ↦ absurd (ground arith)
        | inr (j, e) ↦ take_later c s d i j (ground arith) (memnstr-some s d j e)
      ]
    ]

length-drop_suc : (s : Bytes) (n i : ℕ) → n ≢ 0 → s ≢ [] → length (drop (i + n) s) < length s
length-drop_suc [] n i ne h = absurd (h refl)
length-drop_suc (c ∷ s) n i ne h = omega (arith, length-drop (i + n) (c ∷ s), ne)

memnstr-ne : (s d : Bytes) (i : ℕ) → memnstr s d ≡ some i → s ≢ []
unfolding memnstr
memnstr-ne [] d i h = cc
memnstr-ne (c ∷ s) d i h = λ e. cc

-- what stands behind a piece
behind : ℕ → Bytes → Bytes → ℤ → List Bytes
behind fuel delim rest limit = elim (memnstr rest delim) [
  | none ↦ rest ∷ []
  | some next ↦ elim (goes_on limit) [
    | true ↦ pieces fuel delim rest next (next_limit limit)
    | false ↦ rest ∷ []
  ]
]

pieces-behind :
    (fuel : ℕ) (delim p1 : Bytes) (p2 : ℕ) (limit : ℤ)
    → pieces (suc fuel) delim p1 p2 limit
      ≡ take p2 p1 ∷ behind fuel delim (drop (p2 + length delim) p1) limit
unfolding pieces behind
pieces-behind fuel delim p1 p2 limit = refl

-- A list of pieces is not empty, and the delimiter between them gives the string.
abbrev Glues : Bytes → List Bytes → Bytes → Type 0
Glues delim parts s = (parts ≢ []) × (glue delim parts ≡ s)

single-Glues : (delim s : Bytes) → Glues delim (s ∷ []) s
unfolding glue
single-Glues delim s = ((λ e. cc), refl)

cons-Glues :
    (delim a s : Bytes) (parts : List Bytes)
    → Glues delim parts s
    → Glues delim (a ∷ parts) (a ++ delim ++ s)
unfolding glue
cons-Glues delim a s [] h = absurd (h.0 refl)
cons-Glues delim a s (b ∷ parts) h = ((λ e. cc), ap (λ x. a ++ delim ++ x) h.1)

behind-Glues :
    (fuel : ℕ) (delim rest : Bytes) (limit : ℤ)
    → ((next : ℕ)
        → memnstr rest delim ≡ some next
        → Glues delim (pieces fuel delim rest next (next_limit limit)) rest)
    → Glues delim (behind fuel delim rest limit) rest
unfolding behind
behind-Glues fuel delim rest limit ih = elim (Option-cases (memnstr rest delim)) [
  | inl e ↦ rw (e, behind) (single-Glues delim rest)
  | inr (next, e) ↦ elim (Bool-cases (goes_on limit)) [
    | inl more ↦ rw (e, behind, more, behind) (ih next e)
    | inr stop ↦ rw (e, behind, stop, behind) (single-Glues delim rest)
  ]
]

pieces-Glues :
    (fuel : ℕ) (delim p1 : Bytes) (p2 : ℕ) (limit : ℤ)
    → length delim ≢ 0
    → length p1 ≤ fuel
    → memnstr p1 delim ≡ some p2
    → Glues delim (pieces fuel delim p1 p2 limit) p1
pieces-Glues zero delim [] p2 limit ne le e = absurd (memnstr-ne [] delim p2 e refl)
pieces-Glues zero delim (c ∷ s) p2 limit ne le e = absurd (omega arith)
pieces-Glues (suc fuel) delim p1 p2 limit ne le e =
    let rest = drop (p2 + length delim) p1 in
    let shorter = length-drop_suc p1 (length delim) p2 ne (memnstr-ne p1 delim p2 e) in
    let glued = cons-Glues delim (take p2 p1) rest (behind fuel delim rest limit) (
      behind-Glues fuel delim rest limit (λ next found.
        pieces-Glues fuel delim rest next (next_limit limit) ne (omega arith) found)) in
    rw (pieces-behind fuel delim p1 p2 limit) (
      subst (Glues delim (take p2 p1 ∷ behind fuel delim rest limit)) (memnstr-some p1 delim p2 e)
        glued)

explode-Glues :
    (delim str : Bytes) (limit : ℤ) → length delim ≢ 0 → Glues delim (explode delim str limit) str
unfolding explode
explode-Glues delim str limit ne = elim (Option-cases (memnstr str delim)) [
  | inl e ↦ rw (e, explode) (single-Glues delim str)
  | inr (p2, e) ↦ rw (e, explode) (pieces-Glues (length str) delim str p2 limit ne (omega arith) e)
]

-- the arguments up to the `n`th, joined
join_at : Bytes → ℕ → List Bytes → Option Bytes
join_at delim n args = elim (get_elem? args n) [
  | none ↦ none
  | some last ↦ some (join_loop delim n args ++ last)
]

join_at-suc :
    (delim a joined : Bytes) (n : ℕ) (args : List Bytes)
    → join_at delim n args ≡ some joined
    → join_at delim (suc n) (a ∷ args) ≡ some (a ++ delim ++ joined)
unfolding join_at join_loop
join_at-suc delim a joined n args h = elim (Option-cases (get_elem? args n)) [
  | inl e ↦ absurd (ground arith)
  | inr (last, e) ↦
      let same : join_loop delim n args ++ last ≡ joined = ground arith in
      rw (e, join_at, ← same, append_assoc, append_assoc)
]

join_at-glue :
    (delim a : Bytes) (rest : List Bytes)
    → join_at delim (length rest) (a ∷ rest) ≡ some (glue delim (a ∷ rest))
unfolding glue
join_at-glue delim a [] = unfold join_at join_loop in refl
join_at-glue delim a (b ∷ rest) =
    join_at-suc delim a (glue delim (b ∷ rest)) (length rest) (b ∷ rest) (join_at-glue delim b rest)

last_arg-suc : (e n : ℕ) → n ≤ e → last_arg (pos e) (suc n) ≡ pos n
unfolding ◌-ℤ◌
last_arg-suc e n h = ground arith

join-join_at :
    (delim : Bytes) (args : List Bytes) (end : ℤ) (n : ℕ)
    → last_arg end (length args) ≡ pos n
    → join delim args (pos 0) end ≡ join_at delim n args
unfolding join join_at
join-join_at delim args end n h =
    let all : n - 0 ≡ n = omega arith in
    elim (Option-cases (get_elem? args n)) [
      | inl e ↦ rw (h, join, e, join_at)
      | inr (last, e) ↦
          rw (h, join, e, join_at) (ap (λ k. some (join_loop delim k args ++ last)) all)
    ]

join-glue :
    (delim : Bytes) (args : List Bytes) (e : ℕ)
    → args ≢ []
    → length args ≤ suc e
    → join delim args (pos 0) (pos e) ≡ some (glue delim args)
join-glue delim [] e ne le = absurd (ne refl)
join-glue delim (a ∷ rest) e ne le =
    join-join_at delim (a ∷ rest) (pos e) (length rest) (last_arg-suc e (length rest) (omega arith))
    ∙ join_at-glue delim a rest

-- Whatever the limit, joining all the pieces of an exploded string, with the delimiter it was split
-- at, gives the string back. The delimiter must not be empty.
pub join-explode :
    (delim str : Bytes) (limit : ℤ) (e : ℕ)
    → length delim ≢ 0
    → length (explode delim str limit) ≤ suc e
    → join delim (explode delim str limit) (pos 0) (pos e) ≡ some str
join-explode delim str limit e ne le =
    let parts = explode-Glues delim str limit ne in
    join-glue delim (explode delim str limit) e parts.0 le ∙ ap some parts.1
