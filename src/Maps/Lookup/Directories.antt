-- ===== src/Maps/Lookup/Directories.antt =====
-- The walk over the directories against its specification: the prefixes of the path that end in a
-- slash, from the longest to the shortest.
use mathlib.Core.Path.{ap₂}
use xdebug.Prelude.{
  ℕ, zero, suc, ◌+◌, ◌-◌, ◌≤◌, ◌<◌, ◌≡◌, refl, sym, ap, ◌∙◌, Option, none, some, List, [], ◌∷◌,
  Bytes, length, take, length-take, get_or, if◌then◌else◌, ◌==◌, arith, inl, inr, Bool-cases,
  Option-cases,
}
use xdebug.CString.{
  strrnchr, strrnchr-suc, strrnchr-take, strrnchr-zero, strrnchr-some, strrnchr_again,
  strrchr-strrnchr,
}
use xdebug.Hash.{Hash}
use xdebug.Maps.Types.{PathMapping}
use xdebug.Maps.Lookup.{Mapped, or_else, no_rule, directories, rule_at, directory_loop, slash}

take-take {ℓ} : {A : Type ℓ} (n k : ℕ) (s : List A) → n ≤ k → take n (take k s) ≡ take n s
take-take zero k s h = refl
take-take (suc n) zero s h = elim h [ ]
take-take (suc n) (suc k) [] h = refl
take-take (suc n) (suc k) (x ∷ s) h = ap (◌∷◌ x) (take-take n k s (omega arith))

module _ (map : Hash PathMapping) (decide : ℕ → PathMapping → Option Mapped) where
  -- The answer of the longest prefix of at most `n` bytes that ends in a slash and answers.
  unfoldable pub longest_directory : Bytes → ℕ → Mapped
  longest_directory path zero = no_rule
  longest_directory path (suc n) =
      if get_or path n 0 == slash
      then or_else (rule_at map decide path (suc n)) (longest_directory path n)
      else longest_directory path n

  -- the tail of the loop's body
  next_directory : ℕ → Bytes → ℕ → Mapped
  next_directory fuel path n = elim (strrnchr path slash n) [
    | none ↦ no_rule
    | some end_slash ↦ directory_loop map decide fuel path (suc end_slash)
  ]

  directory_loop-suc :
      (fuel : ℕ) (path : Bytes) (n : ℕ)
      → directory_loop map decide (suc fuel) path (suc n)
        ≡ or_else (rule_at map decide path (suc n)) (next_directory fuel path n)
  unfolding directory_loop next_directory
  directory_loop-suc fuel path n = let e : suc n - 1 ≡ n = omega arith in rw e

  next_directory-none :
      (fuel : ℕ) (path : Bytes) (n : ℕ)
      → strrnchr path slash n ≡ none
      → next_directory fuel path n ≡ no_rule
  unfolding next_directory
  next_directory-none fuel path n e = rw (e, next_directory)

  next_directory-some :
      (fuel : ℕ) (path : Bytes) (n e : ℕ)
      → strrnchr path slash n ≡ some e
      → next_directory fuel path n ≡ directory_loop map decide fuel path (suc e)
  unfolding next_directory
  next_directory-some fuel path n e h = rw (h, next_directory)

  next_directory-longest :
      (n fuel : ℕ) (path : Bytes)
      → n < fuel
      → n ≤ length path
      → next_directory fuel path n ≡ longest_directory path n
  unfolding longest_directory
  next_directory-longest zero fuel path f h =
      next_directory-none fuel path 0 (strrnchr-zero path slash)
  next_directory-longest (suc n) zero path f h = elim f [ ]
  next_directory-longest (suc n) (suc fuel) path f h =
      let step = strrnchr-suc path slash n h in
      elim (Bool-cases (get_or path n 0 == slash)) [
        | inl here ↦
            rw (here, next_directory-some (suc fuel) path (suc n) n (rw here at step))
              (directory_loop-suc fuel path n
                ∙ ap (or_else (rule_at map decide path (suc n)))
                    (next_directory-longest n fuel path (omega arith) (omega arith)))
        | inr apart ↦
            rw (apart, ← next_directory-longest n (suc fuel) path (omega arith) (omega arith))
              (unfold next_directory in rw (rw apart at step, next_directory))
      ]

  rule_at-take :
      (k n : ℕ) (path : Bytes)
      → n ≤ k
      → rule_at map decide (take k path) n ≡ rule_at map decide path n
  unfolding rule_at
  rule_at-take k n path h = rw (take-take n k path h, rule_at)

  -- The loop reads no more of the path than its first `k` bytes.
  directory_loop-take :
      (fuel k n : ℕ) (path : Bytes)
      → suc n ≤ k
      → k ≤ length path
      → directory_loop map decide fuel (take k path) (suc n)
        ≡ directory_loop map decide fuel path (suc n)
  directory_loop-take zero k n path h le = unfold directory_loop in refl
  directory_loop-take (suc fuel) k n path h le =
      let same = strrnchr-take path slash k n (omega arith) in
      let tails : next_directory fuel (take k path) n ≡ next_directory fuel path n =
        elim (Option-cases (strrnchr path slash n)) [
          | inl x ↦
              next_directory-none fuel (take k path) n (same ∙ x)
              ∙ sym (next_directory-none fuel path n x)
          | inr (e, x) ↦
              next_directory-some fuel (take k path) n e (same ∙ x)
              ∙ directory_loop-take fuel k e path
                  (omega (arith, (strrnchr-some path slash n e (omega arith) x).0)) le
              ∙ sym (next_directory-some fuel path n e x)
        ] in
      directory_loop-suc fuel (take k path) n
      ∙ ap₂ or_else (rule_at-take k (suc n) path h) tails
      ∙ sym (directory_loop-suc fuel path n)

  last_slash-take :
      (path : Bytes) (e : ℕ)
      → strrnchr path slash (length path) ≡ some e
      → strrnchr (take (suc e) path) slash (length (take (suc e) path)) ≡ some e
  last_slash-take path e x =
      let lt = (strrnchr-some path slash (length path) e (omega arith) x).0 in
      let size : length (take (suc e) path) ≡ suc e = omega (arith, length-take (suc e) path) in
      rw (size, strrnchr-take path slash (suc e) (suc e) (omega arith))
        (strrnchr_again path slash (length path) e (omega arith) x)

  -- The loop over the directories answers as the longest prefix of the path that ends in a slash
  -- and whose rule answers; it does not run out of fuel.
  pub directories-longest :
      (path : Bytes) → directories map decide path ≡ longest_directory path (length path)
  unfolding directories
  directories-longest path =
      let size : ℕ = length path in
      let walk =
        next_directory-longest (length path) (length path + 1) path (omega arith) (omega arith) in
      elim (Option-cases (strrnchr path slash (length path))) [
        | inl x ↦
            rw (strrchr-strrnchr path slash, x, directories)
              (sym (next_directory-none (length path + 1) path (length path) x) ∙ walk)
        | inr (e, x) ↦
            let lt = (strrnchr-some path slash (length path) e (omega arith) x).0 in
            rw
              (
                strrchr-strrnchr path slash,
                x,
                directories,
                strrchr-strrnchr (take (suc e) path) slash,
                last_slash-take path e x,
                directories,
              )
              (directory_loop-take (length path + 1) (suc e) e path (omega arith) lt
                ∙ sym (next_directory-some (length path + 1) path (length path) e x)
                ∙ walk)
      ]
