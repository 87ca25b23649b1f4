-- ===== src/Maps/Parser/Reading.antt =====
-- Reading a file ends: every round of the loop takes at least one byte.
use xdebug.Prelude.{
  ℕ, zero, suc, ◌+◌, ◌≤◌, ◌<◌, ◌≡◌, ◌≢◌, refl, [], ◌∷◌, ◌++◌, ap, ◌⊎◌, inl, inr, Bytes, length,
  ◌==◌, Bool-cases, arith,
}
use xdebug.Maps.Parser.State.{ErrorCode, Result, ok, fail, State}
use xdebug.Maps.Parser.Lines.{
  fgets, c_string, read_line, out_of_fuel, read_lines, state_file_read_lines,
}

-- What fgets reads and what it leaves make up the file.
fgets-append : (n : ℕ) (file : Bytes) → (fgets n file).0 ++ (fgets n file).1 ≡ file
unfolding fgets
fgets-append zero file = refl
fgets-append (suc n) [] = refl
fgets-append (suc n) (c ∷ file) = elim (Bool-cases (c == b'\n')) [
  | inl stop ↦ rw (stop, fgets)
  | inr go ↦ rw (go, fgets) (ap (◌∷◌ c) (fgets-append n file))
]

length-fgets-le : (n : ℕ) (file : Bytes) → length (fgets n file).1 ≤ length file
unfolding fgets
length-fgets-le zero file = omega arith
length-fgets-le (suc n) [] = omega arith
length-fgets-le (suc n) (c ∷ file) = ground (arith, length-fgets-le n file)

-- At least one byte is read, if there is room for one.
length-fgets-lt : (n c : ℕ) (file : Bytes) → length (fgets (suc n) (c ∷ file)).1 < length (c ∷ file)
unfolding fgets
length-fgets-lt n c file = ground (arith, length-fgets-le n file)

Result-cases {ℓ} :
    {A : Type ℓ} (r : Result A) → ((a : A) × (r ≡ ok a)) ⊎ ((e : ErrorCode) × (r ≡ fail e))
Result-cases (ok a) = inl (a, refl)
Result-cases (fail e) = inr (e, refl)

read_lines-ne-out_of_fuel :
    (fuel : ℕ) (state : State) (file : Bytes)
    → length file < fuel
    → read_lines fuel state file ≢ out_of_fuel
unfolding read_lines
read_lines-ne-out_of_fuel zero state file h = elim h [ ]
read_lines-ne-out_of_fuel (suc fuel) state [] h = ground arith
read_lines-ne-out_of_fuel (suc fuel) state (c ∷ file) h =
    let line = (fgets 2047 (c ∷ file)).0 in
    let next = record state { current_line_no = state.current_line_no + 1 } in
    elim (Result-cases (read_line next (c_string line))) [
      | inr (e, x) ↦ rw (x, read_lines) (ground arith)
      | inl (after, x) ↦
          rw (x, read_lines)
            (read_lines-ne-out_of_fuel fuel after (fgets 2047 (c ∷ file)).1
              (omega (arith, length-fgets-lt 2046 c file)))
    ]

-- The loop over the lines of a file ends at the end of the file or at an error, within one round
-- for each byte.
pub state_file_read_lines_ends :
    (state : State) (file : Bytes) → state_file_read_lines state file ≢ out_of_fuel
unfolding state_file_read_lines
state_file_read_lines_ends state file =
    read_lines-ne-out_of_fuel (length file + 1) (record state { current_line_no = 0 }) file
      (omega arith)
