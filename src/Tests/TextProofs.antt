-- ===== src/Tests/TextProofs.antt =====
-- The theorems on strings and sets at concrete inputs.
use xdebug.Prelude.{◌≡◌, refl, ◌==◌, ◌||◌, some, codes, length, ◌≤◌, ◌∷◌, [], arith}
use xdebug.Trim.{trim}
use xdebug.Trim.Shape.{Trims, trim-Trims}
use xdebug.Stripcslashes.{stripcslashes}
use xdebug.Stripcslashes.Length.{stripcslashes-length, quote, stripcslashes-quote}
use xdebug.CmdParser.{cmd_parse, cmd_program, ok, no_args}
use xdebug.CmdParser.RoundTrip.{Arg, IsPlain, store_args, cmd_parse-print}
use xdebug.BitSet.{BitSet, create, resize, add, in_set}
use xdebug.BitSet.Growth.{IsValid, Fits}
use xdebug.BitSet.Laws.{in_set-add}
use xdebug.BitSet.Empty.{create-clear-IsValid}

trim-Trims_example : Trims (codes "  a b ") (trim (codes "  a b "))
trim-Trims_example = trim-Trims (codes "  a b ")

stripcslashes-length_example :
    ((stripcslashes (codes "a\\x41\\n")).nlen ≡ length (stripcslashes (codes "a\\x41\\n")).target)
    × (length (stripcslashes (codes "a\\x41\\n")).target ≤ 7)
stripcslashes-length_example = stripcslashes-length (codes "a\\x41\\n")

stripcslashes-quote_example : (stripcslashes (quote (codes "a\\b"))).target ≡ codes "a\\b"
stripcslashes-quote_example = stripcslashes-quote (codes "a\\b")

abbrev dash_i : Arg
dash_i = record { opt = b'i'; value = codes "12" }

abbrev dash_n : Arg
dash_n = record { opt = b'n'; value = codes "f.php" }

dash_i-IsPlain : IsPlain dash_i
dash_i-IsPlain = record {
  letter = refl;
  value_plain = (refl, (refl, tt));
  not_empty = λ h. cc;
  not_quoted = refl;
}

dash_n-IsPlain : IsPlain dash_n
dash_n-IsPlain = record {
  letter = refl;
  value_plain = (refl, (refl, (refl, (refl, (refl, tt)))));
  not_empty = λ h. cc;
  not_quoted = refl;
}

cmd_parse-print_example :
    cmd_parse (codes "run -i 12 -n f.php")
    ≡ (some (codes "run"), ok (store_args no_args (dash_i ∷ dash_n ∷ [])))
cmd_parse-print_example =
    cmd_parse-print (codes "run") dash_i (dash_n ∷ []) (refl, (refl, (refl, tt))) dash_i-IsPlain
      (dash_n-IsPlain, tt) (unfold cmd_program in (refl, (refl, tt)))

abbrev ten : BitSet
ten = create 10

ten-IsValid : IsValid ten
ten-IsValid = (create-clear-IsValid 10 0 ten).0

seven-Fits : Fits ten 7
unfolding create resize
seven-Fits = (refl, omega arith)

in_set-add_example : in_set (add ten 7) 7 ≡ ((7 == 7) || in_set ten 7)
in_set-add_example = in_set-add ten ten-IsValid 7 7 seven-Fits
