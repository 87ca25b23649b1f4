-- ===== src/CmdParser/RoundTrip.antt =====
-- A command line that is put together from a command and plain arguments is read back.
use xdebug.Prelude.{
  ℕ, suc, ◌≡◌, ◌≢◌, refl, sym, ap, ◌∙◌, Bool, true, false, ◌&&◌, ◌||◌, not, none, some, List, [],
  ◌∷◌, ◌++◌, append-nil, append_assoc, Bytes, leb, ◌==◌, length, take, drop, set, get_or, arith,
  All,
}
use xdebug.CString.{strchr}
use xdebug.CmdParser.{
  normal, value_follows, Args, Parser, ok, opt_index, store, push, step_in, run, no_args, initial,
  cmd_parse,
}

-- An option letter and its value.
pub record Arg : Type 0 where
  pub opt : ℕ
  pub value : Bytes

-- neither a NUL nor a space
abbrev pub is_plain : ℕ → Bool
is_plain c = not (c == 0 || c == b' ')

abbrev pub AllPlain : Bytes → Type 0
AllPlain = All (λ c. is_plain c ≡ true)

-- An option in [a-z], and a value with no NUL and no space that does not begin with a quote.
pub record IsPlain (a : Arg) : Type 0 where
  pub letter : (leb b'a' a.opt && leb a.opt b'z') ≡ true
  pub value_plain : AllPlain a.value
  pub not_empty : a.value ≢ []
  pub not_quoted : (get_or a.value 0 0 == b'"') ≡ false

-- `-a value -b value …`
abbrev pub print_args : Arg → List Arg → Bytes
print_args a [] = b'-' ∷ a.opt ∷ b' ' ∷ a.value
print_args a (b ∷ more) = b'-' ∷ a.opt ∷ b' ' ∷ (a.value ++ (b' ' ∷ print_args b more))

-- the arguments stored one after the other
abbrev pub store_args : Args → List Arg → Args
store_args args [] = args
store_args args (a ∷ more) = store_args (set args (opt_index a.opt) (some a.value)) more

-- No option is there before its own argument is stored.
abbrev pub Fresh : Args → List Arg → Type 0
Fresh args [] = Unit
Fresh args (a ∷ more) =
    (get_or args (opt_index a.opt) none ≡ none)
    × Fresh (set args (opt_index a.opt) (some a.value)) more

run_value_byte :
    (p : Parser) (c : ℕ) (rest : Bytes)
    → p.mode ≡ value_follows
    → is_plain c ≡ true
    → run p (c ∷ rest) ≡ run (push p c value_follows) rest
unfolding run step_in
run_value_byte p c rest m h = ground arith

-- The value is read up to what ends it.
run_value :
    (v rest : Bytes) (p : Parser)
    → p.mode ≡ value_follows
    → AllPlain v
    → run p (v ++ rest) ≡ run (record p { mode = value_follows; value = p.value ++ v }) rest
run_value [] rest p m h = rw (append-nil, ← m)
run_value (c ∷ v) rest p m h =
    run_value_byte p c (v ++ rest) m h.0
    ∙ run_value v rest (push p c value_follows) refl h.1
    ∙ rw append_assoc

-- From the option's dash to the first byte of its value.
run_option_start :
    (o c : ℕ) (p : Parser) (rest : Bytes)
    → p.mode ≡ normal
    → (leb b'a' o && leb o b'z') ≡ true
    → (c == b'"') ≡ false
    → run p (b'-' ∷ o ∷ b' ' ∷ c ∷ rest)
      ≡ run (record p { mode = value_follows; opt = o; value = c ∷ [] }) rest
unfolding run step_in
run_option_start o c p rest m letter q = ground arith

run_option :
    (o : ℕ) (v : Bytes) (p : Parser) (rest : Bytes)
    → p.mode ≡ normal
    → IsPlain (record { opt = o; value = v })
    → run p (b'-' ∷ o ∷ b' ' ∷ (v ++ rest))
      ≡ run (record p { mode = value_follows; opt = o; value = v }) rest
run_option o [] p rest m h = absurd (h.not_empty refl)
run_option o (c ∷ v) p rest m h =
    run_option_start o c p (v ++ rest) m h.letter h.not_quoted
    ∙ run_value v rest _ refl h.value_plain.1

run_end :
    (p : Parser)
    → p.mode ≡ value_follows
    → get_or p.args (opt_index p.opt) none ≡ none
    → run p [] ≡ ok (set p.args (opt_index p.opt) (some p.value))
unfolding run step_in store
run_end p m h = ground arith

run_space :
    (p : Parser) (rest : Bytes)
    → p.mode ≡ value_follows
    → (p.opt == b'-') ≡ false
    → get_or p.args (opt_index p.opt) none ≡ none
    → run p (b' ' ∷ rest)
      ≡ run (record p { args = set p.args (opt_index p.opt) (some p.value); mode = normal }) rest
unfolding run step_in store
run_space p rest m o h = ground arith

letter-ne-dash : (o : ℕ) → (leb b'a' o && leb o b'z') ≡ true → (o == b'-') ≡ false
letter-ne-dash o h = ground arith

run-print_args :
    (more : List Arg) (a : Arg) (p : Parser)
    → p.mode ≡ normal
    → IsPlain a
    → All IsPlain more
    → Fresh p.args (a ∷ more)
    → run p (print_args a more) ≡ ok (store_args p.args (a ∷ more))
run-print_args [] a p m h hs f =
    ap (λ v. run p (b'-' ∷ a.opt ∷ b' ' ∷ v)) (sym (append-nil a.value))
    ∙ (run_option a.opt a.value p [] m h
        ∙ run_end (record p { mode = value_follows; opt = a.opt; value = a.value }) refl f.0)
run-print_args (b ∷ more) a p m h hs f =
    run_option a.opt a.value p (b' ' ∷ print_args b more) m h
    ∙ run_space (record p { mode = value_follows; opt = a.opt; value = a.value })
        (print_args b more) refl (letter-ne-dash a.opt h.letter) f.0
    ∙ run-print_args more b _ refl hs.0 hs.1 f.1

strchr-space :
    (cmd rest : Bytes) → AllPlain cmd → strchr (cmd ++ (b' ' ∷ rest)) b' ' ≡ some (length cmd)
unfolding strchr
strchr-space [] rest h = refl
strchr-space (c ∷ cmd) rest h = ground (arith, strchr-space cmd rest h.1)

take_command : (cmd rest : Bytes) → take (length cmd) (cmd ++ rest) ≡ cmd
take_command [] rest = refl
take_command (c ∷ cmd) rest = ap (◌∷◌ c) (take_command cmd rest)

drop_command : (cmd rest : Bytes) → drop (suc (length cmd)) (cmd ++ (b' ' ∷ rest)) ≡ rest
drop_command [] rest = refl
drop_command (c ∷ cmd) rest = drop_command cmd rest

-- A command without a space, followed by arguments with different options in [a-z] and plain
-- values, is parsed into that command and those arguments.
pub cmd_parse-print :
    (cmd : Bytes) (a : Arg) (more : List Arg)
    → AllPlain cmd
    → IsPlain a
    → All IsPlain more
    → Fresh no_args (a ∷ more)
    → cmd_parse (cmd ++ (b' ' ∷ print_args a more)) ≡ (some cmd, ok (store_args no_args (a ∷ more)))
unfolding cmd_parse
cmd_parse-print cmd a more c h hs f = rw (
  strchr-space cmd (print_args a more) c,
  cmd_parse,
  take_command cmd (b' ' ∷ print_args a more),
  drop_command cmd (print_args a more),
  run-print_args more a initial refl h hs f,
)
