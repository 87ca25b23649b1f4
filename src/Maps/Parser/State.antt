-- ===== src/Maps/Parser/State.antt =====
-- The parser's errors and its state. The error messages are not modelled, nor is the FILE pointer.
use xdebug.Prelude.{Bool, false, if◌then◌else◌, ◌≡◌, refl, ℕ, Bytes, Option, none, true}
use xdebug.Hash
use xdebug.Hash.{Hash}
use xdebug.Maps.Types.{PathMapping}

-- The codes of src/lib/maps/parser.h that are in use, PATH_MAPS_*
pub data ErrorCode : Type 0 where
  cant_open_file no_rules empty_line no_newline garbage invalid_prefix : ErrorCode
  double_separator no_separator mismatched_types wrong_range duplicate_rules : ErrorCode
  mixing_path_and_lines : ErrorCode

-- A step that ends in `state_set_error` ends the parse: it returns the code.
pub data Result {ℓ} (A : Type ℓ) : Type ℓ where
  ok : A → Result A
  fail : ErrorCode → Result A

infixl 5 ◌>>=◌
abbrev pub ◌>>=◌ {ℓ₁ ℓ₂} : {X : Type ℓ₁} {Y : Type ℓ₂} → Result X → (X → Result Y) → Result Y
fail code >>= next = fail code
ok value >>= next = next value

-- what a result promises when it is not an error
abbrev pub Holds : {A : Type 0} → (A → Type 0) → Result A → Type 0
Holds P (ok a) = P a
Holds P (fail e) = Unit {0}

pub guard-Holds :
    {A : Type 0} (P : A → Type 0) (b : Bool) (e : ErrorCode) (m : Result A)
    → (b ≡ false → Holds P m)
    → Holds P (if b then fail e else m)
guard-Holds P true e m h = tt
guard-Holds P false e m h = h refl

pub bind-Holds :
    {A B : Type 0} (P : B → Type 0) (m : Result A) (f : A → Result B)
    → ((a : A) → Holds P (f a))
    → Holds P (m >>= f)
bind-Holds P (ok a) f h = h a
bind-Holds P (fail e) f h = tt

pub bind-Holds_of :
    {A B : Type 0} (Q : A → Type 0) (P : B → Type 0) (m : Result A) (f : A → Result B)
    → Holds Q m
    → ((a : A) → Q a → Holds P (f a))
    → Holds P (m >>= f)
bind-Holds_of Q P (ok a) f q h = h a q
bind-Holds_of Q P (fail e) f q h = tt

-- struct path_maps_parser_state, without the error, which is the outcome
pub record State : Type 0 where
  pub current_local_prefix : Option Bytes
  pub current_remote_prefix : Option Bytes
  pub current_working_directory : Bytes
  pub current_line_no : ℕ
  pub file_rules : Hash PathMapping

-- path_maps_parser_state_ctor, and the working directory that xdebug_path_maps_parse_file sets
unfoldable pub state_ctor : Bytes → State
state_ctor cwd = record {
  current_local_prefix = none;
  current_remote_prefix = none;
  current_working_directory = cwd;
  current_line_no = 0;
  file_rules = Hash.alloc 256 true;
}
