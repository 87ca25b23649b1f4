-- ===== src/Url/RoundTrip.antt =====
-- A path that is made a URL is got back from it.
use xdebug.Prelude.{
  ℕ, ◌/◌, ◌%◌, ◌<◌, ◌≤◌, ◌≡◌, refl, ◌∙◌, ap, Bool, true, false, ◌&&◌, not, Option, none, some, [],
  ◌∷◌, ◌++◌, Bytes, codes, ◌==◌, arith, All, all_below, all_below_at, length, get_or, inl, inr,
  Bool-cases,
}
use xdebug.Base64.RoundTrip.{AllBytes}
use xdebug.Xml.Build.{starts_with, c_string}
use xdebug.Xml.Strings.{NoNul, c_string-NoNul}
use xdebug.Url.{
  isxdigit, isupper, hex_value, htoi, raw_url_decode, hexchar, is_encoded, raw_url_encode, strstr,
  skip_drive_slash, path_from_url, is_wrapper, to_slashes, is_slash, path_to_url,
}

-- what the encoding of a byte has to do with its decoding
abbrev law : ℕ → Bool
law c =
    isxdigit (hexchar (c / 16))
    && (isxdigit (hexchar (c % 16)) && htoi (hexchar (c / 16)) (hexchar (c % 16)) == c)

law_table : all_below 256 (λ c. law c && (is_encoded true b'%' && is_encoded false b'%')) ≡ true
unfolding all_below isxdigit isupper hex_value htoi hexchar is_encoded
law_table = refl

law_at : (c : ℕ) → c < 256 → law c ≡ true
law_at c h = ground (
  arith,
  all_below_at 256 (λ c. law c && (is_encoded true b'%' && is_encoded false b'%')) c law_table h,
)

decode_plain :
    (c : ℕ) (s : Bytes) → (c == b'%') ≡ false → raw_url_decode (c ∷ s) ≡ c ∷ raw_url_decode s
unfolding raw_url_decode
decode_plain c [] h = refl
decode_plain c (x ∷ []) h = refl
decode_plain c (x ∷ y ∷ s) h = ground arith

decode_escape :
    (c : ℕ) (s : Bytes)
    → c < 256
    → raw_url_decode (b'%' ∷ hexchar (c / 16) ∷ hexchar (c % 16) ∷ s) ≡ c ∷ raw_url_decode s
unfolding raw_url_decode
decode_escape c s h = ground (arith, law_at c h)

plain_byte : (skip_slash : Bool) (c : ℕ) → is_encoded skip_slash c ≡ false → (c == b'%') ≡ false
unfolding is_encoded
plain_byte skip_slash c h = ground arith

raw_url_decode-encode :
    (skip_slash : Bool) (s : Bytes) → AllBytes s → raw_url_decode (raw_url_encode skip_slash s) ≡ s
unfolding raw_url_encode
raw_url_decode-encode skip_slash [] h = unfold raw_url_decode in refl
raw_url_decode-encode skip_slash (c ∷ s) (h, hs) = elim (Bool-cases (is_encoded skip_slash c)) [
  | inl escaped ↦ rw escaped (
      decode_escape c (raw_url_encode skip_slash s) h
      ∙ ap (λ t. c ∷ t) (raw_url_decode-encode skip_slash s hs))
  | inr plain ↦ rw plain (
      decode_plain c (raw_url_encode skip_slash s) (plain_byte skip_slash c plain)
      ∙ ap (λ t. c ∷ t) (raw_url_decode-encode skip_slash s hs))
]

abbrev NoBackslash : Bytes → Type 0
NoBackslash = All (λ c. (c == b'\\') ≡ false)

to_slashes_same : (s : Bytes) → NoBackslash s → to_slashes s ≡ s
unfolding to_slashes
to_slashes_same [] h = refl
to_slashes_same (c ∷ s) (h, hs) = rw (h, to_slashes_same s hs)

hex_table : all_below 16 (λ v. not (hexchar v == b'\\')) ≡ true
unfolding all_below hexchar
hex_table = refl

hexchar_lem : (v : ℕ) → v < 16 → (hexchar v == b'\\') ≡ false
hexchar_lem v h = ground (arith, all_below_at 16 (λ v. not (hexchar v == b'\\')) v hex_table h)

raw_url_encode-NoBackslash :
    (s : Bytes) → AllBytes s → NoBackslash s → NoBackslash (raw_url_encode true s)
unfolding raw_url_encode
raw_url_encode-NoBackslash [] b h = tt
raw_url_encode-NoBackslash (c ∷ s) (b, bs) (h, hs) = elim (Bool-cases (is_encoded true c)) [
  | inl escaped ↦ rw escaped (
    refl,
    (
      hexchar_lem (c / 16) (omega arith),
      (hexchar_lem (c % 16) (omega arith), raw_url_encode-NoBackslash s bs hs),
    ),
  )
  | inr plain ↦ rw plain (h, raw_url_encode-NoBackslash s bs hs)
]

-- What is found is no longer than the string.
strstr-length : (s needle t : Bytes) → strstr s needle ≡ some t → length t ≤ length s
unfolding strstr
strstr-length [] needle t h = ground arith
strstr-length (c ∷ s) needle t h = ground (arith, strstr-length s needle t)

wrapper_behind :
    (s t : Bytes) (found : Option Bytes) → strstr s t ≡ found → is_wrapper found (some s) ≡ false
unfolding is_wrapper
wrapper_behind s t none h = refl
wrapper_behind s t (some w) h = ground (arith, strstr-length s t w h)

-- The path of a file: it begins with one slash, has no backslash and no NUL, and what follows the
-- slash is not a drive.
pub record IsFilePath (path : Bytes) : Type 0 where
  pub absolute : get_or path 0 0 ≡ b'/'
  pub one_slash : is_slash (get_or path 1 0) ≡ false
  pub no_drive : (get_or path 2 0 == b':') ≡ false
  pub no_backslash : NoBackslash path
  pub no_nul : NoNul path
  pub bytes : AllBytes path

abbrev file_url : Bytes → Bytes
file_url path = codes "file://" ++ raw_url_encode true path

first_slash : (path : Bytes) → get_or path 0 0 ≡ b'/' → strstr path (codes "/") ≡ some path
unfolding strstr starts_with
first_slash [] h = absurd (omega (arith, h))
first_slash (c ∷ s) h = rw h

path_to_url-file :
    (find_absolute : Bytes → Option Bytes) (path : Bytes)
    → IsFilePath path
    → path_to_url find_absolute path ≡ some (file_url path)
unfolding path_to_url
path_to_url-file find_absolute path p =
    let slash = first_slash path p.absolute in
    let no_wrapper : is_wrapper (strstr path (codes "://")) (strstr path (codes "/")) ≡ false =
      rw slash (wrapper_behind path (codes "://") _ refl) in
    let rest = raw_url_encode-NoBackslash path p.bytes p.no_backslash in
    let same : to_slashes (file_url path) ≡ file_url path =
      to_slashes_same (file_url path)
        (refl, (refl, (refl, (refl, (refl, (refl, (refl, rest))))))) in
    ground (arith, p.absolute, p.one_slash)

decode_scheme :
    (s : Bytes) → raw_url_decode (codes "file://" ++ s) ≡ codes "file://" ++ raw_url_decode s
unfolding raw_url_decode
decode_scheme [] = refl
decode_scheme (x ∷ []) = refl
decode_scheme (x ∷ y ∷ s) = refl

strstr_scheme :
    (s : Bytes) → strstr (codes "file://" ++ s) (codes "file://") ≡ some (codes "file://" ++ s)
unfolding strstr starts_with
strstr_scheme s = refl

path_from_url-file : (path : Bytes) → IsFilePath path → path_from_url (file_url path) ≡ path
unfolding path_from_url skip_drive_slash
path_from_url-file path p =
    let string =
      c_string-NoNul (codes "file://" ++ path)
        (refl, (refl, (refl, (refl, (refl, (refl, (refl, p.no_nul))))))) in
    let decoded : c_string (raw_url_decode (file_url path)) ≡ codes "file://" ++ path =
      rw (decode_scheme (raw_url_encode true path), raw_url_decode-encode true path p.bytes)
        string in
    let found : strstr (c_string (raw_url_decode (file_url path))) (codes "file://")
        ≡ some (codes "file://" ++ path) =
      rw decoded (strstr_scheme path) in
    rw (found, path_from_url) (ground (arith, p.no_drive))

-- The URL that is made of a path is read as that path, for absolute paths with one slash at their
-- start, without a backslash and without NUL, whose third byte is not a colon.
pub path_from_url-path_to_url :
    (find_absolute : Bytes → Option Bytes) (path : Bytes)
    → IsFilePath path
    → (url : Bytes) × (path_to_url find_absolute path ≡ some url) × (path_from_url url ≡ path)
path_from_url-path_to_url find_absolute path p =
    (file_url path, path_to_url-file find_absolute path p, path_from_url-file path p)
