-- ===== src/Url.antt =====
-- URLs and paths in src/lib/usefulstuff.c, on platforms other than Windows.
pub mod RoundTrip
use xdebug.Prelude.{
  ℕ, suc, ◌+◌, ◌-◌, ◌*◌, ◌/◌, ◌%◌, Bool, true, false, ◌&&◌, ◌||◌, not, Option, none, some, List, [],
  ◌∷◌, ◌++◌, Bytes, codes, get_or, drop, ltb, leb, ◌==◌, if◌then◌else◌, length,
}
use xdebug.Xml.Build.{starts_with, c_string}

-- isxdigit and isupper in the C locale
unfoldable pub isxdigit : ℕ → Bool
isxdigit c = (leb b'0' c && leb c b'9') || (leb b'a' c && leb c b'f') || (leb b'A' c && leb c b'F')

unfoldable pub isupper : ℕ → Bool
isupper c = leb b'A' c && leb c b'Z'

-- one of the two digits of xdebug_htoi
unfoldable pub hex_value : ℕ → ℕ
hex_value c =
    let lower = if isupper c then c + 32 else c in
    if leb b'0' lower && leb lower b'9' then lower - b'0' else lower - b'a' + 10

-- xdebug_htoi, as the byte that it is made into
unfoldable pub htoi : ℕ → ℕ → ℕ
htoi h l = (hex_value h * 16 + hex_value l) % 256

-- xdebug_raw_url_decode
unfoldable pub raw_url_decode : Bytes → Bytes
raw_url_decode [] = []
raw_url_decode (c ∷ []) = c ∷ []
raw_url_decode (c ∷ h ∷ []) = c ∷ h ∷ []
raw_url_decode (c ∷ h ∷ l ∷ s) = elim (c == b'%' && isxdigit h && isxdigit l) [
  | true ↦ htoi h l ∷ raw_url_decode s
  | false ↦ c ∷ raw_url_decode (h ∷ l ∷ s)
]

-- hexchars
unfoldable pub hexchar : ℕ → ℕ
hexchar v = get_or (codes "0123456789ABCDEF") v 0

-- the test of xdebug_raw_url_encode whether a byte is encoded
unfoldable pub is_encoded : Bool → ℕ → Bool
is_encoded skip_slash c =
    (ltb c b'0' && not (c == b'-') && not (c == b'.') && (not (c == b'/') || not skip_slash))
    || (ltb c b'A' && ltb b'9' c && not (c == b':'))
    || (ltb b'Z' c && ltb c b'a' && not (c == b'_') && (not (c == b'\\') || not skip_slash))
    || ltb b'z' c

-- xdebug_raw_url_encode
unfoldable pub raw_url_encode : Bool → Bytes → Bytes
raw_url_encode skip_slash [] = []
raw_url_encode skip_slash (c ∷ s) =
    (if is_encoded skip_slash c then b'%' ∷ hexchar (c / 16) ∷ hexchar (c % 16) ∷ [] else c ∷ [])
    ++ raw_url_encode skip_slash s

-- strstr of the C library, as the string from the first occurrence on
unfoldable pub strstr : Bytes → Bytes → Option Bytes
strstr [] needle = if starts_with needle [] then some [] else none
strstr (c ∷ s) needle =
    let rest = strstr s needle in if starts_with needle (c ∷ s) then some (c ∷ s) else rest

-- the step over a slash in front of a drive, behind `file://`
unfoldable pub skip_drive_slash : Bytes → Bytes
skip_drive_slash fp =
    if get_or fp 0 0 == b'/' && not (get_or fp 1 0 == 0) && get_or fp 2 0 == b':'
    then drop 1 fp
    else fp

-- xdebug_path_from_url
unfoldable pub path_from_url : Bytes → Bytes
path_from_url fileurl = elim (strstr (c_string (raw_url_decode fileurl)) (codes "file://")) [
  | some tmp ↦ skip_drive_slash (drop 7 tmp)
  | none ↦ fileurl
]

-- whether `://` stands before the first slash, so that it is a stream wrapper; of two places in one
-- string the one with more behind it comes first
unfoldable pub is_wrapper : Option Bytes → Option Bytes → Bool
is_wrapper none slash = false
is_wrapper (some wrapper) none = false
is_wrapper (some wrapper) (some slash) = ltb (length slash) (length wrapper)

-- the loop that turns `\` into `/`
unfoldable pub to_slashes : Bytes → Bytes
to_slashes [] = []
to_slashes (c ∷ s) = (if c == b'\\' then b'/' else c) ∷ to_slashes s

abbrev pub is_slash : ℕ → Bool
is_slash c = c == b'/' || c == b'\\'

-- xdebug_path_to_url; `absolute` makes a relative path absolute, and `none` is the NULL that is
-- then read where it fails
unfoldable pub path_to_url : (Bytes → Option Bytes) → Bytes → Option Bytes
path_to_url absolute path =
    let encoded = raw_url_encode true path in
    let first = get_or path 0 0 in
    let second = get_or path 1 0 in
    if is_wrapper (strstr path (codes "://")) (strstr path (codes "/"))
    then some (to_slashes path)
    else if not (is_slash first) && not (second == b':')
    then (elim (absolute path) [
      | some cwd ↦ some (to_slashes (codes "file://" ++ cwd))
      | none ↦ none
    ])
    else if is_slash second
    then some (to_slashes (codes "file:" ++ encoded))
    else if is_slash first
    then some (to_slashes (codes "file://" ++ encoded))
    else some (to_slashes (codes "file:///" ++ encoded))
