-- ===== src/Tests/ReplyProofs.antt =====
-- The theorems on replies, URLs and base64 at concrete inputs, and runs.
use xdebug.Prelude.{
  ◌≡◌, refl, true, false, none, some, [], ◌∷◌, Bytes, codes, equal, if◌then◌else◌, set, arith,
}
use xdebug.Prelude.Int.{pos}
use xdebug.Prelude.Decimal.{decimal}
use xdebug.CmdParser.{Args, no_args}
use xdebug.Base64.{letter, base64_encode, base64_decode}
use xdebug.Base64.RoundTrip.{base64_decode-encode}
use xdebug.Url.{path_to_url, path_from_url, raw_url_encode, to_slashes, is_wrapper, strstr, hexchar}
use xdebug.Url as Url
use xdebug.Url.RoundTrip.{IsFilePath, path_from_url-path_to_url}
use xdebug.Xml.Build.{Node, node_init, add_attribute, add_text_ex}
use xdebug.Xml.Built.{Built}
use xdebug.Debugger.Session.{Session, option, ok}
use xdebug.Debugger.Context.{starting}
use xdebug.Debugger.Features.{feature, supported, feature_set}
use xdebug.Debugger.Features.Laws.{max_data, feature-feature_set}

abbrev some_bytes : Bytes
some_bytes = 0 ∷ 255 ∷ 7 ∷ 128 ∷ []

base64_decode-encode_example : base64_decode (base64_encode some_bytes) ≡ some some_bytes
base64_decode-encode_example = base64_decode-encode some_bytes (omega arith)

run_base64 : base64_encode (codes "any carnal pleas") ≡ codes "YW55IGNhcm5hbCBwbGVhcw=="
unfolding base64_encode letter
run_base64 = refl

run_url : raw_url_encode true (codes "/a b/c%d.php") ≡ codes "/a%20b/c%25d.php"
unfolding raw_url_encode Url.is_encoded hexchar
run_url = refl

abbrev a_path : Bytes
a_path = codes "/a b.php"

a_path-IsFilePath : IsFilePath a_path
a_path-IsFilePath = record {
  absolute = refl;
  one_slash = refl;
  no_drive = refl;
  no_backslash = (refl, (refl, (refl, (refl, (refl, (refl, (refl, (refl, tt))))))));
  no_nul = (refl, (refl, (refl, (refl, (refl, (refl, (refl, (refl, tt))))))));
  bytes = omega arith;
}

path_from_url-path_to_url_example :
    (url : Bytes) × (path_to_url (λ p. none) a_path ≡ some url) × (path_from_url url ≡ a_path)
path_from_url-path_to_url_example = path_from_url-path_to_url (λ p. none) a_path a_path-IsFilePath

-- `<e q="&quot;"><![CDATA[hi]]></e>`
abbrev a_node : Node
a_node =
    add_text_ex (add_attribute (node_init (codes "e")) (codes "q") (codes "\"")) (codes "hi") false

abbrev pub a_session : Session
a_session = record {
  status = starting;
  reason = ok;
  lastcmd = none;
  lasttransid = none;
  options = record {
    max_children = pos 32;
    max_data = pos 1024;
    max_depth = pos 1;
    show_hidden = pos 0;
    extended_properties = pos 0;
    runtime = (0, 0) ∷ [];
  };
  send_notifications = pos 0;
  resolved_breakpoints = pos 0;
  breakpoint_details = pos 0;
  breakpoint_include_return_value = pos 0;
  virtual_exception_value = pos 0;
}

-- `-n max_data -v 77`
abbrev feature_args : Args
feature_args = set (set no_args 13 (some (codes "max_data"))) 21 (some (codes "77"))

feature-feature_set_example :
    feature (codes "8") (feature_set feature_args a_session a_node).0 (codes "max_data") ≡ (
      if equal (codes "max_data") (codes "max_data")
      then supported (decimal 77)
      else feature (codes "8") a_session (codes "max_data"))
feature-feature_set_example =
    feature-feature_set (codes "8") feature_args a_session a_node max_data max_data 77 (omega arith)
      (unfold option in refl) (unfold option decimal in refl)
