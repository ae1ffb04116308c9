-- ===== src/Identity/ReturnPath.antt =====
-- src/backend/internal/identity/return_path.go: where a login may return to. Parsing a request URI,
-- unescaping a query, cleaning a path and lower case beyond ASCII are Go's library: arguments here.
pub mod Safe
use mail_suite.Base.{
  ℕ, ◌≡◌, refl, Text, codes, Bool, true, false, ◌&&◌, ◌||◌, not, Option, none, some, [], ◌∷◌, ◌++◌,
  arith, ltb, ◌=ₜ◌, =ₜ→eq, is_empty, byte_len, all, has_prefix, contains, is_control, valid_string,
  to_lower, if◌then◌else◌,
}
use mail_suite.Errors.{Result, ok, fail, ◌>>◌, reject_if, invalid_return_to}
use mail_suite.Identity.{new_error}

-- What `url.ParseRequestURI` finds in a text.
pub record RequestUri : Type 0 where
  pub is_abs : Bool
  pub host : Text
  pub opaque : Text
  pub path : Text
  pub escaped_path : Text
  pub raw_query : Text
  pub fragment : Text

pub record Host : Type 0 where
  pub parse_request_uri : Text → Option RequestUri
  pub query_unescape : Text → Option Text
  pub clean : Text → Text
  pub lower : ℕ → ℕ

abbrev pub maximum_return_path_bytes : ℕ
maximum_return_path_bytes = 2048

unfoldable pub is_protected_portal_path : Text → Bool
is_protected_portal_path candidate =
    candidate =ₜ codes "/mail"
    || has_prefix candidate (codes "/mail/")
    || candidate =ₜ codes "/admin"
    || has_prefix candidate (codes "/admin/")

unfoldable pub has_control_character : Text → Bool
has_control_character value = not (all (λ c. not (is_control c)) value)

abbrev pub has_backslash : Text → Bool
has_backslash t = contains t (codes "\\")

-- The refusal of a query.
unfoldable pub bad_query : Option Text → Bool
unfolding has_control_character
bad_query none = true
bad_query (some decoded) = has_control_character decoded || has_backslash decoded

unfoldable pub with_query : RequestUri → Text
with_query parsed =
    if is_empty parsed.raw_query
    then parsed.escaped_path
    else parsed.escaped_path ++ codes "?" ++ parsed.raw_query

module _ (host : Host) where
  -- The checks of `NormalizeReturnPath` on what the candidate parses to.
  unfoldable pub normalize_parsed : Option RequestUri → Result Text
  unfolding has_control_character
  normalize_parsed none = fail (new_error invalid_return_to)
  normalize_parsed (some parsed) = do
    let invalid = new_error invalid_return_to
    reject_if
        (parsed.is_abs
          || not (is_empty parsed.host)
          || not (is_empty parsed.opaque)
          || not (is_empty parsed.fragment))
        invalid
    reject_if (not (has_prefix parsed.path (codes "/")) || has_prefix parsed.path (codes "//"))
        invalid
    let lower_escaped = to_lower host.lower parsed.escaped_path
    reject_if (contains lower_escaped (codes "%2f") || contains lower_escaped (codes "%5c")) invalid
    reject_if
        (has_control_character parsed.path
          || has_backslash parsed.path
          || not (host.clean parsed.path =ₜ parsed.path))
        invalid
    reject_if (not (is_protected_portal_path parsed.path)) invalid
    reject_if (not (is_empty parsed.raw_query) && bad_query (host.query_unescape parsed.raw_query))
        invalid
    ok (with_query parsed)

  unfoldable pub normalize_return_path : Text → Result Text
  unfolding has_control_character
  normalize_return_path candidate = do
    let invalid = new_error invalid_return_to
    reject_if
        (is_empty candidate
          || ltb maximum_return_path_bytes (byte_len candidate)
          || not (valid_string candidate))
        invalid
    reject_if (has_control_character candidate || has_backslash candidate) invalid
    reject_if (contains (to_lower host.lower candidate) (codes "%25")) invalid
    normalize_parsed (host.parse_request_uri candidate)
