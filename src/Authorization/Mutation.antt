-- ===== src/Authorization/Mutation.antt =====
-- `ValidateMutationRequest`: the boundary of every request that changes state.
use mail_suite.Base.{
  Text, codes, Bool, true, false, ◌&&◌, ◌||◌, not, Option, none, some, List, [], ◌∷◌, ◌++◌, leb,
  ◌=ₜ◌, is_empty, byte_len, if◌then◌else◌,
}
use mail_suite.Base.Int.{ℤ, pos, ltb_ℤ, ◌=ℤ◌}
use mail_suite.Errors.{csrf_invalid, invalid_argument, Result, ok, fail, ◌>>◌, reject_if}
use mail_suite.Provisioning.{is_key_char, matches_all}
use mail_suite.Authorization.{Context, Request, Url, Host, new_error, verify_csrf}

abbrev pub default_max_json_body_bytes : ℤ
default_max_json_body_bytes = pos 1048576

unfoldable pub is_mutation : Text → Bool
is_mutation method =
    method =ₜ codes "POST"
    || method =ₜ codes "PUT"
    || method =ₜ codes "PATCH"
    || method =ₜ codes "DELETE"

-- The value of a header and whether it is unique; an absent header is the empty value.
abbrev pub single_value : List Text → Text × Bool
single_value [] = ([], true)
single_value (value ∷ []) = (value, true)
single_value (value ∷ _ ∷ _) = ([], false)

unfoldable pub single_header : Request → Text → Text × Bool
single_header request name = single_value (request.header name)

unfoldable pub is_origin : Url → Bool
is_origin u =
    u.scheme =ₜ codes "https" && not (is_empty u.host) && is_empty u.path && is_empty u.raw_query

-- `referer.Scheme == parsedOrigin.Scheme && …`
unfoldable pub same_origin : Url → Url → Text → Bool
same_origin referer origin trusted_origin =
    referer.scheme =ₜ origin.scheme
    && referer.host =ₜ origin.host
    && (referer.scheme ++ codes "://" ++ referer.host) =ₜ trusted_origin

unfoldable pub valid_idempotency_key : Text → Bool
valid_idempotency_key value =
    leb 16 (byte_len value) && leb (byte_len value) 128 && matches_all is_key_char value

-- The end of `trustedBrowserRequest`: the parsed referrer, if it parses.
unfoldable pub referer_trusted : Option Url → Url → Text → Bool
referer_trusted none origin trusted_origin = false
referer_trusted (some referer) origin trusted_origin = same_origin referer origin trusted_origin

module _ (host : Host) where
  -- `trustedBrowserRequest` once the trusted origin is parsed.
  unfoldable pub trusted_from : Request → Text → Option Url → Bool
  trusted_from request trusted_origin none = false
  trusted_from request trusted_origin (some parsed) =
      let (origin, unique_origin) = single_header request (codes "Origin") in
      let (referer, unique_referer) = single_header request (codes "Referer") in
      is_origin parsed
      && unique_origin
      && (if is_empty origin
          then unique_referer
            && referer_trusted (host.parse_request_uri referer) parsed trusted_origin
          else origin =ₜ trusted_origin)

  unfoldable pub trusted_browser_request : Request → Text → Bool
  trusted_browser_request request trusted_origin =
      trusted_from request trusted_origin (host.parse_request_uri trusted_origin)

  unfoldable pub content_type_refused : Request → Bool
  content_type_refused request =
      let (content_type, unique) = single_header request (codes "Content-Type") in
      not unique
      || not (is_empty content_type && request.content_length =ℤ pos 0)
        && elim (host.parse_media_type content_type) [
          | none ↦ true
          | some media_type ↦ not (media_type =ₜ codes "application/json")
        ]

  unfoldable pub key_refused : Request → Bool → Bool
  key_refused request require_idempotency =
      let (key, unique) = single_header request (codes "Idempotency-Key") in
      not unique
      || require_idempotency && is_empty key
      || not (is_empty key) && not (valid_idempotency_key key)

  -- The `nil` request is none; the context comes back marked as verified.
  unfoldable pub validate_mutation_request : Option Request → Text → Context → Bool → Result Context
  validate_mutation_request none trusted_origin context require_idempotency =
      fail (new_error invalid_argument)
  validate_mutation_request (some request) trusted_origin context require_idempotency = do
    reject_if (not (is_mutation request.method)) (new_error invalid_argument)
    reject_if (ltb_ℤ default_max_json_body_bytes request.content_length)
        (new_error invalid_argument)
    let (csrf_token, unique_csrf) = single_header request (codes "X-CSRF-Token")
    reject_if
        (not (trusted_browser_request request trusted_origin)
          || not unique_csrf
          || not (verify_csrf host context csrf_token))
        (new_error csrf_invalid)
    reject_if (content_type_refused request) (new_error invalid_argument)
    reject_if (key_refused request require_idempotency) (new_error invalid_argument)
    ok (record context { csrf_verified = true })
