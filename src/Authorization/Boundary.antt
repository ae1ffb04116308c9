-- ===== src/Authorization/Boundary.antt =====
-- What a request went through that `ValidateMutationRequest` lets pass.
use mail_suite.Base.{
  ◌≢◌, ◌⊎◌, ◌≤◌, byte_len, ◌≡◌, Text, codes, Bool, true, false, some, [], ◌∷◌, ◌++◌,
}
use mail_suite.Base.Int.{pos, ◌≤ℤ◌}
use mail_suite.Provisioning.{is_key_char, matches_all}
use mail_suite.Authorization.{Context, Request, Url, Host}

-- The header stands once at most, with this value; an absent header has the empty one.
abbrev pub IsSole : Request → Text → Text → Type 0
IsSole request name value =
    (request.header name ≡ value ∷ []) ⊎ (request.header name ≡ []) × (value ≡ [])

-- An https origin: a host without path and query.
pub record IsHttpsOrigin (u : Url) : Type 0 where
  pub scheme : u.scheme ≡ codes "https"
  pub host : u.host ≢ []
  pub path : u.path ≡ []
  pub query : u.raw_query ≡ []

-- The request comes from the trusted origin: its one origin header names it, or that header is absent or
-- empty and the one referrer lies in it.
pub data FromOrigin (host : Host) (request : Request) (trusted_origin : Text) : Type 0 where
  by_origin :
      (u : Url)
      → host.parse_request_uri trusted_origin ≡ some u
      → IsHttpsOrigin u
      → request.header (codes "Origin") ≡ trusted_origin ∷ []
      → FromOrigin host request trusted_origin
  by_referer :
      (u r : Url) (referer : Text)
      → host.parse_request_uri trusted_origin ≡ some u
      → IsHttpsOrigin u
      → IsSole request (codes "Origin") []
      → IsSole request (codes "Referer") referer
      → host.parse_request_uri referer ≡ some r
      → r.scheme ≡ u.scheme
      → r.host ≡ u.host
      → r.scheme ++ codes "://" ++ r.host ≡ trusted_origin
      → FromOrigin host request trusted_origin

-- A unique CSRF header whose hash is the session's.
pub record HasToken (host : Host) (request : Request) (context : Context) : Type 0 where
  pub token : Text
  pub header : request.header (codes "X-CSRF-Token") ≡ token ∷ []
  pub digest : host.sha256 token ≡ context.csrf_digest

pub record IsValidKey (key : Text) : Type 0 where
  pub long_enough : 16 ≤ byte_len key
  pub short_enough : byte_len key ≤ 128
  pub plain : matches_all is_key_char key ≡ true

-- One idempotency key of the right form, or none where none is asked for.
pub data HasKey (request : Request) (required : Bool) : Type 0 where
  unkeyed : required ≡ false → IsSole request (codes "Idempotency-Key") [] → HasKey request required
  keyed :
      (key : Text)
      → request.header (codes "Idempotency-Key") ≡ key ∷ []
      → IsValidKey key
      → HasKey request required

-- One content type, of JSON, or none where there is no content.
pub data HasContent (host : Host) (request : Request) : Type 0 where
  contentless :
      request.content_length ≡ pos 0
      → IsSole request (codes "Content-Type") []
      → HasContent host request
  json :
      (content_type : Text)
      → IsSole request (codes "Content-Type") content_type
      → host.parse_media_type content_type ≡ some (codes "application/json")
      → HasContent host request

-- The methods that change something.
abbrev pub Changes : Text → Type 0
Changes method =
    (method ≡ codes "POST")
    ⊎ (method ≡ codes "PUT")
    ⊎ (method ≡ codes "PATCH")
    ⊎ (method ≡ codes "DELETE")

-- The five guards of a changing request, and what comes back.
pub record IsGuarded (host : Host) (request : Request) (trusted_origin : Text) (context : Context)
    (require_idempotency : Bool) (result : Context) : Type 0 where
  pub changes : Changes request.method
  pub size : request.content_length ≤ℤ pos 1048576
  pub origin : FromOrigin host request trusted_origin
  pub token : HasToken host request context
  pub content : HasContent host request
  pub key : HasKey request require_idempotency
  pub result_eq : result ≡ record context { csrf_verified = true }
