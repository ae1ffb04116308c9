-- ===== src/Identity/ReturnPath/Safe.antt =====
-- What a return path is that `NormalizeReturnPath` accepts.
use mail_suite.Base.{
  ◌≡◌, refl, ◌≢◌, ◌⊎◌, inl, inr, Text, codes, true, false, ◌&&◌, not, Option, none, some, [], ◌∷◌,
  ◌++◌, ◌≤◌, arith, ◌=ₜ◌, =ₜ→eq, is_empty, byte_len, all, All, has_prefix, contains, is_control,
  to_lower, Bool-cases, ap,
}
use mail_suite.Errors.{ok}
use mail_suite.Identity.ReturnPath.{
  RequestUri, Host, is_protected_portal_path, has_control_character, bad_query, with_query,
  normalize_parsed, normalize_return_path,
}

-- One of the two portals, or a path below one.
abbrev pub IsPortal : Text → Type 0
IsPortal path =
    (path ≡ codes "/mail")
    ⊎ ((rest : Text) × (path ≡ codes "/mail/" ++ rest))
    ⊎ (path ≡ codes "/admin")
    ⊎ ((rest : Text) × (path ≡ codes "/admin/" ++ rest))

-- No control characters and no backslashes.
abbrev pub IsClean : Text → Type 0
IsClean t = All (λ c. (is_control c ≡ false) × (c ≢ b'\\')) t

-- The text `p` stands nowhere in `t`.
abbrev pub Lacks : Text → Text → Type 0
Lacks p t = (a b : Text) → t ≢ a ++ p ++ b

abbrev pub HasCleanQuery : Host → Text → Type 0
HasCleanQuery host raw_query =
    (raw_query ≡ [])
    ⊎ ((decoded : Text) × (host.query_unescape raw_query ≡ some decoded) × IsClean decoded)

-- The path with its query, if there is one.
abbrev pub IsPathOf : RequestUri → Text → Type 0
IsPathOf parsed t =
    (parsed.raw_query ≡ []) × (t ≡ parsed.escaped_path)
    ⊎ (parsed.raw_query ≢ []) × (t ≡ parsed.escaped_path ++ codes "?" ++ parsed.raw_query)

-- A path of one of the two portals, as the router finds it, on the server itself.
pub record IsSafe (host : Host) (parsed : RequestUri) (t : Text) : Type 0 where
  pub relative : parsed.is_abs ≡ false
  pub no_host : parsed.host ≡ []
  pub no_opaque : parsed.opaque ≡ []
  pub no_fragment : parsed.fragment ≡ []
  pub portal : IsPortal parsed.path
  pub canonical : host.clean parsed.path ≡ parsed.path
  pub clean : IsClean parsed.path
  pub no_slash : Lacks (codes "%2f") (to_lower host.lower parsed.escaped_path)
  pub no_backslash : Lacks (codes "%5c") (to_lower host.lower parsed.escaped_path)
  pub query : HasCleanQuery host parsed.raw_query
  pub result : IsPathOf parsed t

-- The candidate is short, clean, and not escaped twice.
pub record IsPlain (host : Host) (candidate : Text) : Type 0 where
  pub short : byte_len candidate ≤ 2048
  pub clean : IsClean candidate
  pub once : Lacks (codes "%25") (to_lower host.lower candidate)

empty_eq : (t : Text) → is_empty t ≡ true → t ≡ []
empty_eq [] h = refl
empty_eq (c ∷ t) h = ground arith

prefix_rest : (t p : Text) → has_prefix t p ≡ true → (rest : Text) × (t ≡ p ++ rest)
prefix_rest t [] h = (t, refl)
prefix_rest [] (d ∷ p) h = cc
prefix_rest (c ∷ t) (d ∷ p) h =
    let (rest, e) = prefix_rest t p (ground arith) in let same : c ≡ d = ground arith in (rest, cc)

protected-IsPortal : (path : Text) → is_protected_portal_path path ≡ true → IsPortal path
unfolding is_protected_portal_path
protected-IsPortal path h = elim (Bool-cases (path =ₜ codes "/mail")) [
  | inl e ↦ inl (=ₜ→eq path _ e)
  | inr a ↦ elim (Bool-cases (has_prefix path (codes "/mail/"))) [
    | inl e ↦ inr (inl (prefix_rest path (codes "/mail/") e))
    | inr b ↦ elim (Bool-cases (path =ₜ codes "/admin")) [
      | inl e ↦ inr (inr (inl (=ₜ→eq path _ e)))
      | inr c ↦ inr (inr (inr (prefix_rest path (codes "/admin/") (ground (arith, h, a, b, c)))))
    ]
  ]
]

contains-IsClean :
    (t : Text)
    → all (λ c. not (is_control c)) t ≡ true
    → contains t (codes "\\") ≡ false
    → IsClean t
unfolding contains
contains-IsClean [] p f = tt
contains-IsClean (c ∷ t) p f =
    ((ground arith, λ e. ground (arith, e)), contains-IsClean t (ground arith) (ground arith))

has_prefix-append : (p b : Text) → has_prefix (p ++ b) p ≡ true
has_prefix-append [] b = refl
has_prefix-append (d ∷ p) b = ground (arith, has_prefix-append p b)

contains_front : (t p : Text) → has_prefix t p ≡ true → contains t p ≡ true
unfolding contains
contains_front [] p h = h
contains_front (c ∷ t) p h = ground arith

contains-append : (a p b : Text) → contains (a ++ p ++ b) p ≡ true
unfolding contains
contains-append [] p b = contains_front (p ++ b) p (has_prefix-append p b)
contains-append (c ∷ a) p b = ground (arith, contains-append a p b)

contains-Lacks : (t p : Text) → contains t p ≡ false → Lacks p t
contains-Lacks t p h a b e = ground (arith, ap (λ x. contains x p) e, contains-append a p b, h)

query-HasCleanQuery :
    (host : Host) (raw_query : Text) (decoded : Option Text)
    → host.query_unescape raw_query ≡ decoded
    → (not (is_empty raw_query) && bad_query decoded) ≡ false
    → HasCleanQuery host raw_query
unfolding bad_query has_control_character
query-HasCleanQuery host [] decoded d h = inl refl
query-HasCleanQuery host (c ∷ q) none d h = cc
query-HasCleanQuery host (c ∷ q) (some t) d h =
    inr (t, d, contains-IsClean t (ground arith) (ground arith))

with_query-IsPathOf :
    (parsed : RequestUri) (q : Text) → parsed.raw_query ≡ q → IsPathOf parsed (with_query parsed)
unfolding with_query
with_query-IsPathOf parsed [] e = inl (e, rw e refl)
with_query-IsPathOf parsed (c ∷ q) e = inr ((λ n. ground (arith, e, n)), rw e refl)

normalize_parsed-IsSafe :
    (host : Host) (parsed : RequestUri) (t : Text)
    → normalize_parsed host (some parsed) ≡ ok t
    → IsSafe host parsed t
unfolding normalize_parsed has_control_character
normalize_parsed-IsSafe host parsed t e =
    let made : t ≡ with_query parsed = ground arith in
    record {
      relative = ground arith;
      no_host = empty_eq parsed.host (ground arith);
      no_opaque = empty_eq parsed.opaque (ground arith);
      no_fragment = empty_eq parsed.fragment (ground arith);
      portal = protected-IsPortal parsed.path (ground arith);
      canonical = =ₜ→eq (host.clean parsed.path) parsed.path (ground arith);
      clean = contains-IsClean parsed.path (ground arith) (ground arith);
      no_slash = contains-Lacks _ _ (ground arith);
      no_backslash = contains-Lacks _ _ (ground arith);
      query = query-HasCleanQuery host parsed.raw_query _ refl (ground arith);
      result = rw made (with_query-IsPathOf parsed _ refl);
    }

-- The URI of an accepted candidate.
normalized_uri :
    (host : Host) (candidate t : Text) (found : Option RequestUri)
    → host.parse_request_uri candidate ≡ found
    → normalize_parsed host found ≡ ok t
    → (parsed : RequestUri) × (host.parse_request_uri candidate ≡ some parsed)
      × IsSafe host parsed t
unfolding normalize_parsed
normalized_uri host candidate t none f e = absurd (ground arith)
normalized_uri host candidate t (some parsed) f e =
    (parsed, f, normalize_parsed-IsSafe host parsed t e)

reaches_parse :
    (host : Host) (candidate t : Text)
    → normalize_return_path host candidate ≡ ok t
    → normalize_parsed host (host.parse_request_uri candidate) ≡ ok t
unfolding normalize_return_path
reaches_parse host candidate t e = ground arith

accepted-IsPlain :
    (host : Host) (candidate t : Text)
    → normalize_return_path host candidate ≡ ok t
    → IsPlain host candidate
unfolding normalize_return_path has_control_character
accepted-IsPlain host candidate t e = record {
  short = ground arith;
  clean = contains-IsClean candidate (ground arith) (ground arith);
  once = contains-Lacks _ _ (ground arith);
}

-- An accepted return path has at most 2048 bytes, no control character, no backslash and no doubled
-- escape, and parses to a URI with no scheme, host, opaque part or fragment. Its path is `/mail`,
-- `/admin`, or lies below `/mail/` or `/admin/`, and is canonical and free of control characters,
-- backslashes and escaped slashes and backslashes; its query, if there is one, unescapes to a text without
-- control characters and backslashes. The result is the escaped path with that query.
pub normalize_return_path-IsSafe :
    (host : Host) (candidate t : Text)
    → normalize_return_path host candidate ≡ ok t
    → IsPlain host candidate
      × (parsed : RequestUri) × (host.parse_request_uri candidate ≡ some parsed)
      × IsSafe host parsed t
normalize_return_path-IsSafe host candidate t e =
    let (parsed, found, safe) =
      normalized_uri host candidate t (host.parse_request_uri candidate) refl
        (reaches_parse host candidate t e) in
    (accepted-IsPlain host candidate t e, parsed, found, safe)
