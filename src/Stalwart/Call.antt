-- ===== src/Stalwart/Call.antt =====
-- The requests of the adapter: one bounded HTTP exchange, one JMAP method call in it, and the queries
-- for a session, a domain and an account.
use mail_suite.Base.{
  ℕ, zero, suc, ◌+◌, Text, codes, Bool, true, false, ◌&&◌, ◌||◌, not, Option, none, some, List, [],
  ◌∷◌, ◌++◌, length, ltb, leb, ◌==◌, ◌=ₜ◌, is_empty, has_prefix, trim_space, if◌then◌else◌,
}
use mail_suite.Errors.{permanent, Error, Result, ok, fail}
use mail_suite.Operation.World.{Context}
use mail_suite.Stalwart.{
  error_code_configuration, error_code_protocol_invalid, failure, IoFailure, uncertain_class,
  protocol_error, read_timeout_error, transport_error, status_error, classify_method_error,
  DomainObject, AccountObject,
}
use mail_suite.Stalwart.World.{
  Bytes, get, post, Arguments, filter_domain, filter_account, get_objects, Request, HttpAnswer,
  unsendable, no_response, response, Url, SessionResponse, sent, World, Adapter, Run, ◌>>=◌, lift,
}

abbrev pub maximum_response_bytes : ℕ
maximum_response_bytes = 1048576

-- `io.LimitReader`, so many bytes at most.
unfoldable pub limit : ℕ → Bytes → Bytes
limit zero body = []
limit (suc n) [] = []
limit (suc n) (b ∷ body) = b ∷ limit n body

-- `if json.Unmarshal(…) != nil { return invalid }`
unfoldable pub decoded : {A : Type 0} → Error → Option A → Result A
decoded invalid none = fail invalid
decoded invalid (some a) = ok a

-- The tests on what was read, in their order: a timeout, another error, the size, and the JSON.
unfoldable pub read_encoded :
    {A : Type 0} → (Bytes → Option A) → Error → Option Error → Option IoFailure → Bytes → Result A
read_encoded decode invalid (some timeout) err encoded = fail timeout
read_encoded decode invalid none (some e) encoded = fail invalid
read_encoded decode invalid none none encoded =
    if length encoded == 0 || ltb maximum_response_bytes (length encoded)
    then fail invalid
    else decoded invalid (decode encoded)

-- The error of a read is met only if the limit is not.
unfoldable pub read_error : Bytes → Option IoFailure → Option IoFailure
read_error encoded err = if ltb maximum_response_bytes (length encoded) then none else err

-- `io.ReadAll(io.LimitReader(response.Body, maximumResponseBytes+1))` and what follows.
unfoldable pub read_body :
    {A : Type 0} → (Bytes → Option A) → Option Error → Bytes → Option IoFailure → Bool → Result A
read_body decode ctx_err body err mutation =
    let encoded : Bytes = limit (maximum_response_bytes + 1) body in
    let read_err : Option IoFailure = read_error encoded err in
    read_encoded decode (failure (uncertain_class mutation) error_code_protocol_invalid)
      (read_timeout_error ctx_err read_err mutation) read_err encoded

-- What `requestJSONAs` returns when `Do` fails.
unfoldable pub refusal : Option Error → Option Error → Bool → Error
refusal (some timeout) ctx_err mutation = timeout
refusal none ctx_err mutation = transport_error ctx_err mutation

-- `requestJSONAs` on the answer of the client.
unfoldable pub read_answer :
    {A : Type 0} → (Bytes → Option A) → Option Error → Bool → HttpAnswer → Result A
read_answer decode ctx_err mutation unsendable = fail (failure permanent error_code_configuration)
read_answer decode ctx_err mutation (no_response f) =
    fail (refusal (read_timeout_error ctx_err (some f) mutation) ctx_err mutation)
read_answer decode ctx_err mutation (response status body err) =
    if ltb status 200 || leb 300 status
    then fail (status_error status mutation)
    else read_body decode ctx_err body err mutation

-- The error of a response that is named `error`.
unfoldable pub method_error : Option Text → Bool → Error
method_error none mutation = protocol_error
method_error (some error_type) mutation = classify_method_error error_type mutation

-- `callAs` on the three parts of a method response.
unfoldable pub read_parts :
    {A : Type 0}
    → (Bytes → Option A)
    → Text
    → Bool
    → Option Text
    → Option Text
    → Option Text
    → Bytes
    → Result A
read_parts decode method_name mutation (some name) (some call_id) error_type value =
    if not (call_id =ₜ codes "c0")
    then fail protocol_error
    else if name =ₜ codes "error"
    then fail (method_error error_type mutation)
    else if not (name =ₜ method_name)
    then fail protocol_error
    else decoded protocol_error (decode value)
read_parts decode method_name mutation _ _ error_type value = fail protocol_error

module _ (w : World) (adapter : Adapter) where
  -- `callAs` on the envelope: one response of three parts.
  unfoldable pub read_triple :
      {A : Type 0} → (Bytes → Option A) → Text → Bool → Option (List Bytes) → Result A
  read_triple decode method_name mutation (some (name ∷ value ∷ call_id ∷ [])) =
      read_parts decode method_name mutation (w.json.text name) (w.json.text call_id)
        (w.json.error_type value) value
  read_triple decode method_name mutation _ = fail protocol_error

  unfoldable pub read_response :
      {A : Type 0} → (Bytes → Option A) → Text → Bool → List Bytes → Result A
  read_response decode method_name mutation (raw ∷ []) =
      read_triple decode method_name mutation (w.json.parts raw)
  read_response decode method_name mutation _ = fail protocol_error

  unfoldable pub request_json_as :
      {A : Type 0} → (Bytes → Option A) → Context → Bool → Request → Run A
  request_json_as decode ctx mutation request h =
      let h' = sent ctx request ∷ h in
      (read_answer decode (w.ctx_err h' ctx) mutation (w.answer h ctx request), h')

  unfoldable pub call_as :
      {A : Type 0}
      → (Bytes → Option A)
      → Context
      → Text
      → Text
      → Arguments
      → Bool
      → Text
      → Text
      → List Text
      → Run A
  call_as decode ctx api_path method_name arguments mutation username password using =
      request_json_as w.json.method_responses ctx mutation (record {
        http_method = post;
        path = api_path;
        username = username;
        password = password;
        body = some (record { using = using; method_name = method_name; arguments = arguments });
      })
      >>= λ envelope. lift (read_response decode method_name mutation envelope)

  unfoldable pub call :
      {A : Type 0} → (Bytes → Option A) → Context → Text → Text → Arguments → Bool → Run A
  call decode ctx api_path method_name arguments mutation =
      call_as decode ctx api_path method_name arguments mutation adapter.admin_username
        adapter.admin_password (codes "urn:ietf:params:jmap:core" ∷ codes "urn:stalwart:jmap" ∷ [])

  -- The tests of `fetchSession` on the parsed `apiUrl`.
  unfoldable pub foreign_url : Url → Bool
  foreign_url url =
      is_empty url.scheme
      || not (url.scheme =ₜ adapter.scheme)
      || not (url.host =ₜ adapter.host)
      || url.has_user
      || not (is_empty url.raw_query)
      || not (is_empty url.fragment)
      || not (has_prefix url.path (codes "/"))

  unfoldable pub own_path : Option Url → Result Text
  own_path none = fail protocol_error
  own_path (some url) = if foreign_url url then fail protocol_error else ok url.path

  unfoldable pub read_session : SessionResponse → Result Text
  read_session r = if not r.has_core then fail protocol_error else own_path (w.parse_url r.api_url)

  -- `fetchSession`: the path of the API.
  unfoldable pub fetch_session : Context → Run Text
  fetch_session ctx =
      request_json_as w.json.session ctx false (record {
        http_method = get;
        path = codes "/jmap/session";
        username = adapter.admin_username;
        password = adapter.admin_password;
        body = none;
      })
      >>= λ r. lift (read_session r)

  -- An id of nothing but spaces is no id.
  unfoldable pub all_named : List Text → Bool
  all_named [] = true
  all_named (id ∷ ids) = not (is_empty (trim_space id)) && all_named ids

  unfoldable pub named : List Text → Result (List Text)
  named ids = if all_named ids then ok ids else fail protocol_error

  unfoldable pub query_ids : Context → Text → Text → Arguments → Run (List Text)
  query_ids ctx api_path object_name filter =
      call w.json.ids ctx api_path (object_name ++ codes "/query") filter false >>= λ ids.
      lift (named ids)

  unfoldable pub read_list : {A : Type 0} → (Bytes → Option A) → Bytes → Result A
  read_list decode raw =
      if length raw == 0 then fail protocol_error else decoded protocol_error (decode raw)

  -- `getObjects`: an absent list has no bytes.
  unfoldable pub read_objects :
      {A : Type 0} → (Bytes → Option A) → Context → Text → Text → List Text → List Text → Run A
  read_objects decode ctx api_path object_name ids properties =
      call w.json.objects ctx api_path (object_name ++ codes "/get") (get_objects ids properties)
        false
      >>= λ raw. lift (read_list decode raw)

  -- The one domain of a list, if its name is the one asked for.
  unfoldable pub only_domain : Text → List DomainObject → Result (Option DomainObject)
  only_domain name (domain ∷ []) =
      if is_empty domain.id || not (w.equal_fold domain.name name)
      then fail protocol_error
      else ok (some domain)
  only_domain name _ = fail protocol_error

  -- `findDomain` on the ids of its query.
  unfoldable pub domain_of_ids : Context → Text → Text → List Text → Run (Option DomainObject)
  domain_of_ids ctx api_path name [] = lift (ok none)
  domain_of_ids ctx api_path name (id ∷ []) =
      read_objects w.json.domains ctx api_path (codes "x:Domain") (id ∷ [])
        (codes "id" ∷ codes "name" ∷ [])
      >>= λ domains. lift (only_domain name domains)
  domain_of_ids ctx api_path name (id ∷ other ∷ ids) = lift (fail protocol_error)

  unfoldable pub find_domain : Context → Text → Text → Run (Option DomainObject)
  find_domain ctx api_path name =
      query_ids ctx api_path (codes "x:Domain") (filter_domain name) >>= λ ids.
      domain_of_ids ctx api_path name ids

  -- The one account of a list, if it is the one asked for.
  unfoldable pub only_account : Text → Text → List AccountObject → Result (Option AccountObject)
  only_account local_part domain_id (account ∷ []) =
      if is_empty account.id
        || not (account.name =ₜ local_part)
        || not (account.domain_id =ₜ domain_id)
      then fail protocol_error
      else ok (some account)
  only_account local_part domain_id _ = fail protocol_error

  -- `findAccount` on the ids of its query.
  unfoldable pub account_of_ids :
      Context → Text → Text → Text → List Text → Run (Option AccountObject)
  account_of_ids ctx api_path local_part domain_id [] = lift (ok none)
  account_of_ids ctx api_path local_part domain_id (id ∷ []) =
      read_objects w.json.accounts ctx api_path (codes "x:Account") (id ∷ [])
        (codes "id" ∷ codes "name" ∷ codes "domainId" ∷ codes "description" ∷ [])
      >>= λ accounts. lift (only_account local_part domain_id accounts)
  account_of_ids ctx api_path local_part domain_id (id ∷ other ∷ ids) = lift (fail protocol_error)

  unfoldable pub find_account : Context → Text → Text → Text → Run (Option AccountObject)
  find_account ctx api_path local_part domain_id =
      query_ids ctx api_path (codes "x:Account") (filter_account local_part domain_id) >>= λ ids.
      account_of_ids ctx api_path local_part domain_id ids
