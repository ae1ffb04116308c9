-- ===== src/Stalwart/Uncertain.antt =====
-- How the loss of an answer to a write is classed.
use mail_suite.Base.{
  ℕ, zero, suc, ◌+◌, ◌≤◌, ◌<◌, ◌≡◌, refl, ap, ◌⊎◌, inl, inr, Text, codes, Bool, true, false, ◌||◌,
  Option, none, some, [], ◌∷◌, length, arith, ltb, leb, ◌==◌, Bool-cases, if◌then◌else◌,
}
use mail_suite.Errors.{ErrorClass, unknown, Error, Result, ok, fail}
use mail_suite.Mailcore.{classify_error, classify_cause, valid_error_class, new_error}
use mail_suite.Operation.World.{Context}
use mail_suite.Stalwart.{
  failure, uncertain_class, IoFailure, read_timeout_error, transport_error, status_error,
  error_code_unavailable, error_code_protocol_invalid,
}
use mail_suite.Stalwart.World.{
  Bytes, post, Arguments, Request, HttpAnswer, unsendable, no_response, response, sent, History,
  World, Adapter, Run, continue,
}
use mail_suite.Stalwart.Contract.{fail_injective}
use mail_suite.Stalwart.Call.{
  maximum_response_bytes, limit, decoded, read_encoded, read_error, read_body, refusal, read_answer,
  request_json_as, call_as, call,
}

abbrev pub class_of : Error → ErrorClass
class_of e = (classify_error (some e)).0

-- A body that does not give a value: its reading fails, it is empty or too long, or it does not decode.
abbrev pub IsUnreadable : {A : Type 0} → (Bytes → Option A) → Bytes → Option IoFailure → Type 0
IsUnreadable decode body err =
    ((f : IoFailure) × (err ≡ some f))
    ⊎ (body ≡ [])
    ⊎ (1048576 < length body)
    ⊎ (length body ≤ 1048576) × (decode body ≡ none)

-- What ends a request without a word of the server on whether it did what was asked: no response, a
-- failure of the server, or a success whose body is unreadable.
abbrev pub IsLost : {A : Type 0} → (Bytes → Option A) → HttpAnswer → Type 0
IsLost decode unsendable = ⊥
IsLost decode (no_response f) = Unit
IsLost decode (response status body err) =
    (500 ≤ status) ⊎ (200 ≤ status) × (status < 300) × IsUnreadable decode body err

-- The result is an error of the class `unknown`.
abbrev pub IsUnknown : {A : Type 0} → Result A → Type 0
IsUnknown r = (e : Error) × (r ≡ fail e) × (class_of e ≡ unknown)

uncertain-unknown : (code : Text) → class_of (failure (uncertain_class true) code) ≡ unknown
unfolding classify_error classify_cause uncertain_class new_error valid_error_class
uncertain-unknown code = ground arith

status-unknown : (status : ℕ) → 500 ≤ status → class_of (status_error status true) ≡ unknown
unfolding status_error uncertain_class
status-unknown status h = ground (arith, uncertain-unknown error_code_unavailable)

limit_short : (n : ℕ) (body : Bytes) → length body ≤ n → limit n body ≡ body
unfolding limit
limit_short zero [] h = refl
limit_short zero (b ∷ body) h = absurd (omega (arith, h))
limit_short (suc n) [] h = refl
limit_short (suc n) (b ∷ body) h = ap (λ t. b ∷ t) (limit_short n body (omega (arith, h)))

length-limit : (n : ℕ) (body : Bytes) → n ≤ length body → length (limit n body) ≡ n
unfolding limit
length-limit zero body h = refl
length-limit (suc n) [] h = absurd (omega (arith, h))
length-limit (suc n) (b ∷ body) h = omega (arith, length-limit n body (omega (arith, h)))

-- What `requestJSONAs` refuses of what it read.
abbrev Refused : {A : Type 0} → (Bytes → Option A) → Bytes → Option IoFailure → Type 0
Refused decode encoded err =
    ((f : IoFailure) × (err ≡ some f))
    ⊎ (length encoded ≡ 0)
    ⊎ (maximum_response_bytes < length encoded)
    ⊎ (decode encoded ≡ none)

either_way : {A : Type 0} (c : Bool) (a : A) → (if c then a else a) ≡ a
either_way true a = refl
either_way false a = refl

-- No error of a write is a timeout.
write_timeout : (c : Option Error) (err : Option IoFailure) → read_timeout_error c err true ≡ none
unfolding read_timeout_error
write_timeout c none = refl
write_timeout c (some f) = refl

-- An error ends the call.
continue_fail :
    {A B : Type 0} (r : Result A × History) (f : A → Run B) (e : Error)
    → r.0 ≡ fail e
    → (continue r f).0 ≡ fail e
continue_fail (ok a, h) f e q = cc
continue_fail {A = A} (fail d, h) f e q = ap fail (fail_injective {A = A} d e q)

module _ {A : Type 0} (decode : Bytes → Option A) where
  long_refused :
      (invalid : Error) (err : Option IoFailure) (encoded : Bytes)
      → maximum_response_bytes < length encoded
      → read_encoded decode invalid none (read_error encoded err) encoded ≡ fail invalid
  unfolding read_encoded read_error
  long_refused invalid err encoded long =
      let over : ltb maximum_response_bytes (length encoded) ≡ true = ground arith in
      rw over (ground arith)

  short_refused :
      (invalid : Error) (err : Option IoFailure) (encoded : Bytes)
      → ltb maximum_response_bytes (length encoded) ≡ false
      → Refused decode encoded err
      → read_encoded decode invalid none (read_error encoded err) encoded ≡ fail invalid
  unfolding read_encoded read_error decoded
  short_refused invalid (some f) encoded short r = rw short refl
  short_refused invalid none encoded short (inl failed) = cc
  short_refused invalid none encoded short (inr (inl empty)) = rw (short, empty) refl
  short_refused invalid none encoded short (inr (inr (inl long))) = absurd (ground arith)
  short_refused invalid none encoded short (inr (inr (inr none_there))) =
      rw (short, none_there)
        (either_way (length encoded == 0 || ltb maximum_response_bytes (length encoded)) _)

  encoded_refused :
      (invalid : Error) (err : Option IoFailure) (encoded : Bytes)
      → Refused decode encoded err
      → read_encoded decode invalid none (read_error encoded err) encoded ≡ fail invalid
  encoded_refused invalid err encoded r =
      elim (Bool-cases (ltb maximum_response_bytes (length encoded))) [
        | inl long ↦ long_refused invalid err encoded (ground arith)
        | inr short ↦ short_refused invalid err encoded short r
      ]

  limited-Refused :
      (body : Bytes) (err : Option IoFailure)
      → IsUnreadable decode body err
      → Refused decode (limit (maximum_response_bytes + 1) body) err
  limited-Refused body err (inl failed) = inl failed
  limited-Refused body err (inr (inl empty)) =
      inr (inl (rw empty (ap length (limit_short (maximum_response_bytes + 1) [] (omega arith)))))
  limited-Refused body err (inr (inr (inl long))) = inr (
      inr
        (inl (omega (arith, length-limit (maximum_response_bytes + 1) body (omega (arith, long))))))
  limited-Refused body err (inr (inr (inr (short, undecoded)))) = inr (
      inr
        (inr (rw (limit_short (maximum_response_bytes + 1) body (omega (arith, short))) undecoded)))

  body-IsUnknown :
      (c : Option Error) (body : Bytes) (err : Option IoFailure)
      → IsUnreadable decode body err
      → IsUnknown (read_body decode c body err true)
  unfolding read_body
  body-IsUnknown c body err u =
      rw (write_timeout c (read_error (limit (maximum_response_bytes + 1) body) err)) (
        _,
        encoded_refused _ err _ (limited-Refused body err u),
        uncertain-unknown error_code_protocol_invalid,
      )

  success_status :
      (status : ℕ) → 200 ≤ status → status < 300 → (ltb status 200 || leb 300 status) ≡ false
  success_status status low high = ground arith

  failed_status : (status : ℕ) → 500 ≤ status → (ltb status 200 || leb 300 status) ≡ true
  failed_status status h = ground arith

  answer-IsUnknown :
      (c : Option Error) (a : HttpAnswer)
      → ((e : Error) → c ≡ some e → class_of e ≡ unknown)
      → IsLost decode a
      → IsUnknown (read_answer decode c true a)
  unfolding read_answer refusal transport_error read_timeout_error
  answer-IsUnknown c unsendable h l = absurd l
  answer-IsUnknown none (no_response f) h l = (_, refl, uncertain-unknown error_code_unavailable)
  answer-IsUnknown (some e) (no_response f) h l = (_, refl, h e refl)
  answer-IsUnknown c (response status body err) h (inl broken) =
      rw (failed_status status broken) (_, refl, status-unknown status broken)
  answer-IsUnknown c (response status body err) h (inr (low, high, unread)) =
      rw (success_status status low high) (body-IsUnknown c body err unread)

-- The request of a write.
abbrev pub write_request : Adapter → Text → Text → Arguments → Request
write_request adapter api_path method_name arguments = record {
  http_method = post;
  path = api_path;
  username = adapter.admin_username;
  password = adapter.admin_password;
  body = some (record {
    using = codes "urn:ietf:params:jmap:core" ∷ codes "urn:stalwart:jmap" ∷ [];
    method_name = method_name;
    arguments = arguments;
  });
}

-- A write to which there is no response, a status of 500 or more, or a success whose body cannot be read,
-- is empty, has more than 1048576 bytes or is no JMAP envelope in JSON, fails with an error of the class
-- `unknown`: where an error of the context itself is of that class, as Go's two are. An envelope that is
-- read but does not have the one method response expected is not among these.
pub lost_writes_unknown :
    {A : Type 0} (w : World) (adapter : Adapter) (decode : Bytes → Option A) (ctx : Context)
    (api_path method_name : Text) (arguments : Arguments) (h : History)
    → ((k : History) (d : Error) → w.ctx_err k ctx ≡ some d → class_of d ≡ unknown)
    → IsLost w.json.method_responses
        (w.answer h ctx (write_request adapter api_path method_name arguments))
    → IsUnknown (call w adapter decode ctx api_path method_name arguments true h).0
unfolding call call_as request_json_as
lost_writes_unknown w adapter decode ctx api_path method_name arguments h context lost =
    let request : Request = write_request adapter api_path method_name arguments in
    let (e, failed, class) =
      answer-IsUnknown w.json.method_responses (w.ctx_err (sent ctx request ∷ h) ctx)
        (w.answer h ctx request) (context _) lost in
    (e, continue_fail _ _ e failed, class)
