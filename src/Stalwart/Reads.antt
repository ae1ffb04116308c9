-- ===== src/Stalwart/Reads.antt =====
-- The contract of the adapter's requests: how they fail, and what they send.
use mail_suite.Base.{
  ◌+◌, Text, ◌≡◌, refl, inl, inr, Bool, true, false, Option, none, some, List, [], ◌∷◌,
  if◌then◌else◌,
}
use mail_suite.Errors.{Error, Result, ok, fail}
use mail_suite.Operation.World.{Context}
use mail_suite.Stalwart.{protocol_error, transport_error, IoFailure, DomainObject, AccountObject}
use mail_suite.Stalwart.World.{
  Bytes, Url, HttpAnswer, unsendable, no_response, response, History, World, Adapter,
}
use mail_suite.Stalwart.Call.{
  maximum_response_bytes, limit, read_body, read_answer, read_parts, read_response, decoded,
  read_encoded, read_error, refusal, method_error, read_triple, own_path, only_domain, only_account,
}
use mail_suite.Stalwart.Contract.{
  is_own, IsStable, own_configuration, own_protocol, own_invalid, own_unavailable, status_error-own,
  classify_method_error-own, read_timeout_error-own,
}

-- Each error of a result satisfies `E`.
pub data Fails {A : Type 0} (E : Error → Type 0) : Result A → Type 0 where
  passed : {a : A} → Fails E (ok a)
  failed : {e : Error} → E e → Fails E (fail e)

abbrev pub Own : Error → Type 0
Own e = is_own e ≡ true

pub Fails-if :
    {A : Type 0} (E : Error → Type 0) (c : Bool) (r s : Result A)
    → Fails E r
    → Fails E s
    → Fails E (if c then r else s)
Fails-if E true r s hr hs = hr
Fails-if E false r s hr hs = hs

pub decoded-Own : {A : Type 0} (e : Error) (o : Option A) → Own e → Fails Own (decoded e o)
unfolding decoded
decoded-Own e none h = failed h
decoded-Own e (some a) h = passed

read_encoded-Own :
    {A : Type 0} (decode : Bytes → Option A) (invalid : Error) (timeout : Option Error)
    (err : Option IoFailure) (encoded : Bytes)
    → Own invalid
    → ((e : Error) → timeout ≡ some e → Own e)
    → Fails Own (read_encoded decode invalid timeout err encoded)
unfolding read_encoded
read_encoded-Own decode invalid (some t) err encoded own late = failed (late t refl)
read_encoded-Own decode invalid none (some e) encoded own late = failed own
read_encoded-Own decode invalid none none encoded own late =
    Fails-if Own _ _ _ (failed own) (decoded-Own invalid _ own)

read_body-Own :
    {A : Type 0} (decode : Bytes → Option A) (c : Option Error) (body : Bytes)
    (err : Option IoFailure) (mutation : Bool)
    → Fails Own (read_body decode c body err mutation)
unfolding read_body
read_body-Own decode c body err mutation =
    read_encoded-Own decode _ _ _ _ (own_invalid mutation)
      (read_timeout_error-own c (read_error (limit (maximum_response_bytes + 1) body) err) mutation)

refusal-Stable :
    (w : World) (h : History) (ctx : Context) (timeout c : Option Error) (mutation : Bool)
    → w.ctx_err h ctx ≡ c
    → ((e : Error) → timeout ≡ some e → Own e)
    → IsStable w (refusal timeout c mutation)
unfolding refusal transport_error
refusal-Stable w h ctx (some t) c mutation here late = inl (late t refl)
refusal-Stable w h ctx none none mutation here late = inl (own_unavailable mutation)
refusal-Stable w h ctx none (some e) mutation here late = inr (h, ctx, here)

weaken : {A : Type 0} (w : World) (r : Result A) → Fails Own r → Fails (IsStable w) r
weaken w (ok a) h = passed
weaken w (fail e) (failed h) = failed (inl h)

pub read_answer-Stable :
    {A : Type 0} (w : World) (decode : Bytes → Option A) (h : History) (ctx : Context)
    (mutation : Bool) (a : HttpAnswer)
    → Fails (IsStable w) (read_answer decode (w.ctx_err h ctx) mutation a)
unfolding read_answer
read_answer-Stable w decode h ctx mutation unsendable = failed (inl own_configuration)
read_answer-Stable w decode h ctx mutation (no_response f) = failed (
    refusal-Stable w h ctx _ _ mutation refl
      (read_timeout_error-own (w.ctx_err h ctx) (some f) mutation))
read_answer-Stable w decode h ctx mutation (response status body err) =
    Fails-if (IsStable w) _ _ _ (failed (inl (status_error-own status mutation)))
      (weaken w _ (read_body-Own decode (w.ctx_err h ctx) body err mutation))

method_error-Own : (t : Option Text) (mutation : Bool) → Own (method_error t mutation)
unfolding method_error
method_error-Own none mutation = own_protocol
method_error-Own (some t) mutation = classify_method_error-own t mutation

read_parts-Own :
    {A : Type 0} (decode : Bytes → Option A) (method_name : Text) (mutation : Bool)
    (name call_id t : Option Text) (value : Bytes)
    → Fails Own (read_parts decode method_name mutation name call_id t value)
unfolding read_parts
read_parts-Own decode method_name mutation none call_id t value = failed own_protocol
read_parts-Own decode method_name mutation (some name) none t value = failed own_protocol
read_parts-Own decode method_name mutation (some name) (some call_id) t value =
    Fails-if Own _ _ _ (failed own_protocol) (
      Fails-if Own _ _ _ (failed (method_error-Own t mutation))
        (Fails-if Own _ _ _ (failed own_protocol) (decoded-Own protocol_error _ own_protocol)))

module _ (w : World) (adapter : Adapter) where
  read_triple-Own :
      {A : Type 0} (decode : Bytes → Option A) (method_name : Text) (mutation : Bool)
      (parts : Option (List Bytes))
      → Fails Own (read_triple w adapter decode method_name mutation parts)
  unfolding read_triple
  read_triple-Own decode method_name mutation none = failed own_protocol
  read_triple-Own decode method_name mutation (some []) = failed own_protocol
  read_triple-Own decode method_name mutation (some (a ∷ [])) = failed own_protocol
  read_triple-Own decode method_name mutation (some (a ∷ b ∷ [])) = failed own_protocol
  read_triple-Own decode method_name mutation (some (a ∷ b ∷ c ∷ [])) =
      read_parts-Own decode method_name mutation (w.json.text a) (w.json.text c)
        (w.json.error_type b) b
  read_triple-Own decode method_name mutation (some (a ∷ b ∷ c ∷ d ∷ rest)) = failed own_protocol

  pub read_response-Own :
      {A : Type 0} (decode : Bytes → Option A) (method_name : Text) (mutation : Bool)
      (envelope : List Bytes)
      → Fails Own (read_response w adapter decode method_name mutation envelope)
  unfolding read_response
  read_response-Own decode method_name mutation [] = failed own_protocol
  read_response-Own decode method_name mutation (raw ∷ []) =
      read_triple-Own decode method_name mutation (w.json.parts raw)
  read_response-Own decode method_name mutation (raw ∷ other ∷ rest) = failed own_protocol

  pub own_path-Own : (url : Option Url) → Fails Own (own_path w adapter url)
  unfolding own_path
  own_path-Own none = failed own_protocol
  own_path-Own (some url) = Fails-if Own _ _ _ (failed own_protocol) passed

  pub only_domain-Own :
      (name : Text) (ds : List DomainObject) → Fails Own (only_domain w adapter name ds)
  unfolding only_domain
  only_domain-Own name [] = failed own_protocol
  only_domain-Own name (d ∷ []) = Fails-if Own _ _ _ (failed own_protocol) passed
  only_domain-Own name (d ∷ e ∷ ds) = failed own_protocol

  pub only_account-Own :
      (local_part domain_id : Text) (accounts : List AccountObject)
      → Fails Own (only_account w adapter local_part domain_id accounts)
  unfolding only_account
  only_account-Own local_part domain_id [] = failed own_protocol
  only_account-Own local_part domain_id (a ∷ []) = Fails-if Own _ _ _ (failed own_protocol) passed
  only_account-Own local_part domain_id (a ∷ b ∷ rest) = failed own_protocol
