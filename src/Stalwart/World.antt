-- ===== src/Stalwart/World.antt =====
-- What surrounds the adapter: the server behind its HTTP client, the contexts and the clock, as
-- functions of what was called before, and the readings of JSON and URLs by Go's library.
use mail_suite.Base.{ℕ, Text, Bool, Option, List}
use mail_suite.Base.Int.{ℤ}
use mail_suite.Errors.{Error, Result, ok, fail}
use mail_suite.Operation.World.{Context}
use mail_suite.Stalwart.{IoFailure, DomainObject, AccountObject, SetResult}
use mail_suite.Stalwart.Metadata.{UuidText, Derivation}
use mail_suite.Stalwart.Tokens.{Sealing}
use mail_suite.Stalwart.Mail.{EmailPage, EmailList}

abbrev pub Bytes : Type 0
Bytes = List ℕ

pub data HttpMethod : Type 0 where
  get post : HttpMethod

-- The arguments of the JMAP methods that the adapter calls, by what varies in them. A query asks for
-- two ids and the total.
pub data Arguments : Type 0 where
  any_filter : Arguments
  filter_domain : Text → Arguments
  filter_account : Text → Text → Arguments
  get_objects : List Text → List Text → Arguments
  -- the name, the domain, the description and the secret of the account `mail-suite`
  set_create : Text → Text → Text → Text → Arguments
  -- the account, its description and its secret
  set_update : Text → Text → Text → Arguments
  -- the account, the position and the limit; the newest first
  email_query : Text → ℤ → ℤ → Arguments
  -- the account, the ids and the properties, and whether the text is fetched too
  email_get : Text → List Text → List Text → Bool → Arguments

-- One method call under the call id `c0`.
pub record MethodCall : Type 0 where
  pub using : List Text
  pub method_name : Text
  pub arguments : Arguments

pub record Request : Type 0 where
  pub http_method : HttpMethod
  pub path : Text
  pub username : Text
  pub password : Text
  pub body : Option MethodCall

-- How a request ends: `http.NewRequestWithContext` refuses it, `Do` fails, or a response comes with
-- its status, its body as far as it is there, and the error that reading the body ends in.
pub data HttpAnswer : Type 0 where
  unsendable : HttpAnswer
  no_response : IoFailure → HttpAnswer
  response : ℕ → Bytes → Option IoFailure → HttpAnswer

pub record Url : Type 0 where
  pub scheme : Text
  pub host : Text
  pub has_user : Bool
  pub path : Text
  pub raw_query : Text
  pub fragment : Text

-- The session's `apiUrl`, and whether `urn:ietf:params:jmap:core` is one of its capabilities.
pub record SessionResponse : Type 0 where
  pub api_url : Text
  pub has_core : Bool

-- The session of a mailbox: also whether it has the mail capability, and its primary account for mail,
-- empty if there is none.
pub record MailboxSessionResponse : Type 0 where
  pub api_url : Text
  pub has_core : Bool
  pub has_mail : Bool
  pub mail_account : Text

pub data Event : Type 0 where
  clock_read nonce_drawn : Event
  sent : Context → Request → Event

-- The latest first.
abbrev pub History : Type 0
History = List Event

-- `json.Unmarshal` into each target; a value is bytes within the bytes around it.
pub record Json : Type 0 where
  pub session : Bytes → Option SessionResponse
  pub method_responses : Bytes → Option (List Bytes)
  pub parts : Bytes → Option (List Bytes)
  pub text : Bytes → Option Text
  pub error_type : Bytes → Option Text
  pub ids : Bytes → Option (List Text)
  pub objects : Bytes → Option Bytes
  pub domains : Bytes → Option (List DomainObject)
  pub accounts : Bytes → Option (List AccountObject)
  pub set_result : Bytes → Option SetResult
  pub mailbox_session : Bytes → Option MailboxSessionResponse
  pub email_page : Bytes → Option EmailPage
  pub email_list : Bytes → Option EmailList

pub record World : Type 0 where
  pub now : History → ℤ
  pub ctx_err : History → Context → Option Error
  pub answer : History → Context → Request → HttpAnswer
  pub json : Json
  pub parse_url : Text → Option Url
  pub equal_fold : Text → Text → Bool
  pub lower : ℕ → ℕ
  pub uuids : UuidText
  pub derivation : Derivation
  pub sealing : Sealing
  -- the bytes that reading a nonce gives
  pub random : History → Option Bytes
  -- `time.Parse(time.RFC3339, …)`
  pub parse_time : Text → Option ℤ

-- The fields of `Adapter`; the client's timeout and TLS settings are in how the server answers.
pub record Adapter : Type 0 where
  pub scheme : Text
  pub host : Text
  pub admin_username : Text
  pub admin_password : Text
  pub mailbox_key : Bytes

abbrev pub Run : Type 0 → Type 0
Run A = History → Result A × History

-- `if err != nil { return …, err }` after a call.
abbrev pub continue : {A B : Type 0} → Result A × History → (A → Run B) → Result B × History
continue (ok a, h) f = f a h
continue (fail e, h) f = (fail e, h)

infixl 5 ◌>>=◌
abbrev pub ◌>>=◌ : {A B : Type 0} → Run A → (A → Run B) → Run B
◌>>=◌ m f h = continue (m h) f

abbrev pub lift : {A : Type 0} → Result A → Run A
lift r h = (r, h)
