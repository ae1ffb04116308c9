-- ===== src/Stalwart/Mail.antt =====
-- src/backend/internal/mailcore/read.go, and the objects of mailcore/stalwart/read_adapter.go: what is
-- read of a mailbox.
use mail_suite.Base.{Text, Bool, Option, List}
use mail_suite.Base.Int.{ℤ}
use mail_suite.Stalwart.Tokens.{ReadScope}

pub record MailAddress : Type 0 where
  pub name : Text
  pub email : Text

pub record MessageSummary : Type 0 where
  pub id : Text
  pub received_at : ℤ
  pub from : List MailAddress
  pub subject : Text
  pub preview : Text
  pub size : ℤ
  pub has_attachment : Bool

pub record ListMessagesQuery : Type 0 where
  pub scope : ReadScope
  pub limit : ℤ
  pub cursor : Text

pub record MessagePage : Type 0 where
  pub messages : List MessageSummary
  pub next_cursor : Text

pub record MessageAttachment : Type 0 where
  pub name : Text
  pub media_type : Text
  pub size : ℤ
  pub reference : Text

pub record MessageDetail : Type 0 where
  pub summary : MessageSummary
  pub to : List MailAddress
  pub cc : List MailAddress
  pub text : Text
  pub text_truncated : Bool
  pub has_html : Bool
  pub attachments : List MessageAttachment

pub record EmailBodyPart : Type 0 where
  pub part_id : Text
  pub blob_id : Text
  pub name : Text
  pub media_type : Text
  pub size : ℤ

pub record BodyValue : Type 0 where
  pub value : Text
  pub is_truncated : Bool

-- The map of body values by its entries.
pub record EmailObject : Type 0 where
  pub id : Text
  pub received_at : Text
  pub from : List MailAddress
  pub to : List MailAddress
  pub cc : List MailAddress
  pub subject : Text
  pub preview : Text
  pub size : ℤ
  pub has_attachment : Bool
  pub text_body : List EmailBodyPart
  pub html_body : List EmailBodyPart
  pub body_values : Text → Option BodyValue
  pub attachments : List EmailBodyPart

-- The answers to `Email/query` and `Email/get`.
pub record EmailPage : Type 0 where
  pub ids : List Text
  pub query_state : Text
  pub position : ℤ

pub record EmailList : Type 0 where
  pub list : List EmailObject
  pub not_found : List Text
