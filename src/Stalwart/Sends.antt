-- ===== src/Stalwart/Sends.antt =====
-- The contract of the adapter's lookups: how they fail, and what they send.
use mail_suite.Base.{Text, inl, Bool, false, Option, List, [], ◌∷◌}
use mail_suite.Errors.{Result, ok, fail}
use mail_suite.Operation.World.{Context}
use mail_suite.Stalwart.World.{Bytes, Arguments, Request, sent, History, World, Adapter, lift}
use mail_suite.Stalwart.Call.{
  request_json_as, call_as, call, read_session, fetch_session, named, query_ids, read_list,
  read_objects, domain_of_ids, find_domain, account_of_ids, find_account,
}
use mail_suite.Stalwart.Contract.{
  IsStable, Writes, IsAllowed, Since, next, Ends, ended, broken, continue-Ends, own_protocol,
}
use mail_suite.Stalwart.Reads.{
  Fails, passed, failed, Own, Fails-if, decoded-Own, read_answer-Stable, read_response-Own,
  own_path-Own, only_domain-Own, only_account-Own,
}

abbrev pub Any : {A : Type 0} → A → Type 0
Any a = Unit

module _ (w : World) (adapter : Adapter) (W : Text → Type 0) (start : History) where
  -- The contract that all runs share.
  abbrev pub Fits : {A : Type 0} → Result A × History → Type 0
  Fits r = Ends Any (IsStable w) (Since W start) r

  pub lift-Fits :
      {A : Type 0} (r : Result A) (h : History) → Fails Own r → Since W start h → Fits (lift r h)
  lift-Fits (ok a) h p s = ended tt s
  lift-Fits (fail e) h (failed p) s = broken (inl p) s

  answer-Fits :
      {A : Type 0} (r : Result A) (h : History)
      → Fails (IsStable w) r
      → Since W start h
      → Fits (r, h)
  answer-Fits (ok a) h p s = ended tt s
  answer-Fits (fail e) h (failed p) s = broken p s

  pub request-Fits :
      {A : Type 0} (decode : Bytes → Option A) (ctx : Context) (mutation : Bool) (request : Request)
      (h : History)
      → IsAllowed W (sent ctx request)
      → Since W start h
      → Fits (request_json_as w adapter decode ctx mutation request h)
  unfolding request_json_as
  request-Fits decode ctx mutation request h allowed s =
      answer-Fits _ _ (read_answer-Stable w decode (sent ctx request ∷ h) ctx mutation _)
        (next allowed s)

  pub call-Fits :
      {A : Type 0} (decode : Bytes → Option A) (ctx : Context) (api_path method_name : Text)
      (arguments : Arguments) (mutation : Bool) (h : History)
      → Writes W arguments
      → Since W start h
      → Fits (call w adapter decode ctx api_path method_name arguments mutation h)
  unfolding call call_as
  call-Fits decode ctx api_path method_name arguments mutation h allowed s =
      continue-Ends _ _ (request-Fits _ ctx mutation _ h allowed s) λ envelope k _ s'.
        lift-Fits _ k (read_response-Own w adapter decode method_name mutation envelope) s'

  pub fetch_session-Fits :
      (ctx : Context) (h : History) → Since W start h → Fits (fetch_session w adapter ctx h)
  unfolding fetch_session read_session
  fetch_session-Fits ctx h s = continue-Ends _ _ (request-Fits _ ctx false _ h tt s) λ r k _ s'.
      lift-Fits _ k (Fails-if Own _ _ _ (failed own_protocol) (own_path-Own w adapter _)) s'

  pub query_ids-Fits :
      (ctx : Context) (api_path object_name : Text) (filter : Arguments) (h : History)
      → Writes W filter
      → Since W start h
      → Fits (query_ids w adapter ctx api_path object_name filter h)
  unfolding query_ids named
  query_ids-Fits ctx api_path object_name filter h allowed s =
      continue-Ends _ _ (call-Fits _ ctx api_path _ filter false h allowed s)
        λ ids k _ s'. lift-Fits _ k (Fails-if Own _ _ _ passed (failed own_protocol)) s'

  pub read_objects-Fits :
      {A : Type 0} (decode : Bytes → Option A) (ctx : Context) (api_path object_name : Text)
      (ids properties : List Text) (h : History)
      → Since W start h
      → Fits (read_objects w adapter decode ctx api_path object_name ids properties h)
  unfolding read_objects read_list
  read_objects-Fits decode ctx api_path object_name ids properties h s =
      continue-Ends _ _ (call-Fits _ ctx api_path _ _ false h tt s) λ raw k _ s'.
        lift-Fits _ k (Fails-if Own _ _ _ (failed own_protocol) (decoded-Own _ _ own_protocol)) s'

  domain_of_ids-Fits :
      (ctx : Context) (api_path name : Text) (ids : List Text) (h : History)
      → Since W start h
      → Fits (domain_of_ids w adapter ctx api_path name ids h)
  unfolding domain_of_ids
  domain_of_ids-Fits ctx api_path name [] h s = ended tt s
  domain_of_ids-Fits ctx api_path name (id ∷ []) h s =
      continue-Ends _ _ (read_objects-Fits _ ctx api_path _ _ _ h s)
        λ ds k _ s'. lift-Fits _ k (only_domain-Own w adapter name ds) s'
  domain_of_ids-Fits ctx api_path name (id ∷ other ∷ ids) h s = broken (inl own_protocol) s

  pub find_domain-Fits :
      (ctx : Context) (api_path name : Text) (h : History)
      → Since W start h
      → Fits (find_domain w adapter ctx api_path name h)
  unfolding find_domain
  find_domain-Fits ctx api_path name h s =
      continue-Ends _ _ (query_ids-Fits ctx api_path _ _ h tt s)
        λ ids k _ s'. domain_of_ids-Fits ctx api_path name ids k s'

  account_of_ids-Fits :
      (ctx : Context) (api_path local_part domain_id : Text) (ids : List Text) (h : History)
      → Since W start h
      → Fits (account_of_ids w adapter ctx api_path local_part domain_id ids h)
  unfolding account_of_ids
  account_of_ids-Fits ctx api_path local_part domain_id [] h s = ended tt s
  account_of_ids-Fits ctx api_path local_part domain_id (id ∷ []) h s =
      continue-Ends _ _ (read_objects-Fits _ ctx api_path _ _ _ h s) λ accounts k _ s'.
        lift-Fits _ k (only_account-Own w adapter local_part domain_id accounts) s'
  account_of_ids-Fits ctx api_path local_part domain_id (id ∷ other ∷ ids) h s =
      broken (inl own_protocol) s

  pub find_account-Fits :
      (ctx : Context) (api_path local_part domain_id : Text) (h : History)
      → Since W start h
      → Fits (find_account w adapter ctx api_path local_part domain_id h)
  unfolding find_account
  find_account-Fits ctx api_path local_part domain_id h s =
      continue-Ends _ _ (query_ids-Fits ctx api_path _ _ h tt s)
        λ ids k _ s'. account_of_ids-Fits ctx api_path local_part domain_id ids k s'
