-- ===== src/Mailcore/Classify.antt =====
-- What a worker may rely on when it stores the classification of an adapter's error.
use mail_suite.Base.{◌≡◌, refl, true, some, arith}
use mail_suite.Errors.{Cause, Error, cause_of}
use mail_suite.Mailcore.{
  matches_error_code, valid_error_class, classify_cause, classify_error, error_code_unknown,
}

pub unknown_code_matches : matches_error_code error_code_unknown ≡ true
unfolding matches_error_code
unknown_code_matches = refl

classify_cause_stable :
    (c : Cause)
    → (valid_error_class (classify_cause c).0 ≡ true)
      × (matches_error_code (classify_cause c).1 ≡ true)
unfolding classify_cause
classify_cause_stable c = ground (arith, unknown_code_matches)

-- Whatever error an adapter returns, wrapped or not, its class is one of the three classes and its
-- code has the stored form: no address or response text gets into the ledger.
pub classify_error_stable :
    (e : Error)
    → (valid_error_class (classify_error (some e)).0 ≡ true)
      × (matches_error_code (classify_error (some e)).1 ≡ true)
unfolding classify_error
classify_error_stable e = classify_cause_stable (cause_of e)
