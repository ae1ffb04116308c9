-- ===== src/Provisioning/Normal.antt =====
-- What `prepareRequest` hands to the repository, and that it is a normal form.
use mail_suite.Base.{
  ℕ, ◌≤◌, ◌<◌, ◌≡◌, refl, ◌≢◌, Text, nil_uuid, true, false, ◌||◌, not, [], ◌∷◌, ◌++◌, arith, ltb,
  ◌==◌, length, byte_len, all, rune_limit, is_control, trim_space, trim_space_idem, to_lower,
  lower_char, sym,
}
use mail_suite.Errors.{ok}
use mail_suite.Provisioning.{
  Host, RequestMailboxCommand, PreparedRequest, is_local_char, is_key_char, matches_all,
  rejects_local_part, rejects_display_name, rejects_idempotency_key, prepare_request,
}
use mail_suite.Provisioning.LocalPart.{
  DotAtom, rejects_local_part_exact, all_local_char-of_accepted,
}

-- A command and the request that was prepared from it.
record Parts (host : Host) (c : RequestMailboxCommand) (p : PreparedRequest) : Type 0 where
  tenant : p.tenant_id ≡ c.tenant_id
  domain : p.domain_id ≡ c.domain_id
  local_part : p.local_part ≡ to_lower host.lower c.local_part
  display_name : p.display_name ≡ trim_space c.display_name
  key : p.idempotency_key ≡ trim_space c.idempotency_key
  hash :
      p.request_hash
      ≡ host.sha256 (
          host.marshal (record {
            domain_id = host.uuid_string p.domain_id;
            local_part = p.local_part;
            display_name = p.display_name;
          }))
  ids : (p.tenant_id == nil_uuid || p.domain_id == nil_uuid) ≡ false
  local_ok : rejects_local_part p.local_part ≡ false
  display_ok : rejects_display_name p.display_name ≡ false
  key_ok : rejects_idempotency_key p.idempotency_key ≡ false

module _ (host : Host) (c : RequestMailboxCommand) (p : PreparedRequest)
    (h : prepare_request host c ≡ ok p) where
  prepared-Parts : Parts host c p
  unfolding prepare_request
  prepared-Parts = ground arith

-- What the repository may rely on.
pub record IsPrepared (host : Host) (p : PreparedRequest) : Type 0 where
  pub tenant : p.tenant_id ≢ nil_uuid
  pub domain : p.domain_id ≢ nil_uuid
  pub local_part : DotAtom p.local_part
  pub local_size : byte_len p.local_part ≤ 64
  pub display_runes : length p.display_name ≤ 128
  pub display_valid : all (λ r. ltb r rune_limit) p.display_name ≡ true
  pub display_clean : all (λ r. not (is_control r)) p.display_name ≡ true
  pub display_trimmed : trim_space p.display_name ≡ p.display_name
  pub key_long : 16 ≤ byte_len p.idempotency_key
  pub key_short : byte_len p.idempotency_key ≤ 128
  pub key_chars : matches_all is_key_char p.idempotency_key ≡ true
  pub hash :
      p.request_hash
      ≡ host.sha256 (
          host.marshal (record {
            domain_id = host.uuid_string p.domain_id;
            local_part = p.local_part;
            display_name = p.display_name;
          }))

-- An accepted command is prepared: its identifiers are set, the local part is a lower-case dot-atom of
-- at most 64 bytes, the display name is trimmed UTF-8 of at most 128 characters without control
-- characters, the key is 16 to 128 bytes of its alphabet, and the hash is that of the normalised fields.
pub prepare_request-IsPrepared :
    (host : Host) (c : RequestMailboxCommand) (p : PreparedRequest)
    → prepare_request host c ≡ ok p
    → IsPrepared host p
unfolding rejects_display_name rejects_idempotency_key
prepare_request-IsPrepared host c p h =
    let parts = prepared-Parts host c p h in
    let (atoms, size) = (rejects_local_part_exact p.local_part).0 parts.local_ok in
    record {
      tenant = ground (arith, parts.ids);
      domain = ground (arith, parts.ids);
      local_part = atoms;
      local_size = size;
      display_runes = ground (arith, parts.display_ok);
      display_valid = ground (arith, parts.display_ok);
      display_clean = ground (arith, parts.display_ok);
      display_trimmed = rw parts.display_name (trim_space_idem c.display_name);
      key_long = ground (arith, parts.key_ok);
      key_short = ground (arith, parts.key_ok);
      key_chars = ground (arith, parts.key_ok);
      hash = parts.hash;
    }

-- The request as a command again.
abbrev pub as_command : PreparedRequest → RequestMailboxCommand
as_command p = record {
  tenant_id = p.tenant_id;
  domain_id = p.domain_id;
  local_part = p.local_part;
  display_name = p.display_name;
  idempotency_key = p.idempotency_key;
}

lower_char-local : (lower : ℕ → ℕ) (c : ℕ) → is_local_char c ≡ true → lower_char lower c ≡ c
unfolding is_local_char lower_char
lower_char-local lower c h = ground arith

to_lower-local : (lower : ℕ → ℕ) (t : Text) → all is_local_char t ≡ true → to_lower lower t ≡ t
unfolding to_lower
to_lower-local lower [] h = refl
to_lower-local lower (c ∷ t) h = ground (arith, lower_char-local lower c, to_lower-local lower t)

-- Preparing is idempotent: a prepared request, sent again as a command, is accepted and prepared to
-- itself, with the same hash. So a client that repeats the normalised fields repeats the request.
pub prepare_request_idem :
    (host : Host) (c : RequestMailboxCommand) (p : PreparedRequest)
    → prepare_request host c ≡ ok p
    → prepare_request host (as_command p) ≡ ok p
prepare_request_idem host c p h =
    let parts = prepared-Parts host c p h in
    let lowered =
      to_lower-local host.lower p.local_part
        (all_local_char-of_accepted p.local_part parts.local_ok) in
    let shown : trim_space p.display_name ≡ p.display_name =
      rw parts.display_name (trim_space_idem c.display_name) in
    let keyed : trim_space p.idempotency_key ≡ p.idempotency_key =
      rw parts.key (trim_space_idem c.idempotency_key) in
    unfold prepare_request in
    simp (lowered, shown, keyed, parts.ids, parts.local_ok, parts.display_ok, parts.key_ok)
      (λ i. ok (record p { request_hash = sym parts.hash i }))

to_lower-replace :
    (lower : ℕ → ℕ) (before after : Text) (r s : ℕ)
    → lower_char lower r ≡ lower_char lower s
    → to_lower lower (before ++ r ∷ after) ≡ to_lower lower (before ++ s ∷ after)
unfolding to_lower
to_lower-replace lower [] after r s e = cc
to_lower-replace lower (c ∷ before) after r s e = cc (to_lower-replace lower before after r s e)

-- The local part is not limited to ASCII before it is normalised: where Unicode lowers a rune beyond
-- ASCII to an ASCII letter, as it lowers the Kelvin sign to `k`, a command with that rune is treated
-- as the command with the letter, and opens the letter's mailbox.
pub prepare_request_folds :
    (host : Host) (c : RequestMailboxCommand) (before after : Text) (r s : ℕ)
    → 0x80 ≤ r
    → r < rune_limit
    → host.lower r ≡ s
    → b'a' ≤ s
    → s ≤ b'z'
    → prepare_request host (record c { local_part = before ++ r ∷ after })
      ≡ prepare_request host (record c { local_part = before ++ s ∷ after })
unfolding prepare_request
prepare_request_folds host c before after r s hi lo e a z =
    let chars : lower_char host.lower r ≡ lower_char host.lower s =
      unfold lower_char in ground arith in
    rw (to_lower-replace host.lower before after r s chars)
