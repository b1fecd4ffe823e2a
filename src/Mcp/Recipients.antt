-- ===== src/Mcp/Recipients.antt =====
-- internal/mcp/tools.go, `sendEmail` up to the transports: to whom a message may go, and with which
-- keys it is encrypted; with `ResolveField` of internal/email/resolve.go.
-- The attachments, which are read in between, are left out.
pub mod Allowed
use beadle.Prelude.{
  Bool, true, false, not, List, [], ◌∷◌, ◌++◌, Option, none, some, Result, ok, err, ◌>>=◌,
  if◌then◌else◌, is_nil, keep, map,
}
use beadle.Text.{Text, CaseTables, codes, join, split, trim_space}
use beadle.Contacts.Permission.{check_permission}
use beadle.Contacts.Book.{Contact, PathMatch, ResolveError, resolve_addresses}
use beadle.Contacts.Store.{find_by_address}
use beadle.Email.Address.{ParseAddress, extract_email_address}

-- `splitAddresses`.
unfoldable pub split_addresses : Text → List Text
unfolding split trim_space
split_addresses s =
    if is_nil s then [] else keep (λ p. not (is_nil p)) (map (λ p. trim_space p) (split b',' s))

-- What `sendEmail` hands on: the recipients, the keys and the warning.
pub record Outgoing : Type 0 where
  pub to : List Text
  pub cc : List Text
  pub bcc : List Text
  pub encrypt_keys : List Text
  pub warning : Text

pub data SendError : Type 0 where
  unresolved : ResolveError → SendError
  no_recipient : SendError
  denied : List Text → SendError

-- A field, resolved.
abbrev pub Resolved : Type 0
Resolved = Result SendError Text

abbrev pub all_recipients : Outgoing → List Text
all_recipients o = o.to ++ (o.cc ++ o.bcc)

module _ ⦃u : CaseTables⦄ (path_match : PathMatch) (parse_address : ParseAddress)
    (contacts : List Contact) where
  -- The body of the loop of `enforceWritePermission`.
  abbrev pub refuse_contact : Text → Text → Option Contact → Option Text
  refuse_contact identity addr none = some (addr ++ codes " (unknown contact)")
  refuse_contact identity addr (some c) =
      if (check_permission c.permissions identity).write
      then none
      else some (addr ++ codes " (no write permission)")

  unfoldable pub refuse : Text → Text → Option Text
  refuse identity recipient =
      let addr = extract_email_address parse_address recipient in
      if is_nil addr
      then some (recipient ++ codes " (invalid address)")
      else refuse_contact identity addr (find_by_address path_match contacts addr)

  abbrev pub add_refused : Option Text → List Text → List Text
  add_refused none refused = refused
  add_refused (some text) refused = text ∷ refused

  -- `enforceWritePermission`.
  unfoldable pub enforce_write_permission : Text → List Text → List Text
  unfolding refuse
  enforce_write_permission identity [] = []
  enforce_write_permission identity (r ∷ rs) =
      add_refused (refuse identity r) (enforce_write_permission identity rs)

  -- The loop of `encryptKeysFor`: the keys, and the addresses without one.
  abbrev pub add_key : Text → Option Contact → List Text × List Text → List Text × List Text
  add_key addr none (have, missing) = (have, addr ∷ missing)
  add_key addr (some c) (have, missing) =
      if is_nil c.gpg_key_id then (have, addr ∷ missing) else (c.gpg_key_id ∷ have, missing)

  unfoldable pub collect_keys : List Text → List Text × List Text
  collect_keys [] = ([], [])
  collect_keys (r ∷ rs) =
      let addr = extract_email_address parse_address r in
      if is_nil addr
      then collect_keys rs
      else add_key addr (find_by_address path_match contacts addr) (collect_keys rs)

  -- `encryptKeysFor`.
  abbrev pub key_policy : List Text × List Text → List Text × Text
  key_policy (have, missing) =
      if is_nil have then ([], []) else if is_nil missing then (have, []) else (
        [],
        codes "encryption skipped: not all recipients have GPG keys (missing: "
            ++ (join (codes ", ") missing ++ codes ")"),
      )

  unfoldable pub encrypt_keys_for : List Text → List Text × Text
  unfolding collect_keys join
  encrypt_keys_for recipients = key_policy (collect_keys recipients)

  -- `ResolveField`, with the store that `sendEmail` has.
  abbrev pub as_send_error : Result ResolveError Text → Resolved
  as_send_error (err e) = err (unresolved e)
  as_send_error (ok s) = ok s

  abbrev pub resolve_field : Text → Resolved
  resolve_field raw = if is_nil raw then ok [] else as_send_error (resolve_addresses contacts raw)

  -- The rest, for the recipients.
  abbrev pub with_keys : List Text → List Text → List Text → List Text × Text → Outgoing
  with_keys to cc bcc (keys, warning) = record {
    to = to;
    cc = cc;
    bcc = bcc;
    encrypt_keys = keys;
    warning = warning;
  }

  abbrev pub check_refused :
      List Text → List Text → List Text → List Text → Result SendError Outgoing
  check_refused [] to cc bcc = ok (with_keys to cc bcc (encrypt_keys_for (to ++ (cc ++ bcc))))
  check_refused (t ∷ ts) to cc bcc = err (denied (t ∷ ts))

  unfoldable pub check_recipients :
      Text → List Text → List Text → List Text → Result SendError Outgoing
  unfolding enforce_write_permission
  check_recipients identity to cc bcc =
      if is_nil to
      then err no_recipient
      else check_refused (enforce_write_permission identity (to ++ (cc ++ bcc))) to cc bcc

  -- `sendEmail`, for the identity's address and the three fields: the first that does not resolve is
  -- the error.
  abbrev pub send_resolved : Text → Resolved → Resolved → Resolved → Result SendError Outgoing
  send_resolved identity (err e) cc bcc = err e
  send_resolved identity (ok to) (err e) bcc = err e
  send_resolved identity (ok to) (ok cc) (err e) = err e
  send_resolved identity (ok to) (ok cc) (ok bcc) =
      check_recipients identity (split_addresses to) (split_addresses cc) (split_addresses bcc)

  unfoldable pub send_email : Text → Text → Text → Text → Result SendError Outgoing
  unfolding check_recipients split_addresses
  send_email identity to cc bcc =
      send_resolved identity (resolve_field to) (resolve_field cc) (resolve_field bcc)
