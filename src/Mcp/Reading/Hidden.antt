-- ===== src/Mcp/Reading/Hidden.antt =====
-- What an agent sees of the subjects of mail whose sender it may not read (internal/mcp/tools.go).
use beadle.Prelude.{
  ℕ, ◌≡◌, ◌∙◌, ap, refl, Bool, true, false, List, [], ◌∷◌, map, Option, none, some, Result, ok, err,
  if◌then◌else◌, Bool-cases, ◌>>=◌, inl, inr, ◌==◌, ◌||◌, ◌&&◌, is_nil,
}
use beadle.Prelude.Int.{ℤ, pos, negsuc}
use beadle.Utf8.{Bytes}
use beadle.Text.{Text, CaseTables, codes}
use beadle.Email.Trust.{TrustLevel, unverified, verified, untrusted}
use beadle.Email.Search.{
  Query, Server, ListResult, SearchError, search_messages, list_set, fetch_set, search_fallback,
  Found, fetched, search_page, search_selected,
}
use beadle.Mcp.Format.{Message, VerifyResult}
use beadle.Mcp.Params.{
  Arguments, ToolError, int_param, string_param, not_connected, no_context, bad_param,
}
use beadle.Mcp.Reading.{
  Mail, verified_level, level_at, Listed, sender_permission, may_read, shown, render_messages,
  render_as, render_result, list_messages, search_mail, search_and_render, positive, non_negative,
  read_since, search_query, search_for, list_query, is_none,
}

pub >>=_ext :
    {A B : Type 0} (r : Result ToolError A) (f g : A → Result ToolError B)
    → ((a : A) → f a ≡ g a)
    → (r >>= f) ≡ (r >>= g)
>>=_ext (ok a) f g h = h a
>>=_ext (err e) f g h = refl

pub if_ext {ℓ} :
    {A : Type ℓ} (b : Bool) (x y z w : A)
    → x ≡ y
    → z ≡ w
    → (if b then x else z) ≡ (if b then y else w)
if_ext true x y z w h k = h
if_ext false x y z w h k = k

module _ ⦃u : CaseTables⦄ (m : Mail) where
  -- A listed message without its subject, where its sender may not be read.
  abbrev pub hide : Listed → Listed
  hide l =
      if may_read m l.summary.from
      then l
      else record l { summary = record l.summary { subject = [] } }

  abbrev pub hide_all : Option (List Listed) → Option (List Listed)
  hide_all none = none
  hide_all (some ls) = some (map hide ls)

  abbrev pub hide_server : Server Listed → Server Listed
  hide_server s = record s { fetch = λ set. hide_all (s.fetch set) }

  -- A message of which only the sender is left, where it may not be read.
  abbrev pub blank : Text → Message
  blank from = record {
    from = from;
    to = [];
    date = [];
    subject = [];
    body = [];
    trust_level = unverified;
    encryption = [];
    attachments = [];
    raw_content_type = [];
  }

  abbrev pub hide_message : Option Message → Option Message
  hide_message none = none
  hide_message (some msg) = some (if may_read m msg.from then msg else blank msg.from)

  abbrev level_of : TrustLevel → Option VerifyResult → TrustLevel
  level_of level o = elim o [
    | none ↦ level
    | some result ↦ if result.valid then verified else untrusted
  ]

  -- What gpg says of a message: nothing but whether the signature is valid, where it may not be read.
  abbrev pub only_valid : VerifyResult → VerifyResult
  only_valid r = record { valid = r.valid; key_id = []; signer = []; output = [] }

  abbrev pub hide_verdict : Bool → Option VerifyResult → Option VerifyResult
  hide_verdict may none = none
  hide_verdict may (some r) = some (if may then r else only_valid r)

  -- The same mail, as if there were nothing of what the identity may not read.
  abbrev pub hidden : Mail
  hidden = record m {
    server = λ folder. hide_server (m.server folder);
    fetch_message = λ folder uid. hide_message (m.fetch_message folder uid);
    pgp_verify = λ raw. hide_verdict (may_read m (m.headers_from raw)) (m.pgp_verify raw);
    extract_part = λ raw i. if may_read m (m.headers_from raw) then m.extract_part raw i else none;
  }

  -- The sender decides alike.
  pub may_read-hidden : (from : Text) → may_read hidden from ≡ may_read m from
  unfolding sender_permission
  may_read-hidden from = refl

  verdict-hide :
      (may : Bool) (level : TrustLevel) (o : Option VerifyResult)
      → level_of level (hide_verdict may o) ≡ level_of level o
  verdict-hide may level none = refl
  verdict-hide true level (some r) = refl
  verdict-hide false level (some r) = refl

  pub verified_level-hide :
      (level : TrustLevel) (o : Option Bytes)
      → verified_level hidden level o ≡ verified_level m level o
  verified_level-hide level none = refl
  verified_level-hide level (some raw) =
      verdict-hide (may_read m (m.headers_from raw)) level (m.pgp_verify raw)

  level_at-hide :
      (folder : Text) (level : TrustLevel) (o : Option ℕ)
      → level_at hidden folder level o ≡ level_at m folder level o
  level_at-hide folder level none = refl
  level_at-hide folder level (some uid) = verified_level-hide level (m.fetch_raw folder uid)

  shown-hide : (folder : Text) (l : Listed) → shown hidden folder (hide l) ≡ shown m folder l
  shown-hide folder l = elim (Bool-cases (may_read m l.summary.from)) [
    | inl may ↦ elim (Bool-cases l.has_sig) [
      | inl sig ↦ simp (may, sig, may_read-hidden, level_at-hide)
      | inr plain ↦ simp (may, plain, may_read-hidden)
    ]
    | inr denied ↦ elim (Bool-cases l.has_sig) [
      | inl sig ↦ simp (denied, sig, may_read-hidden, level_at-hide)
      | inr plain ↦ simp (denied, plain, may_read-hidden)
    ]
  ]

  map-shown-hide :
      (folder : Text) (ls : List Listed)
      → map (shown hidden folder) (map hide ls) ≡ map (shown m folder) ls
  map-shown-hide folder [] = refl
  map-shown-hide folder (l ∷ ls) = simp (shown-hide folder l, map-shown-hide folder ls)

  -- What a search finds is the same, without those subjects.
  hide_result : Result SearchError (ListResult Listed) → Result SearchError (ListResult Listed)
  hide_result (err e) = err e
  hide_result (ok lr) = ok (record lr { messages = map hide lr.messages })

  fetched-hide :
      (s : Server Listed) (q : Query) (total : ℕ) (reason : Text) (o : Option (List Listed))
      → fetched (hide_server s) q total reason (hide_all o)
        ≡ hide_result (fetched s q total reason o)
  unfolding hide_result
  fetched-hide s q total reason none = refl
  fetched-hide s q total reason (some ls) = refl

  fetch_set-hide :
      (s : Server Listed) (q : Query) (r : Result SearchError Found)
      → fetch_set (hide_server s) q r ≡ hide_result (fetch_set s q r)
  unfolding hide_result
  fetch_set-hide s q (err e) = refl
  fetch_set-hide s q (ok (none, total, reason)) = refl
  fetch_set-hide s q (ok (some set, total, reason)) = fetched-hide s q total reason (s.fetch set)

  list_set-hide :
      (s : Server Listed) (n : ℕ) (q : Query) (count offset : ℕ)
      → list_set (hide_server s) n q count offset ≡ list_set s n q count offset
  unfolding list_set search_fallback
  list_set-hide s n q count offset = refl

  search_page-hide :
      (s : Server Listed) (q : Query) (n : ℕ) (count : ℤ) (offset : ℕ)
      → search_page (hide_server s) q n count offset ≡ hide_result (search_page s q n count offset)
  unfolding hide_result
  search_page-hide s q n (negsuc c) offset = refl
  search_page-hide s q n (pos c) offset = elim (Bool-cases (n == 0 || c == 0)) [
    | inl e ↦ rw e refl
    | inr e ↦ rw (e, list_set-hide s n q c offset) (fetch_set-hide s q (list_set s n q c offset))
  ]

  search_selected-hide :
      (s : Server Listed) (q : Query) (o : Option ℕ) (count : ℤ) (offset : ℕ)
      → search_selected (hide_server s) q o count offset
        ≡ hide_result (search_selected s q o count offset)
  unfolding hide_result
  search_selected-hide s q none count offset = refl
  search_selected-hide s q (some n) count offset = search_page-hide s q n count offset

  search_messages-hide :
      (s : Server Listed) (q : Query) (count offset : ℤ)
      → search_messages (hide_server s) q count offset
        ≡ hide_result (search_messages s q count offset)
  unfolding hide_result search_messages
  search_messages-hide s q count (negsuc n) = refl
  search_messages-hide s q count (pos offset) = search_selected-hide s q s.num_messages count offset

  render_result-hide :
      (folder : Text) (r : Result SearchError (ListResult Listed))
      → render_result hidden folder (hide_result r) ≡ render_result m folder r
  unfolding hide_result render_messages
  render_result-hide folder (err e) = refl
  render_result-hide folder (ok lr) = ap (render_as m lr) (map-shown-hide folder lr.messages)

  search_and_render-hide :
      (args : Arguments) (q : Query) → search_and_render hidden args q ≡ search_and_render m args q
  search_and_render-hide args q =
      let folder = string_param args (codes "folder") (codes "INBOX") in
      >>=_ext (int_param args (codes "count") (pos 10) >>= positive) _ _ (λ count.
        >>=_ext (int_param args (codes "offset") (pos 0) >>= non_negative) _ _ (λ offset.
          if_ext m.connects _ _ (err not_connected) (err not_connected)
            (ap (render_result hidden folder)
                (search_messages-hide (m.server folder) q count offset)
              ∙ render_result-hide folder (search_messages (m.server folder) q count offset))
            refl))

  pub list_messages-hidden : (args : Arguments) → list_messages hidden args ≡ list_messages m args
  unfolding list_messages
  list_messages-hidden args =
      if_ext m.has_context (search_and_render hidden args (list_query m args))
        (search_and_render m args (list_query m args)) (err no_context) (err no_context)
        (search_and_render-hide args (list_query m args)) refl

  search_for-hide : (args : Arguments) (q : Query) → search_for hidden args q ≡ search_for m args q
  search_for-hide args q =
      if_ext (is_nil q.from && is_nil q.subject && is_nil q.text && is_none q.since) (err bad_param)
        (err bad_param) (search_and_render hidden args q) (search_and_render m args q) refl
        (search_and_render-hide args q)

  pub search_mail-hidden : (args : Arguments) → search_mail hidden args ≡ search_mail m args
  unfolding search_mail
  search_mail-hidden args =
      let since = read_since m (string_param args (codes "since") []) in
      if_ext m.has_context (since >>= λ t. search_for hidden args (search_query m args t))
        (since >>= λ t. search_for m args (search_query m args t)) (err no_context) (err no_context)
        (>>=_ext since _ _ (λ t. search_for-hide args (search_query m args t))) refl
