-- ===== src/Identity/Closed.antt =====
-- The identity that is resolved is the active one (internal/identity/resolve.go).
use beadle.Prelude.{
  ◌≡◌, ◌⊎◌, inl, inr, refl, true, false, Option, none, some, Result, ok, err, is_nil, [],
  Bool-cases,
}
use beadle.Text.{Text, trim_space}
use beadle.Identity.{
  Read, absent, unreadable, undecodable, decoded, RepoConfig, EthosIdentity, Files, ethos, default,
  Identity, IdentityError, bad_repo_config, deprecated_field, no_active, is_handle, is_email_path,
  repo_handle, or_active, active_handle, resolve_handle, with_extension, ethos_identity,
  check_ethos, from_ethos, from_default, resolve_named, with_handle, resolve_identity,
}

is_email_path-nil : (s : Text) → is_nil s ≡ true → is_email_path s ≡ false
unfolding is_email_path
is_email_path-nil s h = rw h refl

-- What cannot be read or decoded.
abbrev pub IsBroken : {A : Type 0} → Read A → Type 0
IsBroken r = (r ≡ unreadable) ⊎ (r ≡ undecodable)

module _ (f : Files) where
  -- The identity of a handle, with the address of its file and the key of its extension, if any.
  pub record IsActive (id : Identity) : Type 0 where
    pub entry : EthosIdentity
    pub is_read : f.identity id.handle ≡ decoded entry
    pub same_email : id.email ≡ entry.email
    pub from_handle : id.source ≡ ethos
    pub handle_ok : is_handle id.handle ≡ true
    pub email_ok : is_email_path id.email ≡ true
    pub key_ok :
        ((f.extension id.handle ≡ absent) × (id.gpg_key_id ≡ []))
        ⊎ (f.extension id.handle ≡ decoded id.gpg_key_id)

  -- Why a handle gives no identity.
  pub data IsFaulty (handle : Text) : Type 0 where
    bad_name : is_handle handle ≡ false → IsFaulty handle
    no_entry : f.identity handle ≡ absent → IsFaulty handle
    broken_entry : IsBroken (f.identity handle) → IsFaulty handle
    bad_address :
        {e : EthosIdentity}
        → f.identity handle ≡ decoded e
        → is_email_path e.email ≡ false
        → IsFaulty handle
    broken_extension : IsBroken (f.extension handle) → IsFaulty handle

  abbrev pub IsNamed : Text → Result IdentityError Identity → Type 0
  IsNamed handle (err e) = IsFaulty handle
  IsNamed handle (ok id) = (id.handle ≡ handle) × IsActive id

  -- The address in the default file, or an error where there is none that can be used.
  abbrev pub IsDefault : Result IdentityError Identity → Type 0
  IsDefault (err e) =
      (f.default_identity ≡ absent)
      ⊎ IsBroken f.default_identity
      ⊎ ((s : Text) × (f.default_identity ≡ decoded s) × (is_email_path (trim_space s) ≡ false))
  IsDefault (ok id) =
      (s : Text) × (f.default_identity ≡ decoded s)
      × (id.email ≡ trim_space s)
      × (id.source ≡ default)
      × (id.handle ≡ [])
      × (is_email_path id.email ≡ true)

  -- The repository says nothing of the handle.
  pub data IsUnset : Type 0 where
    no_repo : f.repo_config ≡ none → IsUnset
    no_config : f.repo_config ≡ some absent → IsUnset
    no_fields :
        {c : RepoConfig}
        → f.repo_config ≡ some (decoded c)
        → is_nil c.agent ≡ true
        → is_nil c.active ≡ true
        → IsUnset

  -- What the files resolve to: the repository's agent comes first, then the active file, and the
  -- default file only where neither names a handle.
  pub data IsResolved : Result IdentityError Identity → Type 0 where
    by_agent :
        {c : RepoConfig} {r : Result IdentityError Identity}
        → f.repo_config ≡ some (decoded c)
        → is_nil c.agent ≡ false
        → IsNamed c.agent r
        → IsResolved r
    deprecated :
        {c : RepoConfig}
        → f.repo_config ≡ some (decoded c)
        → is_nil c.agent ≡ true
        → is_nil c.active ≡ false
        → IsResolved (err deprecated_field)
    broken_config :
        (f.repo_config ≡ some unreadable) ⊎ (f.repo_config ≡ some undecodable)
        → IsResolved (err bad_repo_config)
    by_active :
        {s : Text} {r : Result IdentityError Identity}
        → IsUnset
        → f.active ≡ decoded s
        → is_nil (trim_space s) ≡ false
        → IsNamed (trim_space s) r
        → IsResolved r
    broken_active : IsUnset → IsBroken f.active → IsResolved (err no_active)
    without_file :
        {r : Result IdentityError Identity}
        → IsUnset
        → f.active ≡ absent
        → IsDefault r
        → IsResolved r
    without_handle :
        {s : Text} {r : Result IdentityError Identity}
        → IsUnset
        → f.active ≡ decoded s
        → is_nil (trim_space s) ≡ true
        → IsDefault r
        → IsResolved r

  with_extension-IsNamed :
      (handle : Text) (e : EthosIdentity) (x : Read Text)
      → is_handle handle ≡ true
      → f.identity handle ≡ decoded e
      → is_email_path e.email ≡ true
      → f.extension handle ≡ x
      → IsNamed handle (with_extension (ethos_identity handle e) x)
  with_extension-IsNamed handle e absent h k m x = (
    refl,
    record {
      entry = e;
      is_read = k;
      same_email = refl;
      from_handle = refl;
      handle_ok = h;
      email_ok = m;
      key_ok = inl (x, refl);
    },
  )
  with_extension-IsNamed handle e unreadable h k m x = broken_extension (inl x)
  with_extension-IsNamed handle e undecodable h k m x = broken_extension (inr x)
  with_extension-IsNamed handle e (decoded key) h k m x = (
    refl,
    record {
      entry = e;
      is_read = k;
      same_email = refl;
      from_handle = refl;
      handle_ok = h;
      email_ok = m;
      key_ok = inr x;
    },
  )

  check_ethos-IsNamed :
      (handle : Text) (r : Read EthosIdentity)
      → is_handle handle ≡ true
      → f.identity handle ≡ r
      → IsNamed handle (check_ethos f handle r)
  check_ethos-IsNamed handle absent h k = no_entry k
  check_ethos-IsNamed handle unreadable h k = broken_entry (inl k)
  check_ethos-IsNamed handle undecodable h k = broken_entry (inr k)
  check_ethos-IsNamed handle (decoded e) h k = elim (Bool-cases (is_nil e.email)) [
    | inl nothing ↦ rw nothing (bad_address k (is_email_path-nil e.email nothing))
    | inr filled ↦ rw filled (elim (Bool-cases (is_email_path e.email)) [
      | inl good ↦ rw good (with_extension-IsNamed handle e (f.extension handle) h k good refl)
      | inr bad ↦ rw bad (bad_address k bad)
    ])
  ]

  resolve_named-IsNamed : (handle : Text) → IsNamed handle (resolve_named f handle)
  unfolding resolve_named
  resolve_named-IsNamed handle = elim (Bool-cases (is_handle handle)) [
    | inl good ↦
        rw good (unfold from_ethos in check_ethos-IsNamed handle (f.identity handle) good refl)
    | inr bad ↦ rw bad (bad_name bad)
  ]

  with_handle-IsNamed :
      (handle : Text) → is_nil handle ≡ false → IsNamed handle (with_handle f (ok handle))
  with_handle-IsNamed handle full = rw full (resolve_named-IsNamed handle)

  from_default-IsDefault : (r : Read Text) → f.default_identity ≡ r → IsDefault (from_default r)
  from_default-IsDefault absent k = inl k
  from_default-IsDefault unreadable k = inr (inl (inl k))
  from_default-IsDefault undecodable k = inr (inl (inr k))
  from_default-IsDefault (decoded s) k = elim (Bool-cases (is_email_path (trim_space s))) [
    | inl good ↦ rw good (s, k, refl, refl, refl, good)
    | inr bad ↦ rw bad (inr (inr (s, k, bad)))
  ]

  active_handle-IsResolved :
      (a : Read Text) → IsUnset → f.active ≡ a → IsResolved (with_handle f (active_handle a))
  active_handle-IsResolved absent u k =
      without_file u k (from_default-IsDefault f.default_identity refl)
  active_handle-IsResolved unreadable u k = broken_active u (inl k)
  active_handle-IsResolved undecodable u k = broken_active u (inr k)
  active_handle-IsResolved (decoded s) u k = elim (Bool-cases (is_nil (trim_space s))) [
    | inl empty ↦
        rw empty (without_handle u k empty (from_default-IsDefault f.default_identity refl))
    | inr full ↦ rw full (by_active u k full (resolve_named-IsNamed (trim_space s)))
  ]

  repo_handle-IsResolved :
      (o : Option (Read RepoConfig))
      → f.repo_config ≡ o
      → IsResolved (with_handle f (or_active f (repo_handle o)))
  repo_handle-IsResolved none k = active_handle-IsResolved f.active (no_repo k) refl
  repo_handle-IsResolved (some absent) k = active_handle-IsResolved f.active (no_config k) refl
  repo_handle-IsResolved (some unreadable) k = broken_config (inl k)
  repo_handle-IsResolved (some undecodable) k = broken_config (inr k)
  repo_handle-IsResolved (some (decoded c)) k = elim (Bool-cases (is_nil c.agent)) [
    | inr agent ↦ rw agent (by_agent k agent (with_handle-IsNamed c.agent agent))
    | inl silent ↦ rw silent (elim (Bool-cases (is_nil c.active)) [
      | inl unset ↦ rw unset (active_handle-IsResolved f.active (no_fields k silent unset) refl)
      | inr old ↦ rw old (deprecated k silent old)
    ])
  ]

  -- `Resolve` follows the agent of the repository's configuration; where the repository has no
  -- configuration, or one with neither an agent nor the deprecated field, the handle of the active
  -- file; and only where that file is absent or blank, the default file. A configuration or an active
  -- file that is there and cannot be read or decoded is an error, as is the deprecated field alone.
  -- For a handle it gives the identity of that handle, with the address in its file and the key of
  -- its extension, and an error exactly if the handle does not pass `ValidateHandle`, its file or its
  -- extension cannot be used, or the address does not pass `ValidateEmailAsPath`; and likewise the
  -- address of the default file.
  pub resolve_identity-IsResolved : IsResolved (resolve_identity f)
  unfolding resolve_identity resolve_handle
  resolve_identity-IsResolved = repo_handle-IsResolved f.repo_config refl
