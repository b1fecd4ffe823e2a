-- ===== src/Identity.antt =====
-- internal/identity/resolve.go: as which identity beadle acts. The files are the record `Files`.
pub mod Closed
use beadle.Prelude.{
  Bool, true, false, not, ◌&&◌, ◌||◌, Option, none, some, Result, ok, err, if◌then◌else◌, is_nil,
  [],
}
use beadle.Text.{Text, codes, equal, contains, contains_any, has_prefix, trim_space}

-- What reading a file and decoding it gives.
pub data Read (A : Type 0) : Type 0 where
  absent unreadable undecodable : Read A
  decoded : A → Read A

pub record RepoConfig : Type 0 where
  pub agent : Text
  pub active : Text

pub record EthosIdentity : Type 0 where
  pub name : Text
  pub email : Text

-- The files that a `Resolver` reads: the repository's configuration, `none` without a repository; the
-- active handle; a handle's identity and its extension, the key id; and the default identity.
pub record Files : Type 0 where
  pub repo_config : Option (Read RepoConfig)
  pub active : Read Text
  pub identity : Text → Read EthosIdentity
  pub extension : Text → Read Text
  pub default_identity : Read Text

pub data Source : Type 0 where
  ethos default : Source

pub record Identity : Type 0 where
  pub handle : Text
  pub name : Text
  pub email : Text
  pub gpg_key_id : Text
  pub source : Source

pub data IdentityError : Type 0 where
  bad_handle bad_email no_email bad_repo_config deprecated_field : IdentityError
  no_active no_ethos_identity bad_extension no_identity : IdentityError

-- `ValidateHandle` and `ValidateEmailAsPath` give no error.
unfoldable pub is_handle : Text → Bool
unfolding contains_any has_prefix equal
is_handle s =
    not (contains_any s (codes "/\\")) && not (equal s (codes "..") || has_prefix s (codes ".."))

unfoldable pub is_email_path : Text → Bool
unfolding contains_any contains equal
is_email_path s =
    not (is_nil s)
    && not (contains_any s (codes "/\\"))
    && not (equal s (codes "..") || contains s (codes ".."))

-- `readRepoEthosConfig` and its use in `resolveHandle`; `none` goes on to the active file.
abbrev pub repo_handle : Option (Read RepoConfig) → Result IdentityError (Option Text)
repo_handle none = ok none
repo_handle (some absent) = ok none
repo_handle (some unreadable) = err bad_repo_config
repo_handle (some undecodable) = err bad_repo_config
repo_handle (some (decoded c)) =
    if is_nil c.agent
    then if is_nil c.active then ok none else err deprecated_field
    else ok (some c.agent)

abbrev pub active_handle : Read Text → Result IdentityError Text
active_handle absent = ok []
active_handle unreadable = err no_active
active_handle undecodable = err no_active
active_handle (decoded s) = ok (trim_space s)

-- `resolveHandle`.
abbrev pub or_active : Files → Result IdentityError (Option Text) → Result IdentityError Text
or_active f (err e) = err e
or_active f (ok (some handle)) = ok handle
or_active f (ok none) = active_handle f.active

unfoldable pub resolve_handle : Files → Result IdentityError Text
unfolding trim_space
resolve_handle f = or_active f (repo_handle f.repo_config)

-- `fromEthos`.
abbrev pub with_extension : Identity → Read Text → Result IdentityError Identity
with_extension id absent = ok id
with_extension id unreadable = err bad_extension
with_extension id undecodable = err bad_extension
with_extension id (decoded key) = ok (record id { gpg_key_id = key })

abbrev pub ethos_identity : Text → EthosIdentity → Identity
ethos_identity handle e = record {
  handle = handle;
  name = e.name;
  email = e.email;
  gpg_key_id = [];
  source = ethos;
}

abbrev pub check_ethos : Files → Text → Read EthosIdentity → Result IdentityError Identity
check_ethos f handle absent = err no_ethos_identity
check_ethos f handle unreadable = err no_ethos_identity
check_ethos f handle undecodable = err no_ethos_identity
check_ethos f handle (decoded e) =
    if is_nil e.email
    then err no_email
    else if is_email_path e.email
    then with_extension (ethos_identity handle e) (f.extension handle)
    else err bad_email

unfoldable pub from_ethos : Files → Text → Result IdentityError Identity
unfolding is_email_path
from_ethos f handle = check_ethos f handle (f.identity handle)

-- `fromDefault`.
abbrev pub check_default : Text → Result IdentityError Identity
check_default email =
    if is_email_path email
    then ok (record { handle = []; name = []; email = email; gpg_key_id = []; source = default })
    else err no_identity

abbrev pub from_default : Read Text → Result IdentityError Identity
from_default absent = err no_identity
from_default unreadable = err no_identity
from_default undecodable = err no_identity
from_default (decoded s) = check_default (trim_space s)

-- `Resolve` and `ResolveHandle`.
unfoldable pub resolve_named : Files → Text → Result IdentityError Identity
unfolding from_ethos is_handle
resolve_named f handle = if is_handle handle then from_ethos f handle else err bad_handle

abbrev pub with_handle : Files → Result IdentityError Text → Result IdentityError Identity
with_handle f (err e) = err e
with_handle f (ok handle) =
    if is_nil handle then from_default f.default_identity else resolve_named f handle

unfoldable pub resolve_identity : Files → Result IdentityError Identity
unfolding resolve_handle resolve_named
resolve_identity f = with_handle f (resolve_handle f)
