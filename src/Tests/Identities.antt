-- ===== src/Tests/Identities.antt =====
-- An active handle and a default identity.
use beadle.Prelude.{◌≡◌, refl, some, ok, err}
use beadle.Text.{codes}
use beadle.Identity.{Files, absent, decoded, ethos, no_ethos_identity, resolve_identity}
use beadle.Identity.Closed.{IsResolved, resolve_identity-IsResolved}

abbrev files : Files
files = record {
  repo_config = some (decoded (record { agent = codes "claude"; active = codes "x" }));
  active = absent;
  identity = λ handle. decoded (record { name = handle; email = codes "claude@x.org" });
  extension = λ handle. absent;
  default_identity = decoded (codes "default@x.org");
}

active_found :
    resolve_identity files
    ≡ ok (record {
      handle = codes "claude";
      name = codes "claude";
      email = codes "claude@x.org";
      gpg_key_id = codes "";
      source = ethos;
    })
unfolding resolve_identity
active_found = refl

-- Without the identity's file there is an error, and not the default identity.
active_missing :
    resolve_identity (record files { identity = λ handle. absent }) ≡ err no_ethos_identity
unfolding resolve_identity
active_missing = refl

resolve_identity-IsResolved_example : IsResolved files (resolve_identity files)
resolve_identity-IsResolved_example = resolve_identity-IsResolved files
