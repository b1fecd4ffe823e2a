-- ===== src/Tests/Enabling.antt =====
-- Enabling and disabling at a concrete repository.
use beadle.Prelude.{refl, true, false, some, inl, All}
use beadle.Text.{codes}
use beadle.Permissions.Run.{Checks}
use beadle.Enable.{Repo, Calls, enable, disable}
use beadle.Enable.Marker.{IsConsistent, enable-IsConsistent}
use beadle.Tests.Grants.{plain_json, healthy, fresh}

abbrev open_checks : Checks
open_checks = record {
  home_known = true;
  is_home = false;
  inspects = true;
  is_symlink = false;
  has_dir = true;
  opens = true;
  locks = true;
  system = healthy;
}

-- Every call ends well but the one that writes the marker.
abbrev no_marker_written : Calls
no_marker_written = record {
  resolves = true;
  locks = true;
  makes_dir = true;
  writes_guide = true;
  writes_marker = false;
  clears = true;
  imports = record {
    locks = true;
    reads = true;
    writes = true;
    stats = true;
    is_regular = true;
    removes = true;
  };
  checks = open_checks;
  json = plain_json;
}

abbrev unmarked : Repo
unmarked = record {
  claude_md = some (codes "# Notes");
  disk = fresh;
  has_guide = false;
  has_marker = false;
}

enable-IsConsistent_example :
    All IsConsistent (enable no_marker_written unmarked).0
    × All IsConsistent (disable no_marker_written true unmarked).0
enable-IsConsistent_example = enable-IsConsistent no_marker_written true unmarked (inl refl)
