-- ===== src/Tests/Processes.antt =====
-- A command run as a process, and the theorems about the runner at it.
use beadle.Prelude.{true, false, List, [], ◌∷◌, none, some}
use beadle.Text.{Text, codes}
use beadle.Utf8.{Bytes}
use beadle.Daemon.Runner.{FileSystem}
use beadle.Daemon.Runner.Run.{Host, Processes}

abbrev files : FileSystem
files = record {
  stat = λ path. some (record { is_dir = false; is_executable = true });
  eval_symlinks = λ path. some path;
  join_path = λ dir name. dir;
  dir_of = λ path. path;
}

abbrev host : Host
host = record {
  files = files;
  getenv = λ name. none;
  print = λ v. codes "v";
  json_object = λ text. none;
}

abbrev processes : Processes
processes = record {
  starts = λ i. true;
  ends_well = λ i. true;
  stdout = record { bytes = codes "hi"; fails = false };
  last_writes = [];
}

abbrev dirs : List Text
dirs = codes "/usr/bin" ∷ []

abbrev pieces : List Bytes
pieces = codes "abc" ∷ codes "de" ∷ []
