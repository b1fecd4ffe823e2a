-- ===== src/Tests/Data.antt =====
-- Test data: the parameters of the models at concrete functions, contacts, recipes and messages.
use beadle.Prelude.{true, false, List, [], ◌∷◌, none, some, ok}
use beadle.Prelude.Int.{pos}
use beadle.Text.{CaseTables, codes, has_suffix}
use beadle.Contacts.Book.{Contact, PathMatch}
use beadle.Contacts.Store.{Store}
use beadle.Email.Address.{ParseAddress}
use beadle.Email.Trust.{trusted}
use beadle.Daemon.Command.{Command, str}
use beadle.Daemon.Call.{Args, string}
use beadle.Daemon.Pipeline.Types.{EmailMeta, CommandCall, Executor, Runner}
use beadle.Daemon.Handler.{Message, Mailbox, MailHandler, Workers}

-- No case above ASCII.
instance abbrev pub ascii_tables : CaseTables
ascii_tables = record { lower_above = λ c. c; upper_above = λ c. c; fold_above = λ c. c }

-- Of the patterns, those that are one star and a suffix.
abbrev pub star_match : PathMatch
star_match [] name = some false
star_match (c ∷ suffix) name = some (has_suffix name suffix)

abbrev pub jim : Contact
jim = record {
  name = codes "Jim";
  email = codes "Jim@x.org";
  aliases = codes "boss" ∷ [];
  gpg_key_id = [];
  notes = [];
  permissions = (codes "bot@x.org", codes "RWX") ∷ [];
}

abbrev pub anyone : Contact
anyone = record {
  name = codes "Anyone";
  email = codes "*@x.org";
  aliases = [];
  gpg_key_id = [];
  notes = [];
  permissions = (codes "bot@x.org", codes "r--") ∷ [];
}

abbrev pub book : List Contact
book = anyone ∷ jim ∷ []

abbrev pub book_store : Store
book_store = record { contacts = book; file = some book }

-- Every header is left to the fallbacks.
abbrev pub no_parser : ParseAddress
no_parser from = none

abbrev pub box : Mailbox
box = record {
  imap_host = codes "127.0.0.1";
  split_host_port = λ host. none;
  fetch_raw = λ uid. some [];
  fetch_message = λ uid. some (codes "hello");
  pgp_verify = λ raw. some (record { valid = true; key_id = codes "ABCD" });
  parse_address = no_parser;
  path_match = star_match;
}

abbrev pub order : Message
order = record {
  id = codes "7";
  from = codes "Jim <jim@x.org>";
  subject = codes "run";
  trust_level = trusted;
  has_sig = false;
}

abbrev pub handler : MailHandler
handler = record {
  box = box;
  identity_email = codes "bot@x.org";
  contacts = book;
  has_spawner = true;
  creates = λ msg. true;
}

abbrev pub idle : Workers
idle = record { capacity = 2; busy = 0 }

-- A recipe for the cli runner, with one argument.
abbrev pub echo : Command
echo = record {
  name = codes "echo";
  description = [];
  signature = [];
  runner = codes "cli";
  mode = [];
  args =
      record {
        name = codes "text";
        type = codes "string";
        values = [];
        max_length = pos 5;
        required = true;
        default = [];
        position = pos 1;
      }
      ∷ [];
  output_schema = str (codes "text");
  binary = codes "echo";
  fixed_args = [];
  steps = [];
  write_set = codes "out" ∷ [];
  rounds = pos 0;
  reflection_after_each = false;
  timeout = [];
  prompt = [];
  tools = [];
  mcp_servers = [];
  env_vars = [];
}

abbrev pub echo_process : Command
echo_process = record echo { mode = codes "process" }

abbrev pub reply : Command
reply = record echo_process {
  name = codes "reply";
  args =
      record {
        name = codes "to";
        type = codes "string";
        values = [];
        max_length = pos 0;
        required = true;
        default = [];
        position = pos 0;
      }
      ∷ [];
}

abbrev pub hello : Args
hello = (codes "text", string (codes "hello")) ∷ []

abbrev pub calls : List CommandCall
calls = record { command = codes "echo"; args = hello } ∷ []

-- Answers every call with the same text.
abbrev pub parrot : Runner
parrot p i cmd call pipe cut = ok (codes "done", false)

abbrev pub executor : Executor
executor = record {
  planner = λ meta body. ok calls;
  commands = (codes "echo", echo_process) ∷ (codes "reply", reply) ∷ [];
  runners = (codes "cli", parrot) ∷ [];
  has_store = true;
  parse_address = no_parser;
  json_object = λ fields. codes "{}";
  compiles = λ schema. true;
  accepts = λ schema output. true;
}

abbrev pub mail : EmailMeta
mail = record { message_id = codes "7"; from = codes "jim@x.org"; subject = codes "run" }
