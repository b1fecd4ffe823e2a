-- ===== src/Lib.antt =====
-- Beadle reads an agent's mail, decides from a contact list and from signatures which messages may
-- set it to work, and runs the work as a pipeline of declared commands, as processes or as workers
-- with a prompt. This library models those decisions, what the work is given and what is kept of it,
-- and proves what they promise. Paths are those of the repository.
--
-- The parts and their files:
--
--   Contacts.Permission  internal/contacts/permissions.go: `parse_permission`, `print` (String) and
--                        `check_permission`.
--   Contacts.Book        internal/contacts/contacts.go: `Contact`, `validate`, `find`,
--                        `resolve_address`, `resolve_addresses`, `check_name_conflict`.
--   Contacts.Store       internal/contacts/store.go: the contacts in memory and in the file, with
--                        `load`, `add`, `remove`, `write` and `find_by_address`.
--   Daemon.Command       internal/daemon/command.go: a recipe and `validate_command`.
--   Daemon.Call          internal/daemon/command.go: `validate_args`, a call against its recipe.
--   Daemon.Sanitize      internal/daemon/pipeline.go: `sanitize_text` and `cap_runes`.
--   Daemon.Pipeline      internal/daemon/pipeline.go, planner.go, schema.go: `Executor.Run`. Types
--                        has the data, Effects `save`, `fire_else` and the failing paths, Plan what
--                        is checked before the first stage, Stages the loop, Run the whole.
--   Daemon.Signature     internal/daemon/signature.go: `verify_signature` of a command file, and
--                        `classify_status_lines` of what gpg reports.
--   Daemon.Loading       internal/daemon/command.go and config.go, cmd/beadle-daemon/main.go: the
--                        owner's key (`resolve_owner_key_id`) and the commands that are loaded.
--   Daemon.Mission       internal/daemon/mission.go, pipeline.go and spawner.go: the contracts of
--                        missions as YAML text, and the mission's id in the output of `ethos`.
--   Daemon.Payload       internal/daemon/pipeline.go: `stage_payload_text`, a worker's stage input.
--   Daemon.Runner        internal/daemon/runner.go: the whitelist, the environment, the arguments
--                        and the capped output; Run has `CLIRunner.Run`.
--   Daemon.Persist       internal/daemon/persist.go and cmd/beadle-daemon/main.go: saving, loading
--                        and pruning the records of runs, and the sweep at startup. Periodic has
--                        the goroutine that prunes, as steps.
--   Daemon.Handler       internal/daemon/handler.go: the loop body of `OnNewMail` (`handle`),
--                        `verify_trust`, and the worker slots.
--   Email.Address        internal/email/address.go: the sender's address and display name.
--   Email.Trust          internal/email/trust.go: the trust level that headers and MIME structure
--                        give.
--   Email.Reply          internal/email/reply.go: the thread of a reply (`thread_of`) and its quote
--                        (`quote_body`).
--   Email.Listing        internal/email/imap.go: the summaries of a listing, and `move_messages` and
--                        `set_seen_batch`.
--   Email.RepoTag        internal/email/repotag.go and reply.go: the repository's tag in a subject
--                        (`subject`) and the subject of a reply (`reply_subject`); the two regular
--                        expressions are automata over the runes.
--   Email.Headers        internal/email/compose.go and repotag.go: the headers of a thread and of a
--                        tag, as lines and as a map.
--   Email.Chain          internal/email/chain.go: `TrySendChain`, with what it sends by which
--                        transport.
--   Email.Search         internal/email/imap.go: which messages `SearchMessages`, `ListMessages` and
--                        `UnreadCount` ask the server for, and what they return.
--   Email.Poller         internal/email/poller.go and config.go: intervals, polls and notices.
--   ClaudeMd             internal/claudemd/imports.go: `register` and `prune` of one import line.
--                        Lines has the lines and their terminators, Fences the code blocks.
--   Permissions          internal/permissions/permissions.go: the allow rules in
--                        .claude/settings.json. Json has the members of an object, Allow `plan`,
--                        Transact the locked edit of settings and record, Run the entry points.
--   Enable               internal/enable/enable.go: `enable` and `disable` of a repository.
--   Pgp.Expiry           internal/pgp/expiry.go: whether a key's listing allows signing with it.
--   Mcp.Table            internal/mcp/table.go: tables of a fixed width.
--   Mcp.Messages         internal/mcp/format.go: `format_messages`.
--   Mcp.Recipients       internal/mcp/tools.go and internal/email/resolve.go: `send_email` up to the
--                        transports, with `enforce_write_permission` and `encrypt_keys_for`.
--   Mcp.Params           internal/mcp/tools.go: the parameters of a call and its message ids.
--   Mcp.Format           internal/mcp/format.go: what the tools print.
--   Mcp.Reading          internal/mcp/tools.go: `list_messages` and `search_mail`. Whole has
--                        `read_message`, `download_attachment` and the tools for signatures, trust
--                        and parts. Hidden and Blind compare mail with the same mail from which what
--                        may not be read is taken out; Plain and Confined are about the paths of
--                        attachments.
--   Mcp.Attachments      internal/mcp/tools.go: `read_attachments`.
--   Mcp.Replying         internal/mcp/tools.go: `reply_message`. Behind has the headers of the reply.
--   Mcp.Moving           internal/mcp/tools.go: the tools that move and mark messages.
--   Session              internal/session/roster.go: `walk_to_topmost_claude`, and the roster of the
--                        session. Ancestors has the chain of a process's parents.
--   Install              cmd/beadle-email/mcpreg.go: `setup_mcp_registration` and what `doctor` says.
--                        Scope has the search for a project's .mcp.json, from a clean
--                        absolute path: `filepath.Dir` and `filepath.Join` are those of such paths.
--   Identity             internal/identity/resolve.go: `resolve_identity`, as whom beadle acts.
--   Prelude, Text, Utf8  Go's lists, integers, strings and UTF-8, as far as the program uses them.
--   Tests                runs at concrete inputs.
--
-- How they interact: the tools and the daemon act as the resolved identity (Identity). The poller
-- counts unread mail and calls the handler. The handler takes the sender's address (Email.Address),
-- looks it up (Contacts.Store), checks the contact's permission (Contacts.Permission) and the
-- message's trust (Email.Trust and the contact's key), and hands what passes to a worker slot. The
-- worker runs a pipeline, whose calls are checked against the recipes (Daemon.Command, Daemon.Call)
-- before the first of them runs. The recipes are those that the daemon has loaded (Daemon.Loading),
-- each with a signature of the owner (Daemon.Signature, Pgp.Expiry). A stage runs as a process
-- (Daemon.Runner) or as a worker, which gets a contract (Daemon.Mission) and its input between
-- fences (Daemon.Payload). The state of each run is saved (Daemon.Persist), and what a stopped
-- daemon left behind is swept at startup and pruned later. An agent lists and reads its mail
-- (Email.Search, Email.Listing, Mcp.Reading, Mcp.Messages), moves and marks it (Mcp.Moving), sends
-- mail to contacts (Mcp.Recipients, Mcp.Attachments) and answers it (Mcp.Replying, Email.Reply); both
-- leave by Email.Chain. The session's roster (Session) says who takes part, and the tools reach the
-- agent through one registration (Install). Enabling a repository
-- (Enable) adds the import line (ClaudeMd) and the allow rules (Permissions), and disabling takes
-- them away.
--
-- How state and effects are modelled: a method that changes its receiver takes the state and returns
-- the next. An error is a value of a data type with a constructor for each place that makes one; its
-- text is left out. `Run` returns, beside the pipeline and the error, the list of what it did: each
-- save of the pipeline's state and each call of a runner. Slots are taken and freed by a step
-- relation (Daemon.Handler.Capacity), as is the goroutine that prunes (Daemon.Persist.Periodic); the
-- polls of a poller are a list. Where a crash matters
-- (Permissions.Transact, Enable) an operation returns every state of the files that it passes
-- through, and records of Booleans (`System`, `Checks`, `Calls`) say which calls of the operating
-- system end well.
--
-- Numbers and strings: `ℕ` stands for the counts and lengths, which the program never lets wrap;
-- `ℤ` for an `int` that may be negative; a message id keeps its bound of 2 ^ 32. A string is the
-- list of its runes where the program reads it as text, and a list of bytes where it need not be
-- UTF-8 (an email's body). A Unix time is `ℕ`, an expiry in a listing an `int64` with its bounds;
-- times of records are counted in nanoseconds. Columns are counted in runes, as the code does. There
-- is fuel in Install.Scope only, where every round has a shorter path, so that the path's length is
-- enough: every other loop is over a list or counts down.
--
-- What the repository does not define is an argument: the Unicode tables above ASCII (`CaseTables`),
-- `path.Match`, `mail.ParseAddress`, `mime.ParseMediaType`, `net.SplitHostPort`, the JSON schema
-- compiler, `encoding/json`, the clock, gpg, MIME writers, the mail servers and the stores. The
-- theorems hold for all of them, and name what they take `encoding/json` and a YAML reader to promise.
-- So are the planner, the runners and the mission creator, of which `Run` and `OnNewMail` use an
-- interface only.
--
-- gpg is the record `Gpg` of Daemon.Signature, with what each of its runs prints; the processes that
-- `CLIRunner` starts are `Processes`, the files that it looks at `FileSystem`. A directory is the
-- list of its entries, with what decoding each gives; `SaveCalls` and `PruneCalls` say which calls
-- on it end well. The IMAP server is the record `Server` of Email.Search and `Mover` of Email.Listing;
-- the tools that show mail have all that they ask of others in the record `Mail` of Mcp.Reading, the
-- `claude` command is the record `Claude` of Install.
--
-- Not modelled: network, file and process I/O (the connection and the parsing of imap.go, smtp.go,
-- spawner.go, the gpg calls of internal/pgp), the runner of workers (`ClaudeRunner`), the tools for
-- contacts and identities and the websocket server of internal/mcp, the command lines but mcpreg.go,
-- which are glue around these packages, and the texts of log lines and errors. Goroutines appear only
-- as the order of their steps; a timeout is one of the ways a process ends. A string that is not
-- UTF-8 is modelled for bodies only. Composing a message (internal/email) is not modelled either.
pub mod Prelude
pub mod Text
pub mod Utf8
pub mod Contacts
pub mod Daemon
pub mod Email
pub mod ClaudeMd
pub mod Permissions
pub mod Pgp
pub mod Enable
pub mod Mcp
pub mod Identity
pub mod Session
pub mod Install
pub mod Tests
