-- ===== src/Mcp/Attachments.antt =====
-- internal/mcp/tools.go, `readAttachments`: the files that go along with a message.
pub mod Limits
use beadle.Prelude.{
  ℕ, ◌+◌, Bool, true, false, List, [], ◌∷◌, Option, none, some, Result, ok, err, ◌>>=◌,
  if◌then◌else◌, is_nil, length, take, ltb, ◌==◌, reverse, ◌++◌,
}
use beadle.Utf8.{Bytes}
use beadle.Text.{Text, codes, has_prefix}
use beadle.Text.Path.{base}
use beadle.Email.Chain.{Attachment}
use beadle.Mcp.Params.{Arguments, ToolError, string_slice_param}

abbrev pub max_attachment_size : ℕ
max_attachment_size = 26214400

-- What opening a path gives: an error, at once or of `Stat`, or a file with its size and what reading
-- it to the end gives.
pub data Opened : Type 0 where
  not_opened no_stat : Opened
  file : ℕ → Option Bytes → Opened

pub data AttachmentError : Type 0 where
  bad_paths relative not_found too_large unreadable total_too_large : AttachmentError

-- `filepath.Ext`.
abbrev pub ext_from : Text → Text → Text
ext_from acc [] = []
ext_from acc (c ∷ s) =
    let rest = ext_from (c ∷ acc) s in if c == b'.' then c ∷ acc else if c == b'/' then [] else rest

unfoldable pub ext : Text → Text
ext path = ext_from [] (reverse path)

module _ (open_file : Text → Opened) (type_by_extension : Text → Text) where
  abbrev pub content_type : Text → Text
  content_type path =
      let t = type_by_extension (ext path) in
      if is_nil t then codes "application/octet-stream" else t

  -- What `io.ReadAll` gives behind the limit of one byte more than may be.
  abbrev pub read_limited : Option Bytes → Result AttachmentError Bytes
  read_limited none = err unreadable
  read_limited (some content) =
      let bytes = take (max_attachment_size + 1) content in
      if ltb max_attachment_size (length bytes) then err too_large else ok bytes

  abbrev pub read_opened : Opened → Result AttachmentError Bytes
  read_opened not_opened = err not_found
  read_opened no_stat = err not_found
  read_opened (file size content) =
      if ltb max_attachment_size size then err too_large else read_limited content

  unfoldable pub read_file : Text → Result AttachmentError Bytes
  unfolding has_prefix
  read_file path =
      if has_prefix path (codes "/") then read_opened (open_file path) else err relative

  abbrev pub attachment : Text → Bytes → Attachment
  attachment path bytes = record {
    filename = base path;
    content_type = content_type path;
    content = bytes;
  }

  -- The loop, with `totalSize`.
  unfoldable pub read_all : ℕ → List Text → Result AttachmentError (List Attachment)
  unfolding read_file base ext
  read_all total [] = ok []
  read_all total (path ∷ paths) = read_file path >>= λ bytes.
      if ltb max_attachment_size (total + length bytes)
      then err total_too_large
      else (read_all (total + length bytes) paths >>= λ rest. ok (attachment path bytes ∷ rest))

  -- `readAttachments`.
  abbrev pub of_param :
      Result ToolError (Option (List Text)) → Result AttachmentError (List Attachment)
  of_param (err e) = err bad_paths
  of_param (ok none) = ok []
  of_param (ok (some paths)) = read_all 0 paths

  unfoldable pub read_attachments : Arguments → Result AttachmentError (List Attachment)
  unfolding read_all string_slice_param
  read_attachments args = of_param (string_slice_param args (codes "attachments"))
