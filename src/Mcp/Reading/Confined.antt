-- ===== src/Mcp/Reading/Confined.antt =====
-- Where an attachment is saved (internal/mcp/tools.go, `downloadAttachment`).
use beadle.Prelude.{
  ℕ, ◌≡◌, ap, refl, inl, inr, Bool, true, false, List, [], ◌∷◌, ◌++◌, Option, none, some, Result,
  ok, err, if◌then◌else◌, All, Bool-cases, Option-cases, arith,
}
use beadle.Prelude.Int.{ℤ, pos, negsuc}
use beadle.Utf8.{Bytes}
use beadle.Text.{Text, CaseTables, codes}
use beadle.Daemon.Handler.{parse_uint32}
use beadle.Mcp.Format.{MimePart}
use beadle.Mcp.Params.{
  Arguments, ToolError, not_connected, no_context, string_param, int_param, message_uid,
}
use beadle.Mcp.Reading.{Mail, may_read, refusal}
use beadle.Mcp.Reading.Plain.{IsPlain, attachment_name-IsPlain, joined_name, parse_uint32-IsPlain}
use beadle.Mcp.Reading.Whole.{
  attachment_name, in_dir, save_part, save_in, save_extracted, save_attachment, download_part,
  with_index, download_attachment,
}

if_files :
    (P : List (Text × Bytes) → Type 0) (b : Bool)
    (x y : Result ToolError Text × List (Text × Bytes))
    → (b ≡ true → P x.1)
    → P y.1
    → P (if b then x else y).1
if_files P true x y h k = h refl
if_files P false x y h k = k

message_uid-ok : (id : Text) (uid : ℕ) → message_uid (some id) ≡ ok uid → parse_uint32 id ≡ some uid
unfolding message_uid
message_uid-ok id uid h = elim (Option-cases (parse_uint32 id)) [
  | inl e ↦ absurd (ground (arith, e, h))
  | inr (n, e) ↦ ground (arith, e, h)
]

module _ ⦃u : CaseTables⦄ (m : Mail) where
  -- A file that is written: in the directory, under a name that begins with the message's number;
  -- and the sender of a message that the server gave may be read.
  pub record IsSaved (args : Arguments) (id path : Text) : Type 0 where
    pub uid : ℕ
    pub numbered : parse_uint32 id ≡ some uid
    pub raw : Bytes
    pub fetched : m.fetch_raw (string_param args (codes "folder") (codes "INBOX")) uid ≡ some raw
    pub readable : may_read m (m.headers_from raw) ≡ true
    pub dir : Text
    pub given : m.attachment_dir ≡ some dir
    pub rest : Text
    pub plain : IsPlain id × IsPlain rest
    pub placed : path ≡ dir ++ (codes "/" ++ (id ++ (codes "_" ++ rest)))

  abbrev pub AreSaved : Arguments → Text → List (Text × Bytes) → Type 0
  AreSaved args id files = All (λ f. IsSaved args id f.0) files

  -- The name under which a part is saved.
  abbrev part_path : Text → Text → ℕ → MimePart → Text
  part_path dir id i part = in_dir dir (id ++ (codes "_" ++ attachment_name part.filename i))

  save_part-writes :
      (dir id : Text) (i : ℕ) (part : MimePart) (bytes : Bytes)
      → (save_part m dir id i (part, bytes)).1 ≡ (part_path dir id i part, bytes) ∷ []
  save_part-writes dir id i part bytes =
      elim (Bool-cases (m.writes (part_path dir id i part) bytes)) [
        | inl e ↦ rw e refl
        | inr e ↦ rw e refl
      ]

  module _ (args : Arguments) (id : Text) (uid : ℕ) (numbered : parse_uint32 id ≡ some uid)
      (i : ℕ) where
    part-IsSaved :
        (raw : Bytes) (dir : Text) (part : MimePart)
        → m.fetch_raw (string_param args (codes "folder") (codes "INBOX")) uid ≡ some raw
        → may_read m (m.headers_from raw) ≡ true
        → m.attachment_dir ≡ some dir
        → IsSaved args id (part_path dir id i part)
    part-IsSaved raw dir part f r g =
        let k = parse_uint32-IsPlain id uid numbered in
        let (rest, e, p) =
          joined_name id (attachment_name part.filename i) (attachment_name-IsPlain part.filename i)
            k in
        record {
          uid = uid;
          numbered = numbered;
          raw = raw;
          fetched = f;
          readable = r;
          dir = dir;
          given = g;
          rest = rest;
          plain = (k, p);
          placed = ap (λ s. dir ++ (codes "/" ++ s)) e;
        }

    save_in-AreSaved :
        (raw : Bytes) (part : MimePart) (bytes : Bytes) (o : Option Text)
        → m.fetch_raw (string_param args (codes "folder") (codes "INBOX")) uid ≡ some raw
        → may_read m (m.headers_from raw) ≡ true
        → m.attachment_dir ≡ o
        → AreSaved args id (save_in m id i (part, bytes) o).1
    save_in-AreSaved raw part bytes none f r g = tt
    save_in-AreSaved raw part bytes (some dir) f r g =
        rw (save_part-writes dir id i part bytes) (part-IsSaved raw dir part f r g, tt)

    save_extracted-AreSaved :
        (raw : Bytes) (o : Option (MimePart × Bytes))
        → m.fetch_raw (string_param args (codes "folder") (codes "INBOX")) uid ≡ some raw
        → may_read m (m.headers_from raw) ≡ true
        → AreSaved args id (save_extracted m id i o).1
    save_extracted-AreSaved raw none f r = tt
    save_extracted-AreSaved raw (some (part, bytes)) f r =
        save_in-AreSaved raw part bytes m.attachment_dir f r refl

    save_attachment-AreSaved :
        (o : Option Bytes)
        → m.fetch_raw (string_param args (codes "folder") (codes "INBOX")) uid ≡ o
        → AreSaved args id (save_attachment m id i o).1
    unfolding save_attachment
    save_attachment-AreSaved none f = tt
    save_attachment-AreSaved (some raw) f =
        if_files (AreSaved args id) (may_read m (m.headers_from raw))
          (save_extracted m id i (m.extract_part raw i)) (err (refusal m (m.headers_from raw)), [])
          (λ may. save_extracted-AreSaved raw (m.extract_part raw i) f may) tt

  download_part-AreSaved :
      (args : Arguments) (id : Text) (index : ℤ) (r : Result ToolError ℕ)
      → ((uid : ℕ) → r ≡ ok uid → parse_uint32 id ≡ some uid)
      → AreSaved args id (download_part m args id index r).1
  download_part-AreSaved args id (negsuc n) r e = tt
  download_part-AreSaved args id (pos i) (err x) e = tt
  download_part-AreSaved args id (pos i) (ok uid) e =
      if_files (AreSaved args id) m.connects
        (save_attachment m id i
          (m.fetch_raw (string_param args (codes "folder") (codes "INBOX")) uid))
        (err not_connected, []) (λ c. save_attachment-AreSaved args id uid (e uid refl) i _ refl) tt

  with_index-AreSaved :
      (args : Arguments) (id : Text) (index : Result ToolError ℤ)
      → AreSaved args id (with_index m args (some id) index).1
  with_index-AreSaved args id (err e) = tt
  with_index-AreSaved args id (ok index) =
      download_part-AreSaved args id index (message_uid (some id)) (message_uid-ok id)

  -- Whatever the server says and the attachment is called: a file that `download_attachment` writes
  -- is of a message whose sender may be read, and stands directly in the identity's attachment
  -- directory, its name being the message's number, "_" and a text without a slash.
  pub download_attachment-AreSaved :
      (args : Arguments) (id : Text) → AreSaved args id (download_attachment m args (some id)).1
  unfolding download_attachment
  download_attachment-AreSaved args id =
      if_files (AreSaved args id) m.has_context
        (with_index m args (some id) (int_param args (codes "part_index") (negsuc 0)))
        (err no_context, [])
        (λ c. with_index-AreSaved args id (int_param args (codes "part_index") (negsuc 0))) tt
