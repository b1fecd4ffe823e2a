-- ===== src/Mcp/Attachments/Limits.antt =====
-- How much goes along with a message (internal/mcp/tools.go, `readAttachments`).
use beadle.Prelude.{
  ℕ, zero, suc, ◌+◌, ◌≤◌, ◌≡◌, ap, ◌∙◌, sym, refl, inl, inr, true, false, List, [], ◌∷◌, Option,
  none, some, Result, ok, err, length, take, ltb, Bool-cases, arith, ok-injective, >>=-eq-ok,
}
use beadle.Utf8.{Bytes}
use beadle.Text.{Text, codes, has_prefix}
use beadle.Email.Chain.{Attachment}
use beadle.Mcp.Params.{Arguments, ToolError, string_slice_param}
use beadle.Mcp.Attachments.{
  max_attachment_size, Opened, not_opened, no_stat, file, read_limited, read_opened, read_file,
  attachment, read_all, of_param, read_attachments,
}

-- The bytes of all attachments.
abbrev pub total_size : List Attachment → ℕ
total_size [] = 0
total_size (a ∷ rest) = length a.content + total_size rest

take_short :
    {A : Type 0} (n : ℕ) (xs : List A) → length (take (suc n) xs) ≤ n → take (suc n) xs ≡ xs
take_short zero [] h = refl
take_short zero (x ∷ xs) h = absurd (omega (arith, h))
take_short (suc n) [] h = refl
take_short (suc n) (x ∷ xs) h = rw (take_short n xs (omega (arith, h))) refl

ltb-false-le : {a b : ℕ} → ltb a b ≡ false → b ≤ a
ltb-false-le h = ground (arith, h)

module _ (open_file : Text → Opened) (type_by_extension : Text → Text) where
  -- The attachment is the whole of a file with an absolute path.
  pub record IsWhole (path : Text) (a : Attachment) : Type 0 where
    pub absolute : has_prefix path (codes "/") ≡ true
    pub size : ℕ
    pub opened : open_file path ≡ file size (some a.content)

  abbrev pub AreWhole : List Text → List Attachment → Type 0
  AreWhole [] [] = Unit
  AreWhole [] (a ∷ rest) = true ≡ false
  AreWhole (p ∷ paths) [] = true ≡ false
  AreWhole (p ∷ paths) (a ∷ rest) = IsWhole p a × AreWhole paths rest

  read_limited-ok :
      (o : Option Bytes) (bytes : Bytes)
      → read_limited open_file type_by_extension o ≡ ok bytes
      → o ≡ some bytes
  read_limited-ok none bytes h = cc
  read_limited-ok (some content) bytes h =
      let bounded = take (max_attachment_size + 1) content in
      elim (Bool-cases (ltb max_attachment_size (length bounded))) [
        | inl over ↦ cc (rw over at h)
        | inr within ↦ ap some (
            sym (take_short max_attachment_size content (ltb-false-le within))
            ∙ ok-injective (rw within at h))
      ]

  read_opened-ok :
      (o : Opened) (bytes : Bytes)
      → read_opened open_file type_by_extension o ≡ ok bytes
      → (size : ℕ) × (o ≡ file size (some bytes))
  read_opened-ok not_opened bytes h = cc
  read_opened-ok no_stat bytes h = cc
  read_opened-ok (file size content) bytes h = elim (Bool-cases (ltb max_attachment_size size)) [
    | inl over ↦ cc (rw over at h)
    | inr within ↦ (size, ap (file size) (read_limited-ok content bytes (rw within at h)))
  ]

  read_file-ok :
      (path : Text) (bytes : Bytes)
      → read_file open_file type_by_extension path ≡ ok bytes
      → IsWhole path (attachment open_file type_by_extension path bytes)
  unfolding read_file
  read_file-ok path bytes h = elim (Bool-cases (has_prefix path (codes "/"))) [
    | inl rooted ↦
        let (size, e) = read_opened-ok (open_file path) bytes (rw rooted at h) in
        record { absolute = rooted; size = size; opened = e }
    | inr relative ↦ cc (rw relative at h)
  ]

  read_all-ok :
      (total : ℕ) (paths : List Text) (attached : List Attachment)
      → total ≤ max_attachment_size
      → read_all open_file type_by_extension total paths ≡ ok attached
      → AreWhole paths attached × (total + total_size attached ≤ max_attachment_size)
  unfolding read_all
  read_all-ok total [] attached k h = rw⁻¹ (ok-injective h) (tt, omega (arith, k))
  read_all-ok total (p ∷ paths) attached k h =
      let (bytes, f, g) = >>=-eq-ok (read_file open_file type_by_extension p) _ h in
      let whole = read_file-ok p bytes f in
      elim (Bool-cases (ltb max_attachment_size (total + length bytes))) [
        | inl over ↦ cc (rw over at g)
        | inr within ↦
            let (rest, r, e) =
              >>=-eq-ok (read_all open_file type_by_extension (total + length bytes) paths) _
                (rw within at g) in
            let (all, bound) =
              read_all-ok (total + length bytes) paths rest (ltb-false-le within) r in
            rw⁻¹ (ok-injective e) ((whole, all), omega (arith, bound))
      ]

  -- The files that an argument names; none where it is missing.
  abbrev pub paths_of : Result ToolError (Option (List Text)) → List Text
  paths_of (ok (some paths)) = paths
  paths_of r = []

  of_param-ok :
      (r : Result ToolError (Option (List Text))) (attached : List Attachment)
      → of_param open_file type_by_extension r ≡ ok attached
      → AreWhole (paths_of r) attached × (total_size attached ≤ max_attachment_size)
  of_param-ok (err e) attached h = cc
  of_param-ok (ok none) attached h = rw⁻¹ (ok-injective h) (tt, omega arith)
  of_param-ok (ok (some paths)) attached h =
      let (whole, bound) = read_all-ok 0 paths attached (omega arith) h in
      (whole, omega (arith, bound))

  -- What `read_attachments` returns, whatever the files are and whatever `Stat` says of their sizes:
  -- one attachment for each path of the argument, in order, every path absolute and every attachment
  -- the whole of its file; and all of them together have at most 25 MB.
  pub read_attachments-ok :
      (args : Arguments) (attached : List Attachment)
      → read_attachments open_file type_by_extension args ≡ ok attached
      → AreWhole (paths_of (string_slice_param args (codes "attachments"))) attached
        × (total_size attached ≤ max_attachment_size)
  unfolding read_attachments
  read_attachments-ok args attached h =
      of_param-ok (string_slice_param args (codes "attachments")) attached h
