-- ===== src/Mcp/Replying/Behind.antt =====
-- Where a reply goes and what its headers put it behind, of the original that it answers
-- (internal/email/reply.go, internal/mcp/tools.go).
use beadle.Prelude.{◌≡◌, inl, inr, refl, true, false, List, [], ◌∷◌, ◌++◌, is_nil, Bool-cases}
use beadle.Text.{Text, fields, trim_space}
use beadle.Text.Trim.{trim_space_idem}
use beadle.Email.Address.{ParseAddress, extract_email_address}
use beadle.Email.Chain.{Mail}
use beadle.Email.Reply.{Original, parent_chain, build_references, thread_of}
use beadle.Mcp.Replying.{threading_of}

-- The address that answers go to: that of the header Reply-To, or the sender's where that gives none.
pub data IsAnswerAddress (parse_address : ParseAddress) (o : Original) : Text → Type 0 where
  by_reply_to :
      is_nil (extract_email_address parse_address o.reply_to) ≡ false
      → IsAnswerAddress parse_address o (extract_email_address parse_address o.reply_to)
  by_sender :
      is_nil (extract_email_address parse_address o.reply_to) ≡ true
      → IsAnswerAddress parse_address o (extract_email_address parse_address o.from)

-- The ids that the original names as before it: those of its References, or of its In-Reply-To where
-- that header is blank.
pub data IsChain (o : Original) : List Text → Type 0 where
  by_references : is_nil (trim_space o.references) ≡ false → IsChain o (fields o.references)
  by_parent :
      is_nil (trim_space o.references) ≡ true
      → is_nil (trim_space o.in_reply_to) ≡ false
      → IsChain o (fields o.in_reply_to)
  alone :
      is_nil (trim_space o.references) ≡ true
      → is_nil (trim_space o.in_reply_to) ≡ true
      → IsChain o []

-- The mail's headers put it behind the original: it answers its id, which stands behind the chain in
-- the references. To an original without an id there is neither header.
pub data IsBehind (o : Original) (m : Mail) : Type 0 where
  behind :
      {earlier : List Text}
      → IsChain o earlier
      → is_nil (trim_space o.message_id) ≡ false
      → m.threading.in_reply_to ≡ trim_space o.message_id
      → m.threading.references ≡ earlier ++ trim_space o.message_id ∷ []
      → IsBehind o m
  without_id :
      is_nil (trim_space o.message_id) ≡ true
      → m.threading.in_reply_to ≡ []
      → m.threading.references ≡ []
      → IsBehind o m

build_references-id :
    (references in_reply_to id : Text)
    → trim_space id ≡ id
    → is_nil id ≡ false
    → build_references references in_reply_to id ≡ parent_chain references in_reply_to ++ id ∷ []
unfolding build_references
build_references-id references in_reply_to id e h = rw (e, h) refl

parent_chain-IsChain : (o : Original) → IsChain o (parent_chain o.references o.in_reply_to)
parent_chain-IsChain o = elim (Bool-cases (is_nil (trim_space o.references))) [
  | inr named ↦ rw named (by_references named)
  | inl blank ↦ rw blank (elim (Bool-cases (is_nil (trim_space o.in_reply_to))) [
    | inr named ↦ rw named (by_parent blank named)
    | inl lone ↦ rw lone (alone blank lone)
  ])
]

module _ (parse_address : ParseAddress) (o : Original) where
  pub thread_of-IsAnswerAddress :
      IsAnswerAddress parse_address o (thread_of parse_address o).reply_to
  unfolding thread_of
  thread_of-IsAnswerAddress =
      elim (Bool-cases (is_nil (extract_email_address parse_address o.reply_to))) [
        | inr given ↦ rw given (by_reply_to given)
        | inl missing ↦ rw missing (by_sender missing)
      ]

  thread_of-id : (thread_of parse_address o).message_id ≡ trim_space o.message_id
  unfolding thread_of
  thread_of-id = refl

  pub thread_of-subject : (thread_of parse_address o).subject ≡ o.subject
  unfolding thread_of
  thread_of-subject = refl

  thread_of-references :
      is_nil (trim_space o.message_id) ≡ false
      → (thread_of parse_address o).references
        ≡ parent_chain o.references o.in_reply_to ++ trim_space o.message_id ∷ []
  unfolding thread_of
  thread_of-references =
      build_references-id o.references o.in_reply_to (trim_space o.message_id)
        (trim_space_idem o.message_id)

  pub threading_of-IsBehind :
      (m : Mail) → m.threading ≡ threading_of (thread_of parse_address o) → IsBehind o m
  threading_of-IsBehind m e = elim (Bool-cases (is_nil (trim_space o.message_id))) [
    | inl empty ↦
        let f : m.threading ≡ record { in_reply_to = []; references = [] } =
          rw (thread_of-id, empty) at e in
        without_id empty (rw f refl) (rw f refl)
    | inr full ↦
        let g : is_nil (thread_of parse_address o).message_id ≡ false = rw thread_of-id full in
        let f : m.threading ≡ record {
          in_reply_to = (thread_of parse_address o).message_id;
          references = (thread_of parse_address o).references;
        } =
          rw g at e in
        behind (parent_chain-IsChain o) full (rw f thread_of-id) (rw f (thread_of-references full))
  ]
