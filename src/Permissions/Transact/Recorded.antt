-- ===== src/Permissions/Transact/Recorded.antt =====
-- A crash in a grant (`transact`, internal/permissions/permissions.go) leaves no rule unrecorded.
use beadle.Prelude.{
  ◌≡◌, ◌⊎◌, refl, true, ◌||◌, List, [], ◌∷◌, ◌++◌, Option, none, some, ok, arith, Bool-cases,
  Option-cases, Result-cases, inl, inr, if◌then◌else◌, All,
}
use beadle.Text.{Text, equal, member}
use beadle.Text.Laws.{equal_refl}
use beadle.Utf8.{Bytes}
use beadle.Permissions.Json.{Json}
use beadle.Permissions.Allow.{rules, plan}
use beadle.Permissions.Transact.{
  Disk, System, grant, Edit, merge, read_granted, granted_file, roll_back, write_grant, transact,
}

member-append : (s n : Text) (c : List Text) → member s (c ++ n ∷ []) ≡ (member s c || equal s n)
unfolding member
member-append s n [] = ground arith
member-append s n (d ∷ c) = ground (arith, member-append s n c)

merge-keeps : (s : Text) (m c : List Text) → member s m ≡ true → member s (merge m c) ≡ true
unfolding merge
merge-keeps s m [] h = h
merge-keeps s m (rule ∷ c) h = elim (Bool-cases (member rule m)) [
  | inl old ↦ rw old (merge-keeps s m c h)
  | inr new ↦ rw new (merge-keeps s (m ++ rule ∷ []) c (ground (arith, member-append s rule m)))
]

-- The record keeps what it holds and gets all the rules added.
merge-holds : (m c : List Text) → All (λ s. member s (merge m c) ≡ true) c
unfolding merge
merge-holds m [] = tt
merge-holds m (rule ∷ c) = (
  elim (Bool-cases (member rule m)) [
    | inl old ↦ rw old (merge-keeps rule m c old)
    | inr new ↦ rw new (
        merge-keeps rule (m ++ rule ∷ []) c
          (ground (arith, member-append rule rule m, equal_refl rule)))
  ],
  merge-holds (if member rule m then m else m ++ rule ∷ []) c,
)

-- What `encoding/json` promises of lists of strings: reading what was written, with a line feed
-- behind it, gives the list back.
abbrev pub IsListReadBack : Json → Type 0
IsListReadBack json =
    (l : List Text) (s : Bytes)
    → json.encode_strings l ≡ some s
    → json.decode_strings (s ++ b'\n' ∷ []) ≡ some l

module _ (json : Json) (read_back : IsListReadBack json) where
  -- The record can be read and holds the rules.
  pub record Holds (granted : Option Bytes) (changed : List Text) : Type 0 where
    pub recorded : List Text
    pub read : read_granted json granted ≡ ok recorded
    pub held : All (λ s. member s recorded ≡ true) changed

  read_granted-granted_file :
      (l : List Text) {g : Option Bytes} → granted_file json l ≡ some g → read_granted json g ≡ ok l
  unfolding read_granted granted_file
  read_granted-granted_file [] {g} h = ground arith
  read_granted-granted_file (r ∷ l) {g} h = elim (Option-cases (json.encode_strings (r ∷ l))) [
    | inl failed ↦ absurd (ground arith)
    | inr (s, written) ↦ ground (arith, read_back (r ∷ l) s written)
  ]

  -- The settings of the disk are the old ones, or its record holds the rules.
  abbrev pub IsRecorded : Disk → List Text → Disk → Type 0
  IsRecorded d changed x = (x.settings ≡ d.settings) ⊎ Holds x.granted changed

  -- What is promised of a grant and of every state that it passes through.
  abbrev pub IsSafe : Disk → Edit → Type 0
  IsSafe d e =
      All (IsRecorded d e.changed) e.disks
      × ((e.error ≡ none) ⊎ All (λ (x : Disk). x.settings ≡ d.settings) e.disks)

  roll_back-IsSafe :
      (sys : System) (d : Disk) (g : Option Bytes) (granted : List Text)
      → IsSafe d (roll_back json sys d (record d { granted = g }) granted)
  unfolding roll_back
  roll_back-IsSafe sys d g granted = elim (Option-cases (granted_file json granted)) [
    | inl failed ↦ rw (failed, roll_back) ((inl refl, (inl refl, tt)), inr (refl, (refl, tt)))
    | inr (h, ready) ↦ elim (Bool-cases sys.restores) [
      | inl done ↦
          rw (ready, roll_back, done)
            ((inl refl, (inl refl, (inl refl, tt))), inr (refl, (refl, (refl, tt))))
      | inr undone ↦
          rw (ready, roll_back, undone) ((inl refl, (inl refl, tt)), inr (refl, (refl, tt)))
    ]
  ]

  write_grant-IsSafe :
      (sys : System) (d : Disk) (granted : List Text) (edit : List Text × Option Text)
      → IsSafe d (write_grant json sys d granted edit)
  unfolding write_grant roll_back
  write_grant-IsSafe sys d granted ([], out) = ((inl refl, tt), inl refl)
  write_grant-IsSafe sys d granted (rule ∷ changed, out) =
      elim (Option-cases (granted_file json (merge granted (rule ∷ changed)))) [
        | inl failed ↦ rw (failed, write_grant) ((inl refl, tt), inr (refl, tt))
        | inr (g, ready) ↦ elim (Bool-cases sys.records) [
          | inr refused ↦ rw (ready, write_grant, refused) ((inl refl, tt), inr (refl, tt))
          | inl recorded ↦ elim (Bool-cases sys.writes) [
            | inr refused ↦
                rw (ready, write_grant, recorded, refused) (roll_back-IsSafe sys d g granted)
            | inl written ↦
                let holds : Holds g (rule ∷ changed) = record {
                  recorded = merge granted (rule ∷ changed);
                  read = read_granted-granted_file (merge granted (rule ∷ changed)) ready;
                  held = merge-holds granted (rule ∷ changed);
                } in
                rw (ready, write_grant, recorded, written)
                  ((inl refl, (inl refl, (inr holds, tt))), inl refl)
          ]
        ]
      ]

  -- If a list of strings that was encoded decodes to itself: in every state that a grant passes
  -- through, the settings are as they were before or the record can be read and holds every rule
  -- added; and a grant that reports an error leaves the settings as they were.
  pub transact-IsSafe : (sys : System) (d : Disk) → IsSafe d (transact json sys grant d)
  unfolding transact
  transact-IsSafe sys d = elim (Bool-cases sys.reads) [
    | inr closed ↦ rw (closed, transact) ((inl refl, tt), inr (refl, tt))
    | inl readable ↦ elim (Result-cases (read_granted json d.granted)) [
      | inl (e, bad) ↦ rw (readable, transact, bad) ((inl refl, tt), inr (refl, tt))
      | inr (granted, good) ↦ elim (Result-cases (plan json d.settings true rules)) [
        | inl (e, bad) ↦ rw (readable, transact, good, bad) ((inl refl, tt), inr (refl, tt))
        | inr (edit, planned) ↦
            rw (readable, transact, good, planned) (write_grant-IsSafe sys d granted edit)
      ]
    ]
  ]
