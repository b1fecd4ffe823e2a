-- ===== src/Permissions/Allow/Restored.antt =====
-- Removing the rules that were added (`plan`, internal/permissions/permissions.go) restores the list.
use mathlib.Core.List.{append_assoc, append-nil}
use beadle.Prelude.{
  ◌≡◌, ◌∙◌, refl, Bool, true, false, ◌||◌, List, [], ◌∷◌, ◌++◌, none, some, arith, Bool-cases,
  Option-cases, inl, inr, All, any,
}
use beadle.Text.{Text, equal, member}
use beadle.Text.Laws.{equal_iff, equal_refl}
use beadle.Permissions.Json.{Raw, Json}
use beadle.Permissions.Allow.{is_rule, has_rule, add_rules, named, drop_rules}

any-append {ℓ} :
    {A : Type ℓ} (p : A → Bool) (xs ys : List A) → any p (xs ++ ys) ≡ (any p xs || any p ys)
any-append p [] ys = refl
any-append p (x ∷ xs) ys = ground (arith, any-append p xs ys)

module _ (json : Json) where
  -- Values appended one after the other, each for a rule that the list did not hold yet.
  abbrev IsFresh : List Raw → List Raw → List Text → Type 0
  IsFresh allow [] [] = Unit
  IsFresh allow (e ∷ es) (n ∷ ns) =
      (json.decode_string e ≡ some n)
      × (has_rule json allow n ≡ false)
      × IsFresh (allow ++ e ∷ []) es ns
  IsFresh allow _ _ = ⊥

  has_rule-append :
      (allow more : List Raw) (n : Text)
      → has_rule json (allow ++ more) n ≡ (has_rule json allow n || has_rule json more n)
  unfolding has_rule
  has_rule-append allow more n = any-append (is_rule json n) allow more

  has_rule-one :
      (e : Raw) (n : Text) → json.decode_string e ≡ some n → has_rule json (e ∷ []) n ≡ true
  unfolding has_rule
  has_rule-one e n h = ground (arith, equal_refl n)

  IsFresh-absent :
      (allow es : List Raw) (ns : List Text) (s : Text)
      → IsFresh allow es ns
      → member s ns ≡ true
      → has_rule json allow s ≡ false
  unfolding member
  IsFresh-absent allow [] [] s f m = cc
  IsFresh-absent allow (e ∷ es) [] s f m = absurd f
  IsFresh-absent allow [] (n ∷ ns) s f m = absurd f
  IsFresh-absent allow (e ∷ es) (n ∷ ns) s f m = ground (
    arith,
    equal_iff s n,
    IsFresh-absent (allow ++ e ∷ []) es ns s f.2,
    has_rule-append allow (e ∷ []) s,
  )

  -- The rules removed are none of the values.
  abbrev IsApart : List Text → List Raw → Type 0
  IsApart ns allow = All (λ raw. named json ns raw ≡ none) allow

  has_rule-IsApart :
      (ns : List Text) (allow : List Raw)
      → ((s : Text) → member s ns ≡ true → has_rule json allow s ≡ false)
      → IsApart ns allow
  unfolding has_rule
  has_rule-IsApart ns [] h = tt
  has_rule-IsApart ns (raw ∷ allow) h = (
    elim (Option-cases (json.decode_string raw)) [
      | inl other ↦ ground arith
      | inr (s, rule) ↦ ground (arith, equal_refl s, h s)
    ],
    has_rule-IsApart ns allow (λ s m. ground (arith, h s m)),
  )

  drop_rules-append :
      (ns : List Text) (allow more : List Raw) (c : List Text)
      → IsApart ns allow
      → drop_rules json ns (allow ++ more) c
        ≡ (let (kept, all) = drop_rules json ns more c in (allow ++ kept, all))
  unfolding drop_rules
  drop_rules-append ns [] more c h = refl
  drop_rules-append ns (raw ∷ allow) more c h =
      ground (arith, h.0, drop_rules-append ns allow more c h.1)

  -- The rules met so far are in the list.
  abbrev IsMet : List Raw → List Text → Type 0
  IsMet allow c = (s : Text) → member s c ≡ true → has_rule json allow s ≡ true

  member-append : (s n : Text) (c : List Text) → member s (c ++ n ∷ []) ≡ (member s c || equal s n)
  unfolding member
  member-append s n [] = ground arith
  member-append s n (d ∷ c) = ground (arith, member-append s n c)

  IsMet-append :
      (allow : List Raw) (e : Raw) (n : Text) (c : List Text)
      → json.decode_string e ≡ some n
      → IsMet allow c
      → IsMet (allow ++ e ∷ []) (c ++ n ∷ [])
  IsMet-append allow e n c d h s m = ground (
    arith,
    h s,
    member-append s n c,
    equal_iff s n,
    has_rule-append allow (e ∷ []) s,
    has_rule-one e n d,
  )

  IsFresh-drop_rules :
      (all : List Text) (allow es : List Raw) (ns c : List Text)
      → IsFresh allow es ns
      → IsMet allow c
      → All (λ n. member n all ≡ true) ns
      → drop_rules json all es c ≡ ([], c ++ ns)
  unfolding drop_rules
  IsFresh-drop_rules all allow [] [] c f h m = rw append-nil refl
  IsFresh-drop_rules all allow [] (n ∷ ns) c f h m = absurd f
  IsFresh-drop_rules all allow (e ∷ es) [] c f h m = absurd f
  IsFresh-drop_rules all allow (e ∷ es) (n ∷ ns) c f h m = ground (
    arith,
    f.0,
    f.1,
    m.0,
    h n,
    append_assoc c (n ∷ []) ns,
    IsFresh-drop_rules all (allow ++ e ∷ []) es ns (c ++ n ∷ []) f.2
        (IsMet-append allow e n c f.0 h) m.1,
  )

member-cons : (n k : Text) (ns : List Text) → member n ns ≡ true → member n (k ∷ ns) ≡ true
unfolding member
member-cons n k ns h = ground arith

All-member-cons :
    (k : Text) (all ns : List Text)
    → All (λ n. member n all ≡ true) ns
    → All (λ n. member n (k ∷ all) ≡ true) ns
All-member-cons k all [] h = tt
All-member-cons k all (n ∷ ns) h = (member-cons n k all h.0, All-member-cons k all ns h.1)

All-member : (ns : List Text) → All (λ n. member n ns ≡ true) ns
unfolding member
All-member [] = tt
All-member (n ∷ ns) = (ground (arith, equal_refl n), All-member-cons n ns ns (All-member ns))

module _ (json : Json) where
  IsMet-nil : (allow : List Raw) → IsMet json allow []
  unfolding member
  IsMet-nil allow s m = cc

  drop_rules-IsFresh :
      (allow es : List Raw) (ns : List Text)
      → IsFresh json allow es ns
      → drop_rules json ns (allow ++ es) [] ≡ (allow, ns)
  drop_rules-IsFresh allow es ns f =
      drop_rules-append json ns allow es []
        (has_rule-IsApart json ns allow (λ s m. IsFresh-absent json allow es ns s f m))
      ∙ rw
          (
            IsFresh-drop_rules json ns allow es ns [] f (IsMet-nil allow) (All-member ns),
            append-nil,
          )
          refl

-- What `encoding/json` promises of strings: reading what was written gives the string back.
abbrev pub IsReadBack : Json → Type 0
IsReadBack json =
    (s : Text) (enc : Raw) → json.encode_string s ≡ some enc → json.decode_string enc ≡ some s

module _ (json : Json) (read_back : IsReadBack json) where
  -- What the loop that adds has appended to the list and to the rules added.
  record Added (allow : List Raw) (changed : List Text) (r : List Raw × List Text) : Type 0 where
    values : List Raw
    new : List Text
    list : r.0 ≡ allow ++ values
    all : r.1 ≡ changed ++ new
    fresh : IsFresh json allow values new

  add_rules-Added :
      (rs : List Text) (allow : List Raw) (changed : List Text) {r : List Raw × List Text}
      → add_rules json rs allow changed ≡ some r
      → Added allow changed r
  unfolding add_rules
  add_rules-Added [] allow changed {r} h = record {
    values = [];
    new = [];
    list = rw append-nil (ground arith);
    all = rw append-nil (ground arith);
    fresh = tt;
  }
  add_rules-Added (rule ∷ rs) allow changed {r} h = elim (Bool-cases (has_rule json allow rule)) [
    | inl there ↦ add_rules-Added rs allow changed (ground arith)
    | inr missing ↦ elim (Option-cases (json.encode_string rule)) [
      | inl failed ↦ absurd (ground arith)
      | inr (enc, encoded) ↦
          let a =
            add_rules-Added rs (allow ++ enc ∷ []) (changed ++ rule ∷ []) {r = r} (ground arith) in
          record {
            values = enc ∷ a.values;
            new = rule ∷ a.new;
            list = a.list ∙ append_assoc allow (enc ∷ []) a.values;
            all = a.all ∙ append_assoc changed (rule ∷ []) a.new;
            fresh = (read_back rule enc encoded, missing, a.fresh);
          }
    ]
  ]

  -- If a string that was encoded decodes to itself, removing exactly the rules that the loop of
  -- `plan` has added gives the list back as it was, with all the rules that stood in it before, and
  -- reports exactly those rules.
  pub drop_rules-add_rules :
      (rs : List Text) (allow : List Raw) {more : List Raw} {changed : List Text}
      → add_rules json rs allow [] ≡ some (more, changed)
      → drop_rules json changed more [] ≡ (allow, changed)
  drop_rules-add_rules rs allow h =
      let a = add_rules-Added rs allow [] h in
      rw (a.list, a.all) (drop_rules-IsFresh json allow a.values a.new a.fresh)
