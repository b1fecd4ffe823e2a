-- ===== src/Mcp/Params/Uids.antt =====
-- Which messages a batch names (internal/mcp/tools.go, `parseUIDs`).
use beadle.Prelude.{
  ℕ, ◌<◌, ◌≡◌, ◌⊎◌, inl, inr, refl, Bool, true, false, List, [], ◌∷◌, Option, none, some, Result,
  ok, err, any, All, All-map, arith, Bool-cases, ==_iff, ◌==◌, ◌↔◌,
}
use beadle.Text.{Text}
use beadle.Daemon.Handler.{parse_uint32}
use beadle.Email.Search.{dedup_from, dedup_uids}
use beadle.Mcp.Params.{ToolError, bad_ids, invalid, add_id, parse_ids, checked_ids, parse_uids}

abbrev pub has_uid : ℕ → List ℕ → Bool
has_uid u us = any (λ v. v == u) us

-- No UID stands twice.
abbrev pub AreDistinct : List ℕ → Type 0
AreDistinct [] = Unit
AreDistinct (u ∷ us) = (has_uid u us ≡ false) × AreDistinct us

-- The text is the number of a message.
abbrev pub IsId : Text → ℕ → Type 0
IsId id u = (parse_uint32 id ≡ some u) × (0 < u) × (u < 4294967296)

-- One of the texts is the number.
abbrev pub AreNaming : List Text → ℕ → Type 0
AreNaming [] u = true ≡ false
AreNaming (id ∷ ids) u = IsId id u ⊎ AreNaming ids u

-- The text is the number of one of these messages.
abbrev pub IsAmong : List ℕ → Text → Type 0
IsAmong uids id = (u : ℕ) × IsId id u × (has_uid u uids ≡ true)

-- One of the texts is not the number of a message.
abbrev pub HasInvalid : List Text → Type 0
HasInvalid [] = true ≡ false
HasInvalid (id ∷ ids) = ((u : ℕ) → ¬ IsId id u) ⊎ HasInvalid ids

dedup_from_iff :
    (seen us : List ℕ) (u : ℕ)
    → has_uid u (dedup_from seen us) ≡ true ↔ ((has_uid u seen ≡ false) × (has_uid u us ≡ true))
unfolding dedup_from
dedup_from_iff seen [] u = ground arith
dedup_from_iff seen (v ∷ us) u =
    ground (arith, dedup_from_iff seen us u, dedup_from_iff (v ∷ seen) us u)

dedup_from-AreDistinct : (seen us : List ℕ) → AreDistinct (dedup_from seen us)
unfolding dedup_from
dedup_from-AreDistinct seen [] = tt
dedup_from-AreDistinct seen (v ∷ us) = elim (Bool-cases (has_uid v seen)) [
  | inl e ↦ rw e (dedup_from-AreDistinct seen us)
  | inr e ↦
      rw e (ground (arith, dedup_from_iff (v ∷ seen) us v), dedup_from-AreDistinct (v ∷ seen) us)
]

parse_uint32_bound : (s : Text) (n : ℕ) → parse_uint32 s ≡ some n → n < 4294967296
unfolding parse_uint32
parse_uint32_bound [] n h = cc
parse_uint32_bound (c ∷ s) n h = ground arith

-- What the loop has read so far.
record AreRead (ids : List Text) (r : List ℕ × List Text) : Type 0 where
  read :
      ((r.1 ≡ []) × All (IsAmong r.0) ids)
      ⊎ (HasInvalid ids × ((e : Text) × (errs : List Text) × (r.1 ≡ e ∷ errs)))
  named : (u : ℕ) → has_uid u r.0 ≡ true → AreNaming ids u

-- An id that is not valid.
skip-AreRead :
    (id : Text) (ids : List Text) (uids : List ℕ) (errs : List Text)
    → ((u : ℕ) → ¬ IsId id u)
    → AreRead ids (uids, errs)
    → AreRead (id ∷ ids) (uids, invalid id ∷ errs)
skip-AreRead id ids uids errs bad r = record {
  read = inr (inl bad, (invalid id, errs, refl));
  named = λ u h. inr (r.named u h);
}

IsAmong_cons : (v : ℕ) (uids : List ℕ) (id : Text) → IsAmong uids id → IsAmong (v ∷ uids) id
IsAmong_cons v uids id (u, i, h) = (u, i, ground (arith, h))

take-AreRead :
    (id : Text) (ids : List Text) (v : ℕ) (uids : List ℕ) (errs : List Text)
    → IsId id v
    → AreRead ids (uids, errs)
    → AreRead (id ∷ ids) (v ∷ uids, errs)
take-AreRead id ids v uids errs i r = record {
  read = elim r.read [
    | inl (e, h) ↦ inl (
      e,
      (
        (v, i, ground arith),
        All-map (IsAmong uids) (IsAmong (v ∷ uids)) (IsAmong_cons v uids) ids h,
      ),
    )
    | inr (b, e) ↦ inr (inr b, e)
  ];
  named = λ u h. elim (Bool-cases (v == u)) [
    | inl same ↦ inl (rw ((==_iff v u).0 same) at i)
    | inr other ↦ inr (r.named u (ground arith))
  ];
}

add_id-AreRead :
    (id : Text) (o : Option ℕ) (ids : List Text) (uids : List ℕ) (errs : List Text)
    → parse_uint32 id ≡ o
    → AreRead ids (uids, errs)
    → AreRead (id ∷ ids) (add_id id o (uids, errs))
add_id-AreRead id none ids uids errs e r = skip-AreRead id ids uids errs (λ u i. cc (e, i.0)) r
add_id-AreRead id (some v) ids uids errs e r = elim (Bool-cases (v == 0)) [
  | inl zero ↦ rw zero (skip-AreRead id ids uids errs (λ u i. ground (arith, i)) r)
  | inr more ↦
      rw more (take-AreRead id ids v uids errs (e, ground arith, parse_uint32_bound id v e) r)
]

parse_ids-AreRead : (ids : List Text) → AreRead ids (parse_ids ids)
unfolding parse_ids
parse_ids-AreRead [] = record { read = inl (refl, tt); named = λ u h. cc }
parse_ids-AreRead (id ∷ ids) =
    let r = parse_ids-AreRead ids in
    add_id-AreRead id (parse_uint32 id) ids (parse_ids ids).0 (parse_ids ids).1 refl r

-- The outcome of `parse_uids`.
pub data Outcome (ids : List Text) : Result ToolError (List ℕ) → Type 0 where
  valid :
      (uids : List ℕ)
      → AreDistinct uids
      → All (IsAmong uids) ids
      → ((u : ℕ) → has_uid u uids ≡ true → AreNaming ids u)
      → Outcome ids (ok uids)
  refused : (text : Text) → HasInvalid ids → Outcome ids (err (bad_ids text))

IsAmong-dedup_uids : (uids : List ℕ) (id : Text) → IsAmong uids id → IsAmong (dedup_uids uids) id
unfolding dedup_uids
IsAmong-dedup_uids uids id (u, i, h) = (u, i, ground (arith, dedup_from_iff [] uids u))

checked_ids-Outcome :
    (ids : List Text) (uids : List ℕ) (errs : List Text)
    → AreRead ids (uids, errs)
    → Outcome ids (checked_ids (uids, errs))
unfolding dedup_uids
checked_ids-Outcome ids uids [] r =
    valid (dedup_uids uids) (dedup_from-AreDistinct [] uids)
      (elim r.read [
        | inl (e, h) ↦
            All-map (IsAmong uids) (IsAmong (dedup_uids uids)) (IsAmong-dedup_uids uids) ids h
        | inr (b, (e, es, h)) ↦ cc h
      ])
      (λ u h. r.named u (ground (arith, dedup_from_iff [] uids u)))
checked_ids-Outcome ids uids (e ∷ errs) r =
    refused _ (elim r.read [ inl (h, a) ↦ cc h | inr (b, h) ↦ b ])

-- The batch is refused exactly if one of its ids is not the number of a message, which is more than
-- 0 and has 32 bits; otherwise every message that an id names is in the batch once, and no other.
pub parse_uids-Outcome : (ids : List Text) → Outcome ids (parse_uids ids)
unfolding parse_uids
parse_uids-Outcome ids =
    checked_ids-Outcome ids (parse_ids ids).0 (parse_ids ids).1 (parse_ids-AreRead ids)
