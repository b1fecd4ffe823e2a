-- ===== src/Mcp/Reading/Plain.antt =====
-- The name under which an attachment is saved (internal/mcp/tools.go, `downloadAttachment`).
use mathlib.Core.List.{reverse-append, reverse-reverse, append_assoc}
use beadle.Prelude.{
  ℕ, zero, suc, ◌+◌, ◌-◌, ◌*◌, ◌/◌, ◌%◌, ◌≡◌, ◌∙◌, ap, sym, refl, ◌⊎◌, inl, inr, Bool, false, List,
  [], ◌∷◌, ◌++◌, reverse, some, is_nil, any, Bool-cases, Option-cases, arith, ◌==◌,
}
use beadle.Text.{Text, codes, contains_rune, parse_digits}
use beadle.Text.Decimal.{digits, decimal}
use beadle.Text.Lines.{any-append}
use beadle.Text.Path.{base, until_slash, drop_slashes}
use beadle.Daemon.Handler.{parse_uint32}
use beadle.Mcp.Reading.Whole.{attachment_name}

-- The text is the name of one file or directory.
abbrev pub IsPlain : Text → Type 0
IsPlain s = contains_rune b'/' s ≡ false

any-reverse {ℓ} : {A : Type ℓ} (p : A → Bool) (xs : List A) → any p (reverse xs) ≡ any p xs
any-reverse p [] = refl
any-reverse p (x ∷ xs) =
    ap (any p) (reverse-append (x ∷ []) xs)
    ∙ any-append p (reverse xs) (x ∷ [])
    ∙ rw (any-reverse p xs) (ground arith)

until_slash-IsPlain : (s : Text) → IsPlain (until_slash s)
unfolding until_slash
until_slash-IsPlain [] = refl
until_slash-IsPlain (c ∷ s) = ground (arith, until_slash-IsPlain s)

drop_slashes_plain : (s : Text) → IsPlain s → drop_slashes s ≡ s
unfolding drop_slashes
drop_slashes_plain [] h = refl
drop_slashes_plain (c ∷ s) h = ground arith

digits-IsPlain : (fuel n : ℕ) (acc : Text) → IsPlain acc → IsPlain (digits fuel n acc)
unfolding digits
digits-IsPlain zero n acc h = h
digits-IsPlain (suc fuel) n acc h =
    ground (arith, digits-IsPlain fuel (n / 10) ((b'0' + n % 10) ∷ acc))

parse_digits-IsPlain : (acc n : ℕ) (s : Text) → parse_digits acc s ≡ some n → IsPlain s
unfolding parse_digits
parse_digits-IsPlain acc n [] h = refl
parse_digits-IsPlain acc n (c ∷ s) h =
    ground (arith, parse_digits-IsPlain (acc * 10 + (c - b'0')) n s)

-- What the last part of a path is.
base-IsPlain : (path : Text) → (base path ≡ codes "/") ⊎ IsPlain (base path)
unfolding base
base-IsPlain path =
    let name = reverse (until_slash (drop_slashes (reverse path))) in
    elim (Bool-cases (is_nil path)) [
      | inl empty ↦ rw empty (inr refl)
      | inr full ↦ elim (Bool-cases (is_nil name)) [
        | inl root ↦ rw (full, root) (inl refl)
        | inr named ↦
            rw (full, named)
              (inr (
                any-reverse (λ d. d == b'/') (until_slash (drop_slashes (reverse path)))
                ∙ until_slash-IsPlain (drop_slashes (reverse path))))
      ]
    ]

pub attachment_name-IsPlain :
    (filename : Text) (i : ℕ)
    → (attachment_name filename i ≡ codes "/") ⊎ IsPlain (attachment_name filename i)
unfolding attachment_name decimal
attachment_name-IsPlain filename i =
    ground (arith, base-IsPlain filename, digits-IsPlain (suc i) i [] refl)

kept_plain : (s : Text) → IsPlain s → reverse (drop_slashes (reverse s)) ≡ s
kept_plain s h =
    ap reverse (drop_slashes_plain (reverse s) (any-reverse (λ d. d == b'/') s ∙ h))
    ∙ reverse-reverse s

dropped_slash : (s : Text) → IsPlain s → reverse (drop_slashes (reverse (s ++ codes "/"))) ≡ s
unfolding drop_slashes
dropped_slash s h =
    ap (λ r. reverse (drop_slashes r)) (reverse-append s (codes "/")) ∙ kept_plain s h

IsPlain-joined : (id name : Text) → IsPlain id → IsPlain name → IsPlain (id ++ (codes "_" ++ name))
IsPlain-joined id name h k =
    any-append (λ d. d == b'/') id (codes "_" ++ name) ∙ ground (arith, h, k)

-- The name in the directory begins with the message's id, and has no slash but in the id.
pub joined_name :
    (id name : Text)
    → (name ≡ codes "/") ⊎ IsPlain name
    → IsPlain id
    → (rest : Text) × (reverse (drop_slashes (reverse (id ++ (codes "_" ++ name))))
        ≡ id ++ (codes "_" ++ rest))
      × IsPlain rest
joined_name id name (inl root) k = (
  [],
  rw root (
      ap (λ s. reverse (drop_slashes (reverse s))) (sym (append_assoc id (codes "_") (codes "/")))
      ∙ dropped_slash (id ++ codes "_") (IsPlain-joined id [] k refl)),
  refl,
)
joined_name id name (inr plain) k =
    (name, kept_plain (id ++ (codes "_" ++ name)) (IsPlain-joined id name k plain), plain)

pub parse_uint32-IsPlain : (s : Text) (n : ℕ) → parse_uint32 s ≡ some n → IsPlain s
unfolding parse_uint32
parse_uint32-IsPlain [] n h = cc
parse_uint32-IsPlain (c ∷ s) n h = elim (Option-cases (parse_digits 0 (c ∷ s))) [
  | inl e ↦ absurd (ground (arith, h))
  | inr (k, e) ↦ parse_digits-IsPlain 0 k (c ∷ s) e
]
