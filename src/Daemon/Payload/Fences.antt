-- ===== src/Daemon/Payload/Fences.antt =====
-- No text of an email can pass for a line of the daemon's in a worker's system prompt
-- (internal/daemon/pipeline.go).
use mathlib.Core.Path.{ap₂}
use mathlib.Core.List.{append-nil}
use beadle.Prelude.{
  ℕ, zero, suc, ◌+◌, ◌/◌, ◌%◌, ◌≡◌, ◌∙◌, ap, sym, refl, Bool, true, false, List, [], ◌∷◌, ◌++◌, map,
  is_nil, length, ◌==◌, keep, All, arith,
}
use beadle.Text.{Text, codes, contains, contains_rune, split, join}
use beadle.Text.Decimal.{decimal, digits}
use beadle.Text.Lines.{
  any-append, keep-append, split-append, split_one, contains-within, keep-split-Lacks, Lacks-nil,
}
use beadle.Daemon.Payload.{
  StagePayload, Part, none_of, shown, empty_marker, states, state_text, begin_line, end_line,
  fence_field, render, parts_of, stage_payload_text,
}

-- The text is one line.
pub record NoBreak (s : Text) : Type 0 where
  pub unbroken : contains_rune b'\n' s ≡ false

NoBreak-append : (s t : Text) → NoBreak s → NoBreak t → NoBreak (s ++ t)
NoBreak-append s t h k = record {
  unbroken = rw (any-append (λ d. d == b'\n') s t, h.unbroken, k.unbroken);
}

literal : (s : Text) → contains_rune b'\n' s ≡ false → NoBreak s
literal s h = record { unbroken = h }

digits-NoBreak : (fuel n : ℕ) (acc : Text) → NoBreak acc → NoBreak (digits fuel n acc)
unfolding digits
digits-NoBreak zero n acc h = h
digits-NoBreak (suc fuel) n acc h =
    ground (arith, digits-NoBreak fuel (n / 10) ((b'0' + n % 10) ∷ acc))

decimal-NoBreak : (n : ℕ) → NoBreak (decimal n)
unfolding decimal
decimal-NoBreak n = digits-NoBreak (suc n) n [] (literal [] refl)

state_text-NoBreak :
    (sanitized truncated : Bool) → NoBreak (state_text (states sanitized truncated))
unfolding join
state_text-NoBreak true true = literal _ refl
state_text-NoBreak true false = literal _ refl
state_text-NoBreak false true = literal _ refl
state_text-NoBreak false false = literal _ refl

-- The daemon's lines for a part.
abbrev pub fence_lines : Text → Part → List Text
fence_lines nonce (none_of name) = empty_marker nonce name ∷ []
fence_lines nonce (shown name value truncated sanitized) =
    begin_line nonce name (length value) (states sanitized truncated) ∷ end_line nonce name ∷ []

abbrev pub all_fences : Text → List Part → List Text
all_fences nonce [] = []
all_fences nonce (p ∷ ps) = fence_lines nonce p ++ all_fences nonce ps

-- The name of the part is one line, and its value does not hold the nonce.
abbrev pub IsSafe : Text → Part → Type 0
IsSafe nonce (none_of name) = NoBreak name
IsSafe nonce (shown name value truncated sanitized) = NoBreak name × (contains value nonce ≡ false)

module _ (nonce : Text) (some_rune : is_nil nonce ≡ false) (one_line : NoBreak nonce) where
  abbrev carries : Text → Bool
  carries l = contains l nonce

  empty_marker-NoBreak : (name : Text) → NoBreak name → NoBreak (empty_marker nonce name)
  unfolding empty_marker
  empty_marker-NoBreak name h = NoBreak-append (codes "--- ") _ (literal _ refl) (
      NoBreak-append nonce _ one_line (
        NoBreak-append (codes " ") _ (literal _ refl)
          (NoBreak-append name (codes ": (none) ---") h (literal _ refl))))

  end_line-NoBreak : (name : Text) → NoBreak name → NoBreak (end_line nonce name)
  unfolding end_line
  end_line-NoBreak name h = NoBreak-append (codes "--- end ") _ (literal _ refl) (
      NoBreak-append nonce _ one_line (
        NoBreak-append (codes " ") _ (literal _ refl)
          (NoBreak-append name (codes " ---") h (literal _ refl))))

  begin_line-NoBreak :
      (name : Text) (n : ℕ) (s t : Bool)
      → NoBreak name
      → NoBreak (begin_line nonce name n (states s t))
  unfolding begin_line
  begin_line-NoBreak name n s t h = NoBreak-append (codes "--- begin ") _ (literal _ refl) (
      NoBreak-append nonce _ one_line (
        NoBreak-append (codes " ") _ (literal _ refl) (
          NoBreak-append name _ h (
            NoBreak-append (codes ": ") _ (literal _ refl) (
              NoBreak-append (decimal n) _ (decimal-NoBreak n) (
                NoBreak-append (codes " runes") _ (literal _ refl) (
                  NoBreak-append (state_text (states s t)) (codes " ---") (state_text-NoBreak s t)
                    (literal _ refl))))))))

  keep_one : (l : Text) → NoBreak l → carries l ≡ true → keep carries (split b'\n' l) ≡ l ∷ []
  keep_one l h k = rw (split_one b'\n' l h.unbroken) (ground arith)

  keep_lines :
      (s t : Text)
      → keep carries (split b'\n' (s ++ b'\n' ∷ t))
        ≡ keep carries (split b'\n' s) ++ keep carries (split b'\n' t)
  keep_lines s t =
      ap (keep carries) (split-append b'\n' s t) ∙ keep-append carries (split b'\n' s) _

  keep-render :
      (p : Part)
      → IsSafe nonce p
      → keep carries (split b'\n' (render nonce p)) ≡ fence_lines nonce p
  keep-render (none_of name) h =
      keep_one (empty_marker nonce name) (empty_marker-NoBreak name h)
        (unfold empty_marker in contains-within (codes "--- ") nonce _)
  keep-render (shown name value truncated sanitized) h =
      unfold fence_field in
      (keep_lines (begin_line nonce name (length value) (states sanitized truncated)) _
        ∙ ap₂ ◌++◌
            (keep_one _ (begin_line-NoBreak name (length value) sanitized truncated h.0)
              (unfold begin_line in contains-within (codes "--- begin ") nonce _))
            (keep_lines value (end_line nonce name)
              ∙ ap₂ ◌++◌ (keep-split-Lacks b'\n' nonce some_rune value h.1) (
                  keep_one _ (end_line-NoBreak name h.0)
                    (unfold end_line in contains-within (codes "--- end ") nonce _))))

  keep-join :
      (ps : List Part)
      → All (IsSafe nonce) ps
      → keep carries (split b'\n' (join (codes "\n") (map (render nonce) ps))) ≡ all_fences nonce ps
  unfolding join
  keep-join [] h = keep-split-Lacks b'\n' nonce some_rune [] (Lacks-nil nonce some_rune)
  keep-join (p ∷ []) h = keep-render p h.0 ∙ sym (append-nil (fence_lines nonce p))
  keep-join (p ∷ q ∷ ps) h =
      keep_lines (render nonce p) (join (codes "\n") (map (render nonce) (q ∷ ps)))
      ∙ ap₂ ◌++◌ (keep-render p h.0) (keep-join (q ∷ ps) h.1)

  -- Whatever the arguments, the output and the body hold, as long as the nonce is not in them: the
  -- lines of the block that carry the nonce are exactly the daemon's, in their order, for each
  -- argument, the pipeline's output and the email's body. The nonce and the names are single lines.
  pub stage_payload_text-all_fences :
      (p : StagePayload)
      → All (IsSafe nonce) (parts_of p)
      → keep (λ l. contains l nonce) (split b'\n' (stage_payload_text p nonce))
        ≡ all_fences nonce (parts_of p)
  unfolding stage_payload_text
  stage_payload_text-all_fences p h = keep-join (parts_of p) h
