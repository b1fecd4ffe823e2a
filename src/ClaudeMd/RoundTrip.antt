-- ===== src/ClaudeMd/RoundTrip.antt =====
-- `Register` and `Prune` (internal/claudemd/imports.go), one after the other.
use mathlib.Core.List.{append_assoc, append-nil}
use beadle.Prelude.{
  ◌≡◌, ◌≢◌, ◌∙◌, refl, sym, ap, Bool, true, false, List, [], ◌∷◌, ◌++◌, none, some, arith,
  Bool-cases, Option-cases, inl, inr, if◌then◌else◌, length-append,
}
use beadle.Text.{Text}
use beadle.ClaudeMd.{File, System, validate, text_of, added, register, pruned, discard, prune}
use beadle.ClaudeMd.Lines.{
  split_keep_ends, join_lines, trim_terminator, host_eol, is_open, appended,
}
use beadle.ClaudeMd.Fences.{present, remove}
use beadle.ClaudeMd.Split.{
  join_lines-split_keep_ends, join_lines-append, is_closed, split_keep_ends-append,
  is_open-split_keep_ends, host_eol-IsEol, is_closed-eol,
}
use beadle.ClaudeMd.Bodies.{one_line, trim_terminator-append, bodies_of-eol}
use beadle.ClaudeMd.Matches.{
  validate-no_break, validate-at, at-starts_feed, present-append, remove-append,
}

-- The terminator that the last line of a text lacks, in the text's own convention.
abbrev pub missing_eol : Text → Text
missing_eol s = if is_open (split_keep_ends s) then host_eol (split_keep_ends s) else []

-- The text with its last line terminated.
abbrev pub terminated : Text → Text
terminated s = s ++ missing_eol s

is_closed-terminated : (s : Text) → is_closed (terminated s) ≡ true
is_closed-terminated s = elim (Bool-cases (is_open (split_keep_ends s))) [
  | inl opened ↦
      rw opened
        (is_closed-eol s (host_eol (split_keep_ends s)) (host_eol-IsEol (split_keep_ends s)))
  | inr closed ↦ rw (closed, append-nil) (ground (arith, is_open-split_keep_ends s))
]

present-terminated :
    (i s : Text) → present (split_keep_ends (terminated s)) i ≡ present (split_keep_ends s) i
unfolding present
present-terminated i s = elim (Bool-cases (is_open (split_keep_ends s))) [
  | inl opened ↦ rw opened (
      rw
        (bodies_of-eol s (host_eol (split_keep_ends s)) (host_eol-IsEol (split_keep_ends s))
          (ground (arith, is_open-split_keep_ends s)))
        refl)
  | inr closed ↦ rw (closed, append-nil) refl
]

-- The line that `Register` puts behind a text.
abbrev pub last_line : Text → Text → Text
last_line i s = i ++ host_eol (split_keep_ends s)

module _ (i : Text) (v : validate i ≡ none) (s : Text) where
  trim_terminator-last_line : trim_terminator (last_line i s) ≡ i
  trim_terminator-last_line =
      trim_terminator-append i (host_eol (split_keep_ends s)) (host_eol-IsEol (split_keep_ends s))
        (validate-no_break i v)

  split_keep_ends-last_line :
      split_keep_ends (terminated s ++ (last_line i s))
      ≡ split_keep_ends (terminated s) ++ (last_line i s) ∷ []
  split_keep_ends-last_line =
      split_keep_ends-append (terminated s) (last_line i s) (is_closed-terminated s)
        (at-starts_feed i (host_eol (split_keep_ends s)) (validate-at i v))
      ∙ rw
          (one_line i (host_eol (split_keep_ends s)) (host_eol-IsEol (split_keep_ends s))
            (validate-no_break i v))
          refl

  added-absent :
      (t : Text)
      → present (split_keep_ends t) i ≡ false
      → added i t ≡ some (join_lines (split_keep_ends t ++ appended (split_keep_ends t) i ∷ []))
  unfolding added
  added-absent t h = rw (h, added) refl

  added-present : (t : Text) → present (split_keep_ends t) i ≡ true → added i t ≡ none
  unfolding added
  added-present t h = rw (h, added) refl

  pruned-remove :
      (t : Text) (ls : List Text) (l : Text)
      → split_keep_ends t ≡ ls ++ l ∷ []
      → remove (ls ++ l ∷ []) i ≡ ls
      → pruned i t ≡ some (join_lines ls)
  unfolding pruned
  pruned-remove t ls l lines kept =
      rw (lines, pruned, kept) (ground (arith, length-append ls (l ∷ [])))

  appended_eq : appended (split_keep_ends s) i ≡ missing_eol s ++ (last_line i s)
  unfolding appended
  appended_eq = refl

  -- The text that `Register` writes is the terminated text with one line behind it.
  pub added_text :
      present (split_keep_ends s) i ≡ false → added i s ≡ some (terminated s ++ (last_line i s))
  unfolding join_lines is_open
  added_text absent =
      added-absent s absent
      ∙ ap some (
          join_lines-append (split_keep_ends s) (appended (split_keep_ends s) i ∷ [])
          ∙ rw (join_lines-split_keep_ends s, appended_eq, join_lines)
              (simp (append_assoc, append-nil)))

  pub present-last_line : present (split_keep_ends (terminated s ++ (last_line i s))) i ≡ true
  present-last_line = rw split_keep_ends-last_line (
      present-append i v (split_keep_ends (terminated s)) (last_line i s) trim_terminator-last_line)

  pub added_again : added i (terminated s ++ (last_line i s)) ≡ none
  added_again = added-present (terminated s ++ (last_line i s)) present-last_line

  pub pruned-added :
      present (split_keep_ends s) i ≡ false
      → pruned i (terminated s ++ (last_line i s)) ≡ some (terminated s)
  pruned-added absent =
      pruned-remove (terminated s ++ (last_line i s)) (split_keep_ends (terminated s))
        (last_line i s) split_keep_ends-last_line
        (remove-append i v (split_keep_ends (terminated s)) (last_line i s)
          trim_terminator-last_line (present-terminated i s ∙ absent))
      ∙ ap some (join_lines-split_keep_ends (terminated s))

pub added-wrote :
    (i s : Text) {t : Text} → added i s ≡ some t → present (split_keep_ends s) i ≡ false
unfolding added
added-wrote i s h = ground arith

register-wrote :
    (sys : System) (i : Text) (f : File) {g : File}
    → register sys i f ≡ (g, true, none)
    → (validate i ≡ none) × (added i (text_of f) ≡ g) × (g ≢ none)
unfolding register
register-wrote sys i f h = ground arith

-- The calls that an edit needs end well.
pub record Works (sys : System) : Type 0 where
  pub locked : sys.locks ≡ true
  pub readable : sys.reads ≡ true
  pub writable : sys.writes ≡ true

register-eq :
    (sys : System) (i : Text) (s : Text)
    → Works sys
    → validate i ≡ none
    → added i s ≡ none
    → register sys i (some s) ≡ (some s, false, none)
unfolding register
register-eq sys i s w v h = rw (v, register, w.locked, w.readable, h) refl

prune-eq :
    (sys : System) (empty : Bool) (i s : Text) {t : Text}
    → Works sys
    → validate i ≡ none
    → pruned i s ≡ some t
    → prune sys empty i (some s) ≡ (let (g, gone, e) = discard sys empty t in (g, true, gone, e))
unfolding prune
prune-eq sys empty i s w v h = ground arith

prune-kept :
    (sys : System) (i s : Text) {t : Text}
    → Works sys
    → validate i ≡ none
    → pruned i s ≡ some t
    → prune sys false i (some s) ≡ (some t, true, false, none)
unfolding discard
prune-kept sys i s w v h = prune-eq sys false i s w v h

-- The text that a `Register` that has written leaves, and why nothing matched before.
register-text :
    (sys : System) (i : Text) (f : File) {g : File}
    → register sys i f ≡ (g, true, none)
    → (validate i ≡ none)
      × (present (split_keep_ends (text_of f)) i ≡ false)
      × (g ≡ some (terminated (text_of f) ++ last_line i (text_of f)))
register-text sys i f h =
    let (v, wrote, some_text) = register-wrote sys i f h in
    elim (Option-cases (added i (text_of f))) [
      | inl nothing ↦ absurd (some_text (sym wrote ∙ nothing))
      | inr (t, done) ↦
          let absent = added-wrote i (text_of f) done in
          (v, absent, sym wrote ∙ added_text i v (text_of f) absent)
    ]

-- After a `Register` that has written the file, where the later calls of the operating system end
-- well: registering again writes nothing, and pruning gives the file its text back, with a
-- terminator behind the last line where it lacked one.
pub prune-register :
    (a b : System) (i : Text) (f : File) {g : File}
    → Works b
    → register a i f ≡ (g, true, none)
    → (register b i g ≡ (g, false, none))
      × (prune b false i g ≡ (some (terminated (text_of f)), true, false, none))
prune-register a b i f w h =
    let s = text_of f in
    let t = terminated s ++ last_line i s in
    let (v, absent, whole) = register-text a i f h in
    rw whole
      (register-eq b i t w v (added_again i v s), prune-kept b i t w v (pruned-added i v s absent))

terminated-nil : (s : Text) → s ≡ [] → terminated s ≡ []
unfolding split_keep_ends is_open
terminated-nil s h = rw h refl

discard-empty :
    (sys : System)
    → sys.stats ≡ true
    → sys.is_regular ≡ true
    → sys.removes ≡ true
    → discard sys true [] ≡ (none, true, none)
unfolding discard
discard-empty sys h k l = ground arith

-- A file that `Register` has made, or found empty, is gone after `PruneAndDiscardEmpty`, if it is a
-- regular file and the calls of the operating system end well.
pub prune-register_new :
    (a b : System) (i : Text) (f : File) {g : File}
    → Works b
    → b.stats ≡ true
    → b.is_regular ≡ true
    → b.removes ≡ true
    → text_of f ≡ []
    → register a i f ≡ (g, true, none)
    → prune b true i g ≡ (none, true, true, none)
prune-register_new a b i f w st re rm empty h =
    let s = text_of f in
    let t = terminated s ++ last_line i s in
    let (v, absent, whole) = register-text a i f h in
    let back : pruned i t ≡ some [] =
      pruned-added i v s absent ∙ ap some (terminated-nil s empty) in
    rw whole (prune-eq b true i t w v back ∙ rw (discard-empty b st re rm) refl)
