-- ===== src/Daemon/Persist/Pruned.antt =====
-- Exactly which files `Prune` removes (internal/daemon/persist.go).
use beadle.Prelude.{
  ℕ, ◌+◌, ◌≡◌, refl, Bool, true, false, not, ◌&&◌, ◌||◌, [], ◌∷◌, if◌then◌else◌, ltb, leb, keep,
  length, arith,
}
use beadle.Text.{Text}
use beadle.Daemon.Persist.{
  Content, unreadable, corrupt, holds, File, Dir, is_running, is_skipped, is_temp, tmp_file_max_age,
  PruneCalls, prune_content, Fate, kept, aged_removed, temp_removed, tally, prune_entry,
  prune_orphaned_temp, prune_aged_file, prune_counts, prune_dir,
}

-- The record is not running, and older than the retention.
abbrev pub is_aged : ℕ → ℕ → Content → Bool
is_aged now max_age unreadable = false
is_aged now max_age corrupt = false
is_aged now max_age (holds p) = not (is_running p) && ltb (p.created_at + max_age) now

-- A JSON file that is an aged record, or a temporary file that has been there for five minutes.
unfoldable pub is_expired : ℕ → ℕ → File → Bool
is_expired now max_age f =
    not (is_skipped f)
    && (if is_temp f
        then leb (f.mod_time + tmp_file_max_age) now
        else is_aged now max_age f.content)

-- The calls of the operating system that its removal needs end well.
unfoldable pub is_removable : PruneCalls → File → Bool
is_removable calls f = calls.removes f.name && (not (is_temp f) || calls.stats f.name)

abbrev is_kept : Fate → Bool
is_kept kept = true
is_kept aged_removed = false
is_kept temp_removed = false

module _ (calls : PruneCalls) (now max_age : ℕ) where
  prune_content-eq :
      (name : Text) (c : Content)
      → prune_content calls now max_age name c ≡ (is_aged now max_age c && calls.removes name)
  prune_content-eq name unreadable = refl
  prune_content-eq name corrupt = refl
  prune_content-eq name (holds p) = ground arith

  prune_aged_file-eq :
      (f : File)
      → prune_aged_file calls now max_age f
        ≡ (is_aged now max_age f.content && calls.removes f.name)
  unfolding prune_aged_file
  prune_aged_file-eq f = prune_content-eq f.name f.content

  prune_orphaned_temp-eq :
      (f : File)
      → prune_orphaned_temp calls now max_age f
        ≡ (leb (f.mod_time + tmp_file_max_age) now && calls.removes f.name && calls.stats f.name)
  unfolding prune_orphaned_temp
  prune_orphaned_temp-eq f = ground arith

  is_gone : File → Bool
  is_gone f = is_expired now max_age f && is_removable calls f

  abbrev stays : File → Bool
  stays f = not (is_gone f)

  abbrev IsTally : Dir → Dir × ℕ × ℕ → Type 0
  IsTally dir (rest, aged, temp) =
      (rest ≡ keep stays dir) × (aged + temp + length (keep stays dir) ≡ length dir)

  removes_entry : (f : File) → is_kept (prune_entry calls now max_age f) ≡ stays f
  unfolding prune_entry is_gone is_expired is_removable
  removes_entry f = ground (arith, prune_aged_file-eq f, prune_orphaned_temp-eq f)

  tally-keep :
      (f : File) (fate : Fate) (dir : Dir)
      → is_kept fate ≡ stays f
      → IsTally dir (prune_counts calls now max_age dir)
      → IsTally (f ∷ dir) (tally f fate (prune_counts calls now max_age dir))
  tally-keep f kept dir e h = ground arith
  tally-keep f _ dir e h = ground arith

  prune_counts-keep : (dir : Dir) → IsTally dir (prune_counts calls now max_age dir)
  unfolding prune_counts
  prune_counts-keep [] = ground arith
  prune_counts-keep (f ∷ fs) =
      tally-keep f (prune_entry calls now max_age f) fs (removes_entry f) (prune_counts-keep fs)

  -- `Prune` leaves exactly the files that are not expired or cannot be removed, in their order, and
  -- reports how many are gone.
  pub prune_dir-keep :
      (dir : Dir)
      → ((prune_dir calls now max_age dir).0
          ≡ keep (λ f. not (is_expired now max_age f && is_removable calls f)) dir)
        × ((prune_dir calls now max_age dir).1 + length (prune_dir calls now max_age dir).0
            ≡ length dir)
  unfolding prune_dir is_gone
  prune_dir-keep dir = ground (arith, prune_counts-keep dir)
