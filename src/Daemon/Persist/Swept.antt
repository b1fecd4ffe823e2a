-- ===== src/Daemon/Persist/Swept.antt =====
-- What the sweep at startup and the pruning leave of the runs that a stopped daemon left behind
-- (internal/daemon/persist.go, cmd/beadle-daemon/main.go).
use mathlib.Core.Path.{subst}
use beadle.Prelude.{
  ℕ, ◌+◌, ◌≡◌, ◌⊎◌, inl, inr, refl, sym, ◌∙◌, Bool, true, false, not, ◌&&◌, ◌||◌, List, [], ◌∷◌,
  if◌then◌else◌, any, All, All-append, leb, keep, Bool-cases, arith,
}
use beadle.Text.{Text, equal}
use beadle.Daemon.Persist.{
  Saved, Content, unreadable, corrupt, holds, File, Dir, is_running, is_skipped, is_temp, is_bad_id,
  with_running, load_running, SaveCalls, final_name, file_of, put, save_file, mark_stale,
  save_stale, sweep_stale_pipelines, PruneCalls, prune_dir,
}
use beadle.Daemon.Persist.Pruned.{is_aged, is_expired, is_removable, prune_dir-keep}

abbrev runs : Content → Bool
runs unreadable = false
runs corrupt = false
runs (holds p) = is_running p

-- `LoadRunning` returns a record from this file.
abbrev pub is_live : File → Bool
is_live f = not (is_skipped f) && not (is_temp f) && runs f.content

-- The file has the name that `Save` gives the record in it, for an id that `Save` takes.
abbrev pub has_own_name : Text → Content → Bool
has_own_name name unreadable = true
has_own_name name corrupt = true
has_own_name name (holds p) = equal name (final_name p.id) && not (is_bad_id p.id)

abbrev pub is_well_named : File → Bool
is_well_named f = not (is_live f) || has_own_name f.name f.content

-- The calls of the operating system end well.
abbrev pub is_fine : SaveCalls → Bool
is_fine c = c.makes_dir && c.marshals && c.writes && c.renames

-- A live file has the name of one of these records.
abbrev is_covered : List Saved → File → Bool
is_covered ps f = not (is_live f) || any (λ p. equal f.name (final_name p.id)) ps

abbrev IsCovered : List Saved → Dir → Type 0
IsCovered ps dir = All (λ f. is_covered ps f ≡ true) dir

-- The ids of the records are ones that `Save` takes.
abbrev AreSavable : List Saved → Type 0
AreSavable ps = All (λ p. is_bad_id p.id ≡ false) ps

IsCovered-more :
    (p : Saved) (ps : List Saved) (dir : Dir) → IsCovered ps dir → IsCovered (p ∷ ps) dir
IsCovered-more p ps [] h = tt
IsCovered-more p ps (f ∷ dir) h = (ground arith, IsCovered-more p ps dir h.1)

-- What `LoadRunning` does with one file: `s` says that it is skipped, `t` that it is temporary.
loaded_cases :
    (s t : Bool) (c : Content) (ps : List Saved)
    → (((not s && not t && runs c) ≡ false) × ((if s || t then ps else with_running c ps) ≡ ps))
      ⊎ ((p : Saved) × (c ≡ holds p)
          × ((not s && not t && runs c) ≡ true)
          × ((if s || t then ps else with_running c ps) ≡ p ∷ ps))
loaded_cases true t c ps = inl (refl, refl)
loaded_cases false true c ps = inl (refl, refl)
loaded_cases false false unreadable ps = inl (refl, refl)
loaded_cases false false corrupt ps = inl (refl, refl)
loaded_cases false false (holds p) ps = elim (Bool-cases (is_running p)) [
  | inl live ↦ inr (p, refl, live, rw live)
  | inr done ↦ inl (done, rw done)
]

load_running-IsCovered :
    (dir : Dir)
    → All (λ f. is_well_named f ≡ true) dir
    → IsCovered (load_running dir) dir × AreSavable (load_running dir)
unfolding load_running
load_running-IsCovered [] h = (tt, tt)
load_running-IsCovered (f ∷ dir) h =
    let (covered, savable) = load_running-IsCovered dir h.1 in
    let Goal : List Saved → Type 0 = λ ps. IsCovered ps (f ∷ dir) × AreSavable ps in
    elim (loaded_cases (is_skipped f) (is_temp f) f.content (load_running dir)) [
      | inl (idle, same) ↦ subst Goal (sym same) ((ground arith, covered), savable)
      | inr (p, c, live, more) ↦
          let named : (equal f.name (final_name p.id) && not (is_bad_id p.id)) ≡ true =
            subst (λ b. has_own_name f.name b ≡ true) c (ground arith) in
          subst Goal (sym more) (
            (ground arith, IsCovered-more p (load_running dir) dir covered),
            (ground arith, savable),
          )
    ]

-- A saved record is no longer running, and replaces the file that it came from.
keep-IsCovered :
    (p : Saved) (ps : List Saved) (dir : Dir)
    → IsCovered (p ∷ ps) dir
    → IsCovered ps (keep (λ g. not (equal g.name (final_name p.id))) dir)
keep-IsCovered p ps [] h = tt
keep-IsCovered p ps (f ∷ dir) h = ground (arith, keep-IsCovered p ps dir)

save_file-fine :
    (calls : SaveCalls) (now : ℕ) (p : Saved) (dir : Dir)
    → is_fine calls ≡ true
    → is_bad_id p.id ≡ false
    → (save_file calls now p dir).0 ≡ put (file_of (final_name p.id) (holds p) now) dir
unfolding save_file
save_file-fine calls now p dir fine good = ground arith

put-IsCovered :
    (now : ℕ) (p : Saved) (ps : List Saved) (dir : Dir)
    → IsCovered (p ∷ ps) dir
    → IsCovered ps (put (file_of (final_name p.id) (holds (mark_stale p)) now) dir)
unfolding put equal
put-IsCovered now p ps dir h =
    All-append (λ f. is_covered ps f ≡ true) (keep _ dir) (_ ∷ []) (keep-IsCovered p ps dir h)
      (ground arith, tt)

save_stale-IsCovered :
    (calls : Saved → SaveCalls) (now : ℕ) (ps : List Saved) (dir : Dir)
    → All (λ p. is_fine (calls p) ≡ true) ps
    → AreSavable ps
    → IsCovered ps dir
    → IsCovered [] (save_stale calls now ps dir)
unfolding save_stale
save_stale-IsCovered calls now [] dir fine good h = h
save_stale-IsCovered calls now (p ∷ ps) dir fine good h =
    save_stale-IsCovered calls now ps (save_file (calls p) now (mark_stale p) dir).0 fine.1 good.1 (
      rw (save_file-fine (calls p) now (mark_stale p) dir fine.0 good.0)
        (put-IsCovered now p ps dir h))

load_running-eq-nil : (dir : Dir) → IsCovered [] dir → load_running dir ≡ []
unfolding load_running
load_running-eq-nil [] h = refl
load_running-eq-nil (f ∷ dir) h =
    elim (loaded_cases (is_skipped f) (is_temp f) f.content (load_running dir)) [
      | inl (idle, same) ↦ same ∙ load_running-eq-nil dir h.1
      | inr (p, c, live, more) ↦ absurd (ground arith)
    ]

-- A record that can be read was made within the time that records are kept.
abbrev is_young : ℕ → ℕ → Content → Bool
is_young now max_age unreadable = true
is_young now max_age corrupt = true
is_young now max_age (holds p) = leb now (p.created_at + max_age)

abbrev pub is_fresh : ℕ → ℕ → File → Bool
is_fresh now max_age f = is_skipped f || is_temp f || is_young now max_age f.content

young_if :
    (now max_age : ℕ) (c : Content)
    → runs c ≡ false
    → is_aged now max_age c ≡ false
    → is_young now max_age c ≡ true
young_if now max_age unreadable h k = refl
young_if now max_age corrupt h k = refl
young_if now max_age (holds p) h k = ground arith

fresh_if :
    (now max_age : ℕ) (f : File)
    → is_live f ≡ false
    → is_expired now max_age f ≡ false
    → is_fresh now max_age f ≡ true
unfolding is_expired
fresh_if now max_age f h k = ground (arith, young_if now max_age f.content)

kept-fresh :
    (calls : PruneCalls) (now max_age : ℕ) (dir : Dir)
    → IsCovered [] dir
    → All
        (λ f. (is_fresh now max_age f || not (is_removable calls f)) ≡ true)
        (keep (λ f. not (is_expired now max_age f && is_removable calls f)) dir)
kept-fresh calls now max_age [] h = tt
kept-fresh calls now max_age (f ∷ dir) h =
    ground (arith, fresh_if now max_age f, kept-fresh calls now max_age dir)

module _ (calls : Saved → SaveCalls) (now : ℕ) (dir : Dir)
    (named : All (λ f. is_well_named f ≡ true) dir)
    (fine : All (λ p. is_fine (calls p) ≡ true) (load_running dir)) where
  swept-IsCovered : IsCovered [] (sweep_stale_pipelines calls now dir)
  unfolding sweep_stale_pipelines
  swept-IsCovered =
      let (covered, savable) = load_running-IsCovered dir named in
      save_stale-IsCovered calls now (load_running dir) dir fine savable covered

  -- If the running records stand in files of their own names, and all calls that save them end well,
  -- no record is running after the sweep.
  pub sweep-load_running : load_running (sweep_stale_pipelines calls now dir) ≡ []
  sweep-load_running = load_running-eq-nil _ swept-IsCovered

  -- If the running records stand in files of their own names, with ids that `Save` takes, and all
  -- calls of the operating system that save them in the sweep end well: what the pruning leaves of
  -- the swept directory at whatever time are files that the operating system does not remove, files
  -- that are not records or cannot be read, and records that are younger than the retention. So no
  -- record stays because its run never ended. Of a save that fails nothing is said.
  pub sweep-prune_dir :
      (prunes : PruneCalls) (later max_age : ℕ)
      → All
          (λ f. (is_fresh later max_age f || not (is_removable prunes f)) ≡ true)
          (prune_dir prunes later max_age (sweep_stale_pipelines calls now dir)).0
  sweep-prune_dir prunes later max_age =
      rw (prune_dir-keep prunes later max_age (sweep_stale_pipelines calls now dir)).0
        (kept-fresh prunes later max_age _ swept-IsCovered)
