-- ===== src/Install/Guarded.antt =====
-- When `install` registers a server beside the plugin's (cmd/beadle-email/mcpreg.go).
use beadle.Prelude.{
  ◌≡◌, ◌⊎◌, ◌↔◌, inl, inr, refl, Bool, true, false, not, ◌&&◌, ◌||◌, List, [], ◌∷◌, ◌++◌, Option,
  none, some, if◌then◌else◌, any, arith, Bool-cases,
}
use beadle.Text.{Text, codes, contains, has_prefix, split, trim_space}
use beadle.Install.{
  PluginState, plugin_absent, plugin_enabled, plugin_disabled, plugin_unknown, is_enabled,
  is_unknown, Claude, Effect, warned_unknown, warned_duplicate, removed_user_scope,
  added_user_scope, registered, duplicate_warning, plugin_state_from, beadle_plugin_state,
  detect_plugin_state, decide_mcp, act, setup_mcp_registration,
}

-- A line of the list of plugins names beadle; a status line does not say "enabled".
abbrev pub names_beadle : Text → Bool
names_beadle line = contains line (codes "beadle@")

abbrev pub tells_disabled : Text → Bool
tells_disabled line =
    has_prefix (trim_space line) (codes "Status:")
    && not (contains (trim_space line) (codes "enabled"))

-- What is said of the plugin, by the list that was read, if one was: silence wants a list in which no
-- line names beadle, or in which a status line denies that a plugin is enabled.
pub data IsWarning : Option Text → List Effect → Type 0 where
  unread : IsWarning none (warned_unknown ∷ [])
  lacking : {out : Text} → any names_beadle (split b'\n' out) ≡ false → IsWarning (some out) []
  denied :
      {out : Text}
      → any names_beadle (split b'\n' out) ≡ true
      → any tells_disabled (split b'\n' out) ≡ true
      → IsWarning (some out) []
  named :
      {out : Text}
      → any names_beadle (split b'\n' out) ≡ true
      → IsWarning (some out) (warned_duplicate ∷ [])

-- The only way to add a server: first what is said, then the removal of an older entry.
abbrev pub additions : List Effect → Bool → List Effect
additions said adds =
    said ++ (removed_user_scope ∷ added_user_scope ∷ (if adds then registered ∷ [] else []))

abbrev pub is_addition : Effect → Bool
is_addition added_user_scope = true
is_addition e = false

-- Either no server is added, or the user asked for it, and what is done is `additions`.
pub record IsGuarded (c : Claude) (standalone : Bool) (es : List Effect) : Type 0 where
  pub said : List Effect
  pub is_warning : IsWarning c.plugin_list said
  pub asked : any is_addition es ≡ true → standalone ≡ true
  pub ordered : any is_addition es ≡ true → es ≡ additions said c.adds
  pub honoured : c.available ≡ true → standalone ≡ true → es ≡ additions said c.adds

abbrev said_of : PluginState → List Effect
said_of s = if is_enabled s || is_unknown s then duplicate_warning s ∷ [] else []

act_decided :
    (c : Claude) (s : PluginState) (standalone adds : Bool)
    → c.adds ≡ adds
    → let es = (act c s (decide_mcp s standalone)).0 in
      ((standalone ≡ true) × (es ≡ additions (said_of s) adds))
      ⊎ ((standalone ≡ false) × (any is_addition es ≡ false))
unfolding decide_mcp
act_decided c plugin_absent true true e = ground (arith, e)
act_decided c plugin_absent true false e = ground (arith, e)
act_decided c plugin_absent false adds e = inr (refl, refl)
act_decided c plugin_enabled true true e = ground (arith, e)
act_decided c plugin_enabled true false e = ground (arith, e)
act_decided c plugin_enabled false adds e = inr (refl, refl)
act_decided c plugin_disabled true true e = ground (arith, e)
act_decided c plugin_disabled true false e = ground (arith, e)
act_decided c plugin_disabled false adds e = inr (refl, refl)
act_decided c plugin_unknown true true e = ground (arith, e)
act_decided c plugin_unknown true false e = ground (arith, e)
act_decided c plugin_unknown false adds e = inr (refl, refl)

IsPresent : PluginState → Type 0
IsPresent s = (s ≡ plugin_enabled) ⊎ (s ≡ plugin_disabled)

IsPresent-if :
    (b : Bool) (s t : PluginState) → IsPresent s → IsPresent t → IsPresent (if b then s else t)
IsPresent-if true s t h k = h
IsPresent-if false s t h k = k

plugin_state_from-saw :
    (in_block : Bool) (lines : List Text) → IsPresent (plugin_state_from in_block true lines)
unfolding plugin_state_from IsPresent
plugin_state_from-saw in_block [] = inl refl
plugin_state_from-saw in_block (line ∷ lines) =
    let trimmed = trim_space line in
    IsPresent-if (contains line (codes "beadle@")) _ _ (plugin_state_from-saw true lines) (
      IsPresent-if (in_block && has_prefix trimmed (codes "Status:")) _ _
        (IsPresent-if (contains trimmed (codes "enabled")) _ _ (inl refl) (inr refl))
        (IsPresent-if (in_block && contains trimmed (codes "@")) _ _
          (plugin_state_from-saw false lines) (plugin_state_from-saw in_block lines)))

plugin_state_from_absent :
    (lines : List Text)
    → (plugin_state_from false false lines ≡ plugin_absent) ↔ (any names_beadle lines ≡ false)
unfolding plugin_state_from IsPresent
plugin_state_from_absent [] = (λ h. refl, λ h. refl)
plugin_state_from_absent (line ∷ lines) =
    ground (arith, plugin_state_from_absent lines, plugin_state_from-saw true lines)

-- The list of plugins is taken to lack beadle exactly if none of its lines has "beadle@"; and it is
-- never taken to be unreadable.
pub beadle_plugin_state_absent :
    (plugin_list : Text)
    → ((beadle_plugin_state plugin_list ≡ plugin_absent)
        ↔ (any names_beadle (split b'\n' plugin_list) ≡ false))
unfolding beadle_plugin_state
beadle_plugin_state_absent plugin_list = plugin_state_from_absent (split b'\n' plugin_list)

-- What a state says of the lines that it was read from.
Told : List Text → PluginState → Type 0
Told lines plugin_disabled = any tells_disabled lines ≡ true
Told lines plugin_unknown = ◌≡◌ {A = Bool} false true
Told lines plugin_enabled = Unit
Told lines plugin_absent = Unit

Told-if :
    (ls : List Text) (b : Bool) (s t : PluginState)
    → Told ls s
    → Told ls t
    → Told ls (if b then s else t)
Told-if ls true s t h k = h
Told-if ls false s t h k = k

Told-cons : (l : Text) (ls : List Text) (s : PluginState) → Told ls s → Told (l ∷ ls) s
unfolding Told
Told-cons l ls plugin_disabled h = ground arith
Told-cons l ls plugin_unknown h = h
Told-cons l ls plugin_enabled h = tt
Told-cons l ls plugin_absent h = tt

status-Told :
    (line : Text) (ls : List Text) (b : Bool) (rest : PluginState)
    → Told (line ∷ ls) rest
    → Told (line ∷ ls) (
        if b && has_prefix (trim_space line) (codes "Status:")
        then if contains (trim_space line) (codes "enabled")
          then plugin_enabled
          else plugin_disabled
        else rest)
unfolding Told
status-Told line ls false rest h = h
status-Told line ls true rest h =
    elim (Bool-cases (has_prefix (trim_space line) (codes "Status:"))) [
      | inr other ↦ rw other h
      | inl status ↦ rw status (elim (Bool-cases (contains (trim_space line) (codes "enabled"))) [
        | inl on ↦ rw on tt
        | inr off ↦ rw off (rw (status, off) refl)
      ])
    ]

plugin_state_from-Told :
    (in_block saw : Bool) (lines : List Text) → Told lines (plugin_state_from in_block saw lines)
unfolding plugin_state_from Told
plugin_state_from-Told in_block true [] = tt
plugin_state_from-Told in_block false [] = tt
plugin_state_from-Told in_block saw (line ∷ lines) =
    let ih : (b s : Bool) → Told (line ∷ lines) (plugin_state_from b s lines) =
      λ b s. Told-cons line lines _ (plugin_state_from-Told b s lines) in
    Told-if (line ∷ lines) (contains line (codes "beadle@")) _ _ (ih true true) (
      status-Told line lines in_block _ (
        Told-if (line ∷ lines) (in_block && contains (trim_space line) (codes "@")) _ _
          (ih false saw) (ih in_block saw)))

-- What is read decides what is said.
said_of-IsWarning :
    (out : Text) (s : PluginState)
    → ((s ≡ plugin_absent) ↔ (any names_beadle (split b'\n' out) ≡ false))
    → Told (split b'\n' out) s
    → IsWarning (some out) (said_of s)
unfolding Told
said_of-IsWarning out plugin_absent h t = lacking (h.0 refl)
said_of-IsWarning out plugin_enabled h t = named (ground (arith, h))
said_of-IsWarning out plugin_disabled h t = denied (ground (arith, h)) t
said_of-IsWarning out plugin_unknown h t = cc t

read-IsWarning :
    (list : Option Text)
    → IsWarning list
        (said_of (elim list [ none ↦ plugin_unknown | some out ↦ beadle_plugin_state out ]))
unfolding beadle_plugin_state
read-IsWarning none = unread
read-IsWarning (some out) =
    said_of-IsWarning out (beadle_plugin_state out) (beadle_plugin_state_absent out)
      (plugin_state_from-Told false false (split b'\n' out))

-- Whatever `claude` prints and does: `install` adds a server only if the user asked for one; then,
-- and whenever the user asks and `claude` is there, it removes an older entry before it adds the new
-- one, and before that it warns: that the plugin is unknown exactly if the list of plugins could not
-- be read, and of a duplicate only if a line of the list names beadle; and it adds without a warning
-- only if the list was read and no line names beadle, or a status line in it does not say "enabled".
pub setup_mcp_registration-IsGuarded :
    (c : Claude) (standalone : Bool)
    → IsGuarded c standalone (setup_mcp_registration c standalone).0
unfolding setup_mcp_registration
setup_mcp_registration-IsGuarded c standalone =
    let said = said_of (detect_plugin_state c) in
    let w : IsWarning c.plugin_list (said_of (detect_plugin_state c)) =
      unfold detect_plugin_state in read-IsWarning c.plugin_list in
    let decided = act_decided c (detect_plugin_state c) standalone c.adds refl in
    elim (Bool-cases c.available) [
      | inl here ↦ rw here (elim decided [
        | inl (asked, e) ↦ record {
          said = said;
          is_warning = w;
          asked = λ h. asked;
          ordered = λ h. e;
          honoured = λ a b. e;
        }
        | inr (unasked, e) ↦ record {
          said = said;
          is_warning = w;
          asked = λ h. cc (h, e);
          ordered = λ h. cc (h, e);
          honoured = λ a b. cc (b, unasked);
        }
      ])
      | inr gone ↦ rw gone (record {
        said = said;
        is_warning = w;
        asked = λ h. cc h;
        ordered = λ h. cc h;
        honoured = λ a b. cc a;
      })
    ]
