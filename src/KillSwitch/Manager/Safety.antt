-- ===== src/KillSwitch/Manager/Safety.antt =====
-- src/killswitch/KillSwitchManager.cpp: what the manager's state and the marker file say of the
-- rules that are in force.
use zarya.Prelude.{
  ℕ, ◌≡◌, refl, Bool, not, true, false, Option, none, some, Text, if◌then◌else◌, arith,
}
use zarya.KillSwitch.Manager.{
  disabled, disabling, enabling, enabled, unsupported, KillSwitchRuleSet, Backend, Helper,
  Surroundings, Reply, fail, with_marker, is_present, refresh_startup_state, enabled_state,
  record_rules, apply_rules, enable, remove_marker, take_off, disable, recover,
}

-- What the manager relies on in a back end: an unsupported one says so in its status, success means
-- that the rules are in force or off, and a failure puts no rules in force.
pub record IsBackend (b : Backend) : Type 0 where
  pub says_unsupported :
      (privileged : Bool)
      → (b.check_support privileged).supported ≡ false
      → (b.check_support privileged).status ≡ unsupported
  pub puts_in_force :
      (rules : KillSwitchRuleSet) (on : Bool)
      → (b.enable rules on).1 ≡ none
      → (b.enable rules on).0 ≡ true
  pub adds_none :
      (rules : KillSwitchRuleSet) (on : Bool) (text : Text)
      → (b.enable rules on).1 ≡ some text
      → (b.enable rules on).0 ≡ true
      → on ≡ true
  pub takes_off : (on : Bool) → (b.disable on).1 ≡ none → (b.disable on).0 ≡ false
  pub keeps_off : (on : Bool) → (b.disable on).0 ≡ true → on ≡ true

-- Rules in force are recorded in the marker file, and the status is right where it says that the
-- switch is on or off.
pub record IsSafe (h : Helper) : Type 0 where
  pub recorded : h.in_force ≡ true → is_present h.marker ≡ true
  pub honest : h.state.status ≡ enabled → h.in_force ≡ true
  pub idle : h.state.status ≡ disabled → h.in_force ≡ false

if-IsSafe :
    (test : Bool) (yes no : Reply)
    → (test ≡ true → IsSafe yes.helper)
    → (test ≡ false → IsSafe no.helper)
    → IsSafe (if test then yes else no).helper
if-IsSafe true _ _ y n = y refl
if-IsSafe false _ _ y n = n refl

refresh-IsSafe :
    (env : Surroundings) (privileged : Bool) (h : Helper)
    → IsSafe h
    → IsSafe (refresh_startup_state env privileged h)
unfolding refresh_startup_state with_marker
refresh-IsSafe env privileged h s = record {
  recorded = s.recorded;
  honest = ground arith;
  idle = ground (arith, s.recorded);
}

off_without_marker : (h : Helper) → IsSafe h → is_present h.marker ≡ false → h.in_force ≡ false
off_without_marker h s e = ground (arith, s.recorded)

remove_marker-IsSafe :
    (env : Surroundings) (b : Backend) (h : Helper)
    → h.in_force ≡ false
    → IsSafe (remove_marker env b h).helper
unfolding remove_marker
remove_marker-IsSafe env b h off = record {
  recorded = ground (arith, off);
  honest = ground arith;
  idle = ground (arith, off);
}

module _ (b : Backend) (laws : IsBackend b) where
  apply_rules-IsSafe :
      (env : Surroundings) (rules : KillSwitchRuleSet) (h : Helper)
      → env.write_error ≡ none
      → (h.in_force ≡ true → is_present h.marker ≡ true)
      → (on : Bool) (error : Option Text) → (error ≡ none → on ≡ true)
      → ((text : Text) → error ≡ some text → on ≡ true → h.in_force ≡ true)
      → IsSafe (apply_rules env b rules h (on, error)).helper
  unfolding apply_rules record_rules fail enabled_state
  apply_rules-IsSafe env rules h w r on (some text) puts adds = record {
    recorded = λ e. r (adds text refl e);
    honest = ground arith;
    idle = ground arith;
  }
  apply_rules-IsSafe env rules h w r on none puts adds = record {
    recorded = ground (arith, w);
    honest = ground (arith, w, puts refl);
    idle = ground (arith, w);
  }

  take_off-IsSafe :
      (env : Surroundings) (h : Helper)
      → (h.in_force ≡ true → is_present h.marker ≡ true)
      → (on : Bool) (error : Option Text) → (error ≡ none → on ≡ false)
      → (on ≡ true → h.in_force ≡ true)
      → IsSafe (take_off env b h (on, error)).helper
  unfolding take_off fail
  take_off-IsSafe env h r on (some text) takes keeps = record {
    recorded = λ e. r (keeps e);
    honest = ground arith;
    idle = ground arith;
  }
  take_off-IsSafe env h r on none takes keeps =
      remove_marker-IsSafe env b (record h { in_force = on }) (takes refl)

  disable-IsSafe :
      (env : Surroundings) (h : Helper) → IsSafe h → IsSafe (disable env (some b) h).helper
  unfolding disable
  disable-IsSafe env h s =
      let left = record h { state = record h.state { status = disabling } } in
      if-IsSafe (is_present h.marker) _ _
        (λ e.
          take_off-IsSafe env left s.recorded (b.disable h.in_force).0 (b.disable h.in_force).1
            (laws.takes_off h.in_force) (laws.keeps_off h.in_force))
        (λ e. remove_marker-IsSafe env b left (off_without_marker h s e))

  enable-IsSafe :
      (env : Surroundings) (rules : KillSwitchRuleSet) (privileged : Bool) (h : Helper)
      → env.write_error ≡ none
      → IsSafe h
      → IsSafe (enable env (some b) rules privileged h).helper
  unfolding enable fail
  enable-IsSafe env rules privileged h w s =
      let support = b.check_support privileged in
      if-IsSafe (not support.supported) _ _
        (λ e. record {
          recorded = s.recorded;
          honest = λ k. ground (arith, laws.says_unsupported privileged);
          idle = λ k. ground (arith, laws.says_unsupported privileged);
        })
        (λ e.
          if-IsSafe (not privileged) _ _
            (λ k. record { recorded = s.recorded; honest = ground arith; idle = ground arith })
            (λ k.
              apply_rules-IsSafe env rules
                (record h { state = record h.state { status = enabling } }) w s.recorded
                (b.enable rules h.in_force).0 (b.enable rules h.in_force).1
                (laws.puts_in_force rules h.in_force) (laws.adds_none rules h.in_force)))

-- The histories of calls on one manager in which the marker file can be written. The back end is
-- the program's, with what it meets at each moment.
pub data Reaches (b : ℕ → Backend) (start : Helper) : Helper → Type 0 where
  here : Reaches b start start
  refreshed :
      (env : Surroundings) (privileged : Bool) (h : Helper)
      → Reaches b start h
      → Reaches b start (refresh_startup_state env privileged h)
  enabled_by :
      (n : ℕ) (env : Surroundings) (rules : KillSwitchRuleSet) (privileged : Bool) (h : Helper)
      → env.write_error ≡ none
      → Reaches b start h
      → Reaches b start (enable env (some (b n)) rules privileged h).helper
  disabled_by :
      (n : ℕ) (env : Surroundings) (h : Helper)
      → Reaches b start h
      → Reaches b start (disable env (some (b n)) h).helper
  recovered_by :
      (n : ℕ) (env : Surroundings) (force : Bool) (h : Helper)
      → Reaches b start h
      → Reaches b start (recover env (some (b n)) force h).helper

-- Over a back end that does what it says, every history keeps the helper safe.
pub reaches-IsSafe :
    (b : ℕ → Backend)
    → ((n : ℕ) → IsBackend (b n))
    → (start h : Helper) → IsSafe start
    → Reaches b start h
    → IsSafe h
unfolding recover
reaches-IsSafe b laws start _ s here = s
reaches-IsSafe b laws start _ s (refreshed env privileged h r) =
    refresh-IsSafe env privileged h (reaches-IsSafe b laws start h s r)
reaches-IsSafe b laws start _ s (enabled_by n env rules privileged h w r) =
    enable-IsSafe (b n) (laws n) env rules privileged h w (reaches-IsSafe b laws start h s r)
reaches-IsSafe b laws start _ s (disabled_by n env h r) =
    disable-IsSafe (b n) (laws n) env h (reaches-IsSafe b laws start h s r)
reaches-IsSafe b laws start _ s (recovered_by n env force h r) =
    disable-IsSafe (b n) (laws n) env h (reaches-IsSafe b laws start h s r)

-- Without its marker file the manager, also one that has enabled the switch, reports success and
-- the status Disabled when it is to disable the switch, and leaves the rules as they are.
pub disable_without_marker :
    (env : Surroundings) (b : Backend) (h : Helper)
    → h.marker ≡ none
    → ((disable env (some b) h).ok ≡ true)
      × ((disable env (some b) h).helper.state.status ≡ disabled)
      × ((disable env (some b) h).helper.in_force ≡ h.in_force)
unfolding disable remove_marker
disable_without_marker env b h none_there =
    (ground (arith, none_there), ground (arith, none_there), ground (arith, none_there))
