-- ===== src/Ruleset/Types.antt =====
-- The structs of src/ruleset.rs and their small methods. A method of a `mut self` or `&mut self`
-- gives the new value.
use rust_landlock.Prelude.{Bool, true, false, some, if◌then◌else◌}
use rust_landlock.Prelude.Int.{ℤ, pos, leb_ℤ}
use rust_landlock.Uapi.{Sys}
use rust_landlock.BitFlags.{BitFlags}
use rust_landlock.Compat.Level.{CompatLevel}
use rust_landlock.Compat.State
use rust_landlock.Compat.State.{CompatState, Compatibility, init, full, partial, no_support, dummy}

pub data RulesetStatus : Type 0 where
  fully_enforced partially_enforced not_enforced : RulesetStatus

-- `From<CompatState> for RulesetStatus`
unfoldable pub status_of : CompatState → RulesetStatus
status_of init = not_enforced
status_of no_support = not_enforced
status_of dummy = not_enforced
status_of full = fully_enforced
status_of partial = partially_enforced

pub record RestrictionStatus : Type 0 where
  pub status : RulesetStatus  -- the field `ruleset`
  pub no_new_privs : Bool

-- The states `Full | Partial`, in which the kernel is called.
abbrev pub is_enforced : CompatState → Bool
is_enforced full = true
is_enforced partial = true
is_enforced _ = false

abbrev pub is_init : CompatState → Bool
is_init init = true
is_init _ = false

abbrev pub is_dummy : CompatState → Bool
is_dummy dummy = true
is_dummy _ = false

abbrev pub set_level : CompatLevel → Compatibility → Compatibility
set_level level c = record c { level = some level }

abbrev pub set_state : CompatState → Compatibility → Compatibility
set_state s c = record c { state = s }

module _ ⦃E : BitFlags⦄ where
  open E use {Flags, empty}

  pub record Ruleset : Type 0 where
    pub requested_handled_fs : Flags
    pub actual_handled_fs : Flags
    pub compat : Compatibility

  pub record RulesetCreated : Type 0 where
    pub fd : ℤ
    pub no_new_privs : Bool
    pub requested_handled_fs : Flags
    pub compat : Compatibility

  abbrev pub with_state : CompatState → RulesetCreated → RulesetCreated
  with_state s c = record c { compat = set_state s c.compat }

  -- `From<Compatibility> for Ruleset`
  unfoldable pub of_compat : Compatibility → Ruleset
  of_compat c = record { requested_handled_fs = empty; actual_handled_fs = empty; compat = c }

  -- `Compatible::set_compatibility` of `Ruleset`
  unfoldable pub set_compatibility : CompatLevel → Ruleset → Ruleset
  set_compatibility level r = record r { compat = set_level level r.compat }

  -- `Compatible::set_compatibility` of `RulesetCreated`
  unfoldable pub set_compatibility_created : CompatLevel → RulesetCreated → RulesetCreated
  set_compatibility_created level c = record c { compat = set_level level c.compat }

  -- `RulesetCreated::new`
  unfoldable pub created : Ruleset → ℤ → RulesetCreated
  created r fd = record {
    fd = fd;
    no_new_privs = true;
    requested_handled_fs = r.requested_handled_fs;
    compat = r.compat;
  }

  unfoldable pub set_no_new_privs : Bool → RulesetCreated → RulesetCreated
  set_no_new_privs b c = record c { no_new_privs = b }

  module _ ⦃S : Sys⦄ where
    open S use {World, close}

    -- `Ruleset::default`
    unfoldable pub default : World → Ruleset × World
    unfolding of_compat
    default w = let (c, w') = State.new w in (of_compat c, w')

    -- `Drop for RulesetCreated`
    unfoldable pub drop : RulesetCreated → World → World
    drop c w = if leb_ℤ (pos 0) c.fd then (close c.fd w).1 else w
