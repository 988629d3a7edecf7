-- ===== src/Ruleset/Create.antt =====
-- `Ruleset::create` of src/ruleset.rs.
pub mod Outcome
use rust_landlock.Prelude.{Bool, some, if◌then◌else◌}
use rust_landlock.Prelude.Exec.{Result, ok, err, map_err, proceed}
use rust_landlock.Prelude.Int.{pos, negsuc, leb_ℤ}
use rust_landlock.Uapi.{Sys, LandlockRulesetAttr, landlock_create_ruleset, last_os_error}
use rust_landlock.BitFlags.{BitFlags}
use rust_landlock.Errors.{
  CreateRulesetError, create_ruleset_call, missing_handled_access, RulesetError, create_ruleset,
}
use rust_landlock.Compat.Level.{CompatLevel, best_effort, soft_requirement, hard_requirement, into}
use rust_landlock.Compat.State.{no_support, dummy, update_state}
use rust_landlock.Ruleset.Types.{Ruleset, RulesetCreated, is_enforced, is_init, created}

module _ ⦃E : BitFlags⦄ where
  open E use {Flags, bits, is_empty}

  -- `match self.compat.level.into()`, for a ruleset that handles no access.
  unfoldable pub without_access : CompatLevel → Ruleset → Result Ruleset CreateRulesetError
  without_access best_effort r = ok (record r { compat = update_state r.compat no_support })
  without_access soft_requirement r = ok (record r { compat = update_state r.compat dummy })
  without_access hard_requirement r = err missing_handled_access

  unfoldable pub handles_one : Ruleset → Result Ruleset CreateRulesetError
  unfolding without_access update_state
  handles_one r =
      if is_empty r.actual_handled_fs then without_access (into r.compat.level) r else ok r

  unfoldable pub attr_of : Ruleset → LandlockRulesetAttr
  attr_of r = record { handled_access_fs = bits r.actual_handled_fs; handled_access_net = 0 }

  module _ ⦃S : Sys⦄ where
    open S use {World}

    -- `match self.compat.state`; 16 is the size of the struct.
    unfoldable pub ask_kernel : Ruleset → World → Result RulesetCreated CreateRulesetError × World
    unfolding attr_of created
    ask_kernel r w =
        if is_enforced r.compat.state
        then (let (fd, w') = landlock_create_ruleset (some (attr_of r)) 16 0 w in
            if leb_ℤ (pos 0) fd
            then (ok (created r fd), w')
            else (err (create_ruleset_call (last_os_error w')), w'))
        else (ok (created r (negsuc 0)), w)

    -- The closure `body`.
    unfoldable pub create_body : Ruleset → World → Result RulesetCreated CreateRulesetError × World
    unfolding handles_one ask_kernel
    create_body r w =
        if is_empty r.requested_handled_fs
        then (err missing_handled_access, w)
        else if is_init r.compat.state
        then (err missing_handled_access, w)
        else proceed (handles_one r, w) ask_kernel

    unfoldable pub create : Ruleset → World → Result RulesetCreated (RulesetError Flags) × World
    unfolding create_body
    create r w = let (res, w') = create_body r w in (map_err create_ruleset res, w')
