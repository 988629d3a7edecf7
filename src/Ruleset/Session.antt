-- ===== src/Ruleset/Session.antt =====
-- The calls on a created ruleset, one after the other, as a step relation.
pub mod Backed
pub mod Live
pub mod Paths
pub mod Enforced
pub mod Calls
pub mod GivenUp
pub mod Hard
pub mod Closed
use rust_landlock.Prelude.{Bool}
use rust_landlock.Uapi.{Sys}
use rust_landlock.BitFlags.{BitFlags}
use rust_landlock.Compat.Level.{CompatLevel}
use rust_landlock.Fs.PathBeneath.{PathBeneath}
use rust_landlock.Ruleset.Types.{RulesetCreated, set_compatibility_created, set_no_new_privs}
use rust_landlock.Ruleset.Rules.{path_rule, add_rule}

module _ ⦃S : Sys⦄ ⦃E : BitFlags⦄ where
  open S use {World}

  -- One call through `&mut`, whether it returns an error or not, or a change of the system that
  -- something else makes.
  pub data Step : RulesetCreated × World → RulesetCreated × World → Type 0 where
    rule :
        (r : PathBeneath) (c : RulesetCreated) (w : World)
        → Step (c, w) (add_rule path_rule r (c, w)).1
    level :
        (l : CompatLevel) (c : RulesetCreated) (w : World)
        → Step (c, w) (set_compatibility_created l c, w)
    no_new_privs :
        (b : Bool) (c : RulesetCreated) (w : World) → Step (c, w) (set_no_new_privs b c, w)
    elsewhere : (c : RulesetCreated) (w w' : World) → Step (c, w) (c, w')

  pub data Steps : RulesetCreated × World → RulesetCreated × World → Type 0 where
    done : {x : RulesetCreated × World} → Steps x x
    next : {x y z : RulesetCreated × World} → Step x y → Steps y z → Steps x z
