-- ===== src/Ruleset/Handle.antt =====
-- `RulesetAttr::handle_access` of src/ruleset.rs, with `AccessFs::ruleset_handle_access` of
-- src/fs.rs. The ruleset that an error leaves behind is part of the result: a caller that holds
-- `&mut Ruleset` goes on with it.
pub mod Invariant
pub mod Grades
pub mod Accepted
pub mod Exact
pub mod BestEffort
pub mod Unmet
use rust_landlock.Prelude.{Option, none, some}
use rust_landlock.Prelude.Exec.{Result, ok, err, Exec, map_err}
use rust_landlock.Uapi.{Sys}
use rust_landlock.BitFlags.{BitFlags, ◌∪◌}
use rust_landlock.Errors.{
  CompatError, HandleAccessError, HandleAccessesError, RulesetError, handle_accesses,
}
use rust_landlock.Compat.Level.{into}
use rust_landlock.Compat.TryCompat.{try_compat}
use rust_landlock.Access.{access_compat}
use rust_landlock.Ruleset.Types.{Ruleset, set_state}

module _ ⦃E : BitFlags⦄ where
  open E use {Flags}

  -- The second half of `ruleset_handle_access`: what is done with the rights that passed.
  unfoldable pub add_handled :
      Result (Option Flags) (CompatError Flags)
      → Ruleset
      → Result (Unit {0}) (HandleAccessesError Flags) × Ruleset
  add_handled (err e) r = (err (HandleAccessesError.fs (HandleAccessError.compat e)), r)
  add_handled (ok none) r = (ok tt, r)
  add_handled (ok (some a)) r = (ok tt, record r { actual_handled_fs = r.actual_handled_fs ∪ a })

  module _ ⦃S : Sys⦄ where
    open S use {World}

    unfoldable pub ruleset_handle_access :
        Flags → Exec (Ruleset × World) (HandleAccessesError Flags) (Unit {0})
    unfolding add_handled
    ruleset_handle_access access (r, w) =
        let (out, (s', w')) =
          try_compat access_compat access r.compat.abi (into r.compat.level) (r.compat.state, w) in
        let r' = record r {
          requested_handled_fs = r.requested_handled_fs ∪ access;
          compat = set_state s' r.compat;
        } in
        let (res, r'') = add_handled out r' in (res, (r'', w'))

    unfoldable pub handle_access : Flags → Exec (Ruleset × World) (RulesetError Flags) (Unit {0})
    unfolding ruleset_handle_access
    handle_access access (r, w) =
        let (res, rest) = ruleset_handle_access access (r, w) in (map_err handle_accesses res, rest)
