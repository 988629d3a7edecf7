-- ===== src/Sandboxer/Command.antt =====
-- When the sandboxer runs the command.
use rust_landlock.Prelude.{ℕ, Option, List, ◌≡◌, ◌≢◌, refl}
use rust_landlock.Prelude.Exec.{Result, ok, err}
use rust_landlock.Uapi.{Sys}
use rust_landlock.BitFlags.{BitFlags}
use rust_landlock.Errors.{RulesetError}
use rust_landlock.Ruleset.Types.{
  Ruleset, RulesetCreated, RestrictionStatus, RulesetStatus, fully_enforced, partially_enforced,
  not_enforced, default,
}
use rust_landlock.Compat.Abi.{v3}
use rust_landlock.Fs.Rights.{from_all, from_read}
use rust_landlock.Ruleset.Handle.{handle_access}
use rust_landlock.Ruleset.Create.{create}
use rust_landlock.Ruleset.Restrict.{restrict_self}
use rust_landlock.Ruleset.Restrict.Status.{WasAccepted, restrict_self_accepted}
use rust_landlock.Sandboxer.{
  add_paths, env_fs_ro_name, env_fs_rw_name, error, panic, Ending, MainError, command, finish,
  ending_by, ending_of, after_second, after_first, after_create, after_handle, main,
}

module _ ⦃S : Sys⦄ ⦃E : BitFlags⦄ where
  open S use {World}
  open E use {Flags}

  -- The end of the restriction: the kernel accepted the ruleset, which was then dropped.
  AnyCommand : RulesetCreated → Ending × World → Type 0
  AnyCommand c (command, w') = WasAccepted c w'
  AnyCommand c (error e, w') = Unit {0}
  AnyCommand c (panic e, w') = Unit {0}

  by_status :
      (s : RulesetStatus) (c : RulesetCreated) (w' : World)
      → (s ≢ not_enforced → WasAccepted c w')
      → AnyCommand c (ending_by s, w')
  unfolding AnyCommand
  by_status not_enforced c w' f = tt
  by_status fully_enforced c w' f = f (λ e. cc)
  by_status partially_enforced c w' f = f (λ e. cc)

  of_result :
      (c : RulesetCreated) (w : World) (m : Result RestrictionStatus (RulesetError Flags) × World)
      → restrict_self c w ≡ m
      → AnyCommand c (ending_of m.0, m.1)
  unfolding AnyCommand
  of_result c w (ok st, w') h = by_status st.status c w' (restrict_self_accepted c w st w' h)
  of_result c w (err e, w') h = tt

  finish-AnyCommand : (c : RulesetCreated) (w : World) → AnyCommand c (finish c w)
  unfolding finish
  finish-AnyCommand c w = of_result c w (restrict_self c w) refl

  -- The calls of `main` before its end, none of which fails, and what the kernel did at their end.
  pub record WasRestricted (var_os : List ℕ → Option (List ℕ)) (w w' : World) : Type 0 where
    pub builder : Ruleset
    pub made : RulesetCreated
    pub read : RulesetCreated
    pub written : RulesetCreated
    pub w0 : World
    pub w1 : World
    pub w2 : World
    pub w3 : World
    pub handled : handle_access (from_all v3) (default w) ≡ (ok tt, (builder, w0))
    pub created : create builder w0 ≡ (ok made, w1)
    pub read_paths : add_paths var_os env_fs_ro_name (from_read v3) made w1 ≡ (ok read, w2)
    pub written_paths : add_paths var_os env_fs_rw_name (from_all v3) read w2 ≡ (ok written, w3)
    pub accepted : WasAccepted written w'

  module _ (var_os : List ℕ → Option (List ℕ)) (w : World) where
    abbrev IfCommand : Ending × World → Type 0
    IfCommand (e, w') = e ≡ command → WasRestricted var_os w w'

    accepted_at :
        (c : RulesetCreated) (m : Ending × World)
        → AnyCommand c m
        → m.0 ≡ command
        → WasAccepted c m.1
    unfolding AnyCommand
    accepted_at c (command, w') a h = a
    accepted_at c (error e, w') a h = cc
    accepted_at c (panic e, w') a h = cc

    second :
        (r : Ruleset) (c0 c1 : RulesetCreated) (w0 w1 w2 : World)
        (m : Result RulesetCreated MainError × World)
        → handle_access (from_all v3) (default w) ≡ (ok tt, (r, w0))
        → create r w0 ≡ (ok c0, w1)
        → add_paths var_os env_fs_ro_name (from_read v3) c0 w1 ≡ (ok c1, w2)
        → add_paths var_os env_fs_rw_name (from_all v3) c1 w2 ≡ m
        → IfCommand (after_second m)
    unfolding after_second
    second r c0 c1 w0 w1 w2 (ok c2, w3) h k l e is_command = record {
      builder = r;
      made = c0;
      read = c1;
      written = c2;
      w0 = w0;
      w1 = w1;
      w2 = w2;
      w3 = w3;
      handled = h;
      created = k;
      read_paths = l;
      written_paths = e;
      accepted = accepted_at c2 (finish c2 w3) (finish-AnyCommand c2 w3) is_command;
    }
    second r c0 c1 w0 w1 w2 (err x, w3) h k l e is_command = cc

    first :
        (r : Ruleset) (c0 : RulesetCreated) (w0 w1 : World)
        (m : Result RulesetCreated MainError × World)
        → handle_access (from_all v3) (default w) ≡ (ok tt, (r, w0))
        → create r w0 ≡ (ok c0, w1)
        → add_paths var_os env_fs_ro_name (from_read v3) c0 w1 ≡ m
        → IfCommand (after_first var_os m)
    unfolding after_first
    first r c0 w0 w1 (ok c1, w2) h k l is_command = second r c0 c1 w0 w1 w2 _ h k l refl is_command
    first r c0 w0 w1 (err x, w2) h k l is_command = cc

    after_made :
        (r : Ruleset) (w0 : World) (m : Result RulesetCreated (RulesetError Flags) × World)
        → handle_access (from_all v3) (default w) ≡ (ok tt, (r, w0))
        → create r w0 ≡ m
        → IfCommand (after_create var_os m)
    unfolding after_create
    after_made r w0 (ok c0, w1) h k is_command = first r c0 w0 w1 _ h k refl is_command
    after_made r w0 (err x, w1) h k is_command = cc

    after_handled :
        (m : Result (Unit {0}) (RulesetError Flags) × (Ruleset × World))
        → handle_access (from_all v3) (default w) ≡ m
        → IfCommand (after_handle var_os m)
    unfolding after_handle
    after_handled (ok u, (r, w0)) h is_command = after_made r w0 (create r w0) h refl is_command
    after_handled (err x, (r, w0)) h is_command = cc

  -- For each environment and state of the system: if main comes to the command, then handle_access,
  -- create and add_rules for the paths of both variables returned no error, one after the other, and
  -- landlock_restrict_self was then answered with 0 for the descriptor of the ruleset that came out
  -- of these. This call and the drop of that ruleset are the last that was done: they lead to
  -- the state in which main comes to the command.
  pub main-WasRestricted :
      (var_os : List ℕ → Option (List ℕ)) (w : World)
      → (main var_os w).0 ≡ command
      → WasRestricted var_os w (main var_os w).1
  unfolding main
  main-WasRestricted var_os w h =
      after_handled var_os w (handle_access (from_all v3) (default w)) refl h
