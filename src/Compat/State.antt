-- ===== src/Compat/State.antt =====
-- `enum CompatState` and `struct Compatibility` of src/compat.rs.
pub mod Summary
use rust_landlock.Prelude.{Option, none}
use rust_landlock.Uapi.{Sys}
use rust_landlock.Compat.Abi
use rust_landlock.Compat.Abi.{Abi, new_current}
use rust_landlock.Compat.Level.{CompatLevel}

-- `no_support` is the source's `No`.
pub data CompatState : Type 0 where
  init full partial no_support dummy : CompatState

-- `CompatState::update`; the clauses are those of the `match`, in order.
unfoldable pub update : CompatState → CompatState → CompatState
update init other = other
update dummy _ = dummy
update _ dummy = dummy
update no_support no_support = no_support
update full full = full
update _ _ = partial

pub record Compatibility : Type 0 where
  pub abi : Abi
  pub level : Option CompatLevel
  pub state : CompatState

-- The state in which `Compatibility::from` starts.
abbrev initial_state : Abi → CompatState
initial_state Abi.unsupported = no_support
initial_state _ = init

-- `Compatibility::from`
unfoldable pub of_abi : Abi → Compatibility
of_abi abi = record { abi = abi; level = none; state = initial_state abi }

-- `Compatibility::update`
unfoldable pub update_state : Compatibility → CompatState → Compatibility
unfolding update
update_state c s = record c { state = update c.state s }

module _ ⦃S : Sys⦄ where
  open S use {World}

  -- `Compatibility::new`
  unfoldable pub new : World → Compatibility × World
  unfolding of_abi
  new w = let (abi, w') = new_current w in (of_abi abi, w')
