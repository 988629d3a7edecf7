-- ===== src/Compat/TryCompat.antt =====
-- `enum CompatResult` and `trait TryCompat` of src/compat.rs.
pub mod Outcome
use rust_landlock.Prelude.{Option, none, some}
use rust_landlock.Prelude.Exec.{Result, ok, err, Exec, ◌>>=◌}
use rust_landlock.Uapi.{Sys}
use rust_landlock.Errors.{CompatError}
use rust_landlock.Compat.Abi.{Abi}
use rust_landlock.Compat.Level.{CompatLevel, best_effort, soft_requirement, hard_requirement}
use rust_landlock.Compat.State.{CompatState, update}

-- `F` is the type of the sets of flags, for the errors.
pub data CompatResult (T F : Type 0) : Type 0 where
  full : T → CompatResult T F
  partial : T → CompatError F → CompatResult T F
  no_support : CompatError F → CompatResult T F

module _ {T F : Type 0} where
  -- What `try_compat` does with a result that matches the request in part, by level.
  unfoldable pub settle_partial :
      T
      → CompatError F
      → CompatLevel
      → CompatState
      → Result (Option T) (CompatError F) × CompatState
  settle_partial new_self error best_effort s = (ok (some new_self), update s CompatState.partial)
  settle_partial new_self error soft_requirement s = (ok none, update s CompatState.dummy)
  settle_partial new_self error hard_requirement s = (err error, update s CompatState.dummy)

  -- What it does with one that does not match.
  unfoldable pub settle_none :
      CompatError F → CompatLevel → CompatState → Result (Option T) (CompatError F) × CompatState
  settle_none error best_effort s = (ok none, update s CompatState.no_support)
  settle_none error soft_requirement s = (ok none, update s CompatState.dummy)
  settle_none error hard_requirement s = (err error, update s CompatState.dummy)

  -- The `match` on `try_compat_inner`, with the level that is in force.
  unfoldable pub settle :
      Result (CompatResult T F) (CompatError F)
      → CompatLevel
      → CompatState
      → Result (Option T) (CompatError F) × CompatState
  unfolding settle_partial settle_none update
  settle (ok (CompatResult.full new_self)) level s = (ok (some new_self), update s CompatState.full)
  settle (ok (CompatResult.partial new_self error)) level s = settle_partial new_self error level s
  settle (ok (CompatResult.no_support error)) level s = settle_none error level s
  settle (err e) level s = (err e, update s CompatState.dummy)

module _ ⦃S : Sys⦄ where
  open S use {World}

  -- The methods that an implementation gives, with `TailoredCompatLevel`. Checks may ask the system,
  -- and those of the children update the compatibility state.
  pub record TryCompat (T F : Type 0) : Type 0 where
    pub tailored : T → CompatLevel → CompatLevel
    pub try_compat_children :
        T → Abi → CompatLevel → Exec (CompatState × World) (CompatError F) (Option T)
    pub try_compat_inner : T → Abi → World → Result (CompatResult T F) (CompatError F) × World

  module _ {T F : Type 0} (I : TryCompat T F) where
    open I use {tailored, try_compat_children, try_compat_inner}

    -- The second half of `try_compat`, from the object that the children left.
    unfoldable pub try_compat_self :
        Option T → Abi → CompatLevel → Exec (CompatState × World) (CompatError F) (Option T)
    unfolding settle
    try_compat_self none abi level (s, w) = (ok none, (s, w))
    try_compat_self (some new_self) abi level (s, w) =
        let (r, w') = try_compat_inner new_self abi w in
        let (out, s') = settle r level s in (out, (s', w'))

    -- The provided method `TryCompat::try_compat`.
    unfoldable pub try_compat :
        T → Abi → CompatLevel → Exec (CompatState × World) (CompatError F) (Option T)
    unfolding try_compat_self
    try_compat self abi parent_level = do
      let level = tailored self parent_level
      new_self ← try_compat_children self abi level
      try_compat_self new_self abi level
