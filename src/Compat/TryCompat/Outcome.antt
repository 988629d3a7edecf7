-- ===== src/Compat/TryCompat/Outcome.antt =====
-- What `try_compat` reports, for every implementation of the trait.
use rust_landlock.Prelude.{Option, none, some, ◌≡◌, ◌⊎◌, arith}
use rust_landlock.Prelude.Exec.{Result, ok, err, proceed}
use rust_landlock.Uapi.{Sys}
use rust_landlock.Errors.{CompatError}
use rust_landlock.Compat.Abi.{Abi}
use rust_landlock.Compat.Level.{CompatLevel, hard_requirement}
use rust_landlock.Compat.State.{CompatState, dummy, update}
use rust_landlock.Compat.TryCompat.{CompatResult, TryCompat, settle, try_compat, try_compat_self}

update-dummy : (s : CompatState) → update s dummy ≡ dummy
unfolding update
update-dummy s = ground arith

module _ {T F : Type 0} where
  -- An error is final, and under the two lenient levels it is the checked object's own.
  settle-err :
      (r : Result (CompatResult T F) (CompatError F)) (level : CompatLevel) (s s' : CompatState)
      (e : CompatError F)
      → settle r level s ≡ (err e, s')
      → (s' ≡ dummy) × ((level ≡ hard_requirement) ⊎ (r ≡ err e))
  unfolding settle
  settle-err r level s s' e h = ground arith

module _ ⦃S : Sys⦄ where
  open S use {World}

  -- That a failed check of an object's children leaves the compatibility state at `Dummy`.
  pub record IsFinal {T F : Type 0} (I : TryCompat T F) : Type 0 where
    pub children :
        (t : T) (abi : Abi) (level : CompatLevel) (s s' : CompatState) (w w' : World)
        (e : CompatError F)
        → I.try_compat_children t abi level (s, w) ≡ (err e, (s', w'))
        → s' ≡ dummy

  module _ {T F : Type 0} (I : TryCompat T F) where
    try_compat_self-err :
        (o : Option T) (abi : Abi) (level : CompatLevel) (s s' : CompatState) (w w' : World)
        (e : CompatError F)
        → try_compat_self I o abi level (s, w) ≡ (err e, (s', w'))
        → s' ≡ dummy
    unfolding try_compat_self
    try_compat_self-err none abi level s s' w w' e h = cc
    try_compat_self-err (some t) abi level s s' w w' e h =
        ground (arith, settle-err (I.try_compat_inner t abi w).0 level s s' e)

    proceed_err :
        (m : Result (Option T) (CompatError F) × (CompatState × World)) (abi : Abi)
        (level : CompatLevel) (s' : CompatState) (w' : World) (e : CompatError F)
        → (m ≡ (err e, (s', w')) → s' ≡ dummy)
        → proceed m (λ o. try_compat_self I o abi level) ≡ (err e, (s', w'))
        → s' ≡ dummy
    proceed_err (ok o, (s, w)) abi level s' w' e k h = try_compat_self-err o abi level s s' w w' e h
    proceed_err (err x, (s, w)) abi level s' w' e k h = k (ground arith)

    -- Whatever is checked, an error leaves the state at `Dummy`, if that holds for its children.
    pub try_compat-err :
        IsFinal I
        → (t : T) (abi : Abi) (parent : CompatLevel) (s s' : CompatState) (w w' : World)
        → (e : CompatError F) → try_compat I t abi parent (s, w) ≡ (err e, (s', w'))
        → s' ≡ dummy
    unfolding try_compat
    try_compat-err f t abi parent s s' w w' e h =
        let level = I.tailored t parent in
        proceed_err (I.try_compat_children t abi level (s, w)) abi level s' w' e
          (f.children t abi level s s' w w' e) h
