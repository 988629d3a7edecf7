-- ===== src/Access/Reported.antt =====
-- What `try_compat` reports for a set of access rights at a level, and how it moves the state.
use rust_landlock.Prelude.{Option, none, some, ◌≡◌, ◌≢◌, ◌⊎◌, inl, inr, refl}
use rust_landlock.Prelude.Exec.{Result, ok, err}
use rust_landlock.Uapi.{Sys}
use rust_landlock.BitFlags.{BitFlags, ◌∩◌}
use rust_landlock.BitFlags.Digits.{◌⊆◌, intersection_of_subset}
use rust_landlock.Errors.{CompatError}
use rust_landlock.Compat.Abi.{Abi}
use rust_landlock.Compat.Level.{CompatLevel, best_effort, soft_requirement, hard_requirement}
use rust_landlock.Compat.State.{CompatState, full, partial, no_support, dummy, update}
use rust_landlock.Compat.TryCompat.{CompatResult, settle, try_compat}
use rust_landlock.Fs.Rights.{from_all}
use rust_landlock.Access.{access_compat}
use rust_landlock.Access.Verdict.{
  Verdict, empty_request, unknown_right, none_granted, some_granted, all_granted,
  check_access-Verdict,
}

module _ ⦃E : BitFlags⦄ where
  open E use {Flags, all, empty}

  -- A request that no kernel can meet: no right at all, or an undeclared one.
  abbrev pub IsInvalid : Flags → Type 0
  IsInvalid a = (a ≡ empty) ⊎ (¬ (a ⊆ all))

  -- A request that the ABI cannot meet in full.
  abbrev pub IsBeyondAbi : Flags → Abi → Type 0
  IsBeyondAbi a abi = ¬ (a ⊆ from_all abi)

  -- The reports on a request for `a` at a level, in state `s`: the result, and the new state.
  pub data Reported (a : Flags) (abi : Abi) (level : CompatLevel) (s : CompatState)
      : Result (Option Flags) (CompatError Flags) → CompatState → Type 0 where
    -- all of it is granted
    granted :
        a ≢ empty
        → a ⊆ all
        → a ⊆ from_all abi
        → Reported a abi level s (ok (some a)) (update s full)
    -- best effort: the part that the ABI has is granted
    reduced :
        (g : Flags)
        → level ≡ best_effort
        → a ⊆ all
        → g ≡ a ∩ from_all abi
        → g ≢ empty
        → g ≢ a
        → Reported a abi level s (ok (some g)) (update s partial)
    -- best effort: the ABI has nothing of it
    skipped :
        level ≡ best_effort
        → a ≢ empty
        → a ⊆ all
        → a ∩ from_all abi ≡ empty
        → Reported a abi level s (ok none) (update s no_support)
    -- soft requirement: the whole build is given up
    given_up :
        level ≡ soft_requirement
        → a ⊆ all
        → IsBeyondAbi a abi
        → Reported a abi level s (ok none) (update s dummy)
    -- hard requirement: an error
    refused :
        (e : CompatError Flags)
        → level ≡ hard_requirement
        → a ⊆ all
        → IsBeyondAbi a abi
        → Reported a abi level s (err e) (update s dummy)
    -- an error at every level
    rejected :
        (e : CompatError Flags) → IsInvalid a → Reported a abi level s (err e) (update s dummy)

  beyond_of_empty :
      (a : Flags) (abi : Abi) → a ≢ empty → a ∩ from_all abi ≡ empty → IsBeyondAbi a abi
  beyond_of_empty a abi ne e h = ne (cc (intersection_of_subset a (from_all abi) h))

  settle-Reported :
      (a : Flags) (abi : Abi) (level : CompatLevel) (s : CompatState)
      → {v : Result (CompatResult Flags Flags) (CompatError Flags)} → Verdict a abi v
      → Reported a abi level s (settle v level s).0 (settle v level s).1
  unfolding settle
  settle-Reported a abi level s (empty_request e) = rejected _ (inl e)
  settle-Reported a abi level s (unknown_right rest ne u h) = rejected _ (inr u)
  settle-Reported a abi best_effort s (none_granted ne k e) = skipped refl ne k e
  settle-Reported a abi soft_requirement s (none_granted ne k e) =
      given_up refl k (beyond_of_empty a abi ne e)
  settle-Reported a abi hard_requirement s (none_granted ne k e) =
      refused _ refl k (beyond_of_empty a abi ne e)
  settle-Reported a abi best_effort s (some_granted g rest ne k e gn ga h) =
      reduced g refl k e gn ga
  settle-Reported a abi soft_requirement s (some_granted g rest ne k e gn ga h) =
      given_up refl k (λ b. ga (cc (e, intersection_of_subset a (from_all abi) b)))
  settle-Reported a abi hard_requirement s (some_granted g rest ne k e gn ga h) =
      refused _ refl k (λ b. ga (cc (e, intersection_of_subset a (from_all abi) b)))
  settle-Reported a abi level s (all_granted ne k b) = granted ne k b

  module _ ⦃S : Sys⦄ where
    open S use {World}

    -- For each set of rights, ABI, level, state and system, try_compat leaves the system as it is and
    -- reports one of these, with the state updated by the name given. A non-empty set of declared
    -- rights of the ABI is granted (Full). Under best effort the part in the ABI is granted, if it is
    -- neither empty nor all (Partial), or nothing, if it is empty (No). With a declared right beyond
    -- the ABI, the soft requirement gives nothing (Dummy) and the hard one an error (Dummy). For the
    -- empty set or an undeclared right it is an error (Dummy) at every level.
    pub try_compat-Reported :
        (a : Flags) (abi : Abi) (level : CompatLevel) (s : CompatState) (w : World)
        → let (out, (s', w')) = try_compat access_compat a abi level (s, w) in
          Reported a abi level s out s' × (w' ≡ w)
    unfolding try_compat
    try_compat-Reported a abi level s w =
        (settle-Reported a abi level s (check_access-Verdict a abi), refl)
