-- ===== src/Scenarios.antt =====
-- The module `tests` of src/lib.rs: what the crate's own scenarios expect of each ABI that they
-- emulate, with the helpers for that in src/compat.rs. A failed assertion and the other panics are
-- the error of a run. Threads are a parameter.
pub mod Closures
pub mod Verdict
pub mod Outcomes
pub mod Endings
pub mod Rights
pub mod Requests
pub mod Pass
pub mod Special
pub mod All
pub mod Thread
pub mod Setting
pub mod Created
pub mod Promises
pub mod Unsupported
pub mod IgnoreAbi
use rust_landlock.Prelude.{
  ℕ, Bool, true, false, not, Option, none, some, List, [], ◌∷◌, ◌&&◌, ◌||◌, if◌then◌else◌, ◌==◌,
}
use rust_landlock.Prelude.Exec.{Result, ok, err, Exec, pure, ◌>>=◌}
use rust_landlock.Prelude.Int.{ℤ, pos, leb_ℤ}
use rust_landlock.Uapi.{
  Sys, IoError, os, simple, landlock_create_ruleset, landlock_create_ruleset_version,
}
use rust_landlock.BitFlags.{BitFlags}
use rust_landlock.Errors.{RulesetError, create_ruleset, create_ruleset_call, PathFdError}
use rust_landlock.Compat.Abi.{Abi, unsupported, v1, v2, v3, to_int, from}
use rust_landlock.Compat.State.{of_abi}
use rust_landlock.Ruleset.Types.{
  Ruleset, RestrictionStatus, RulesetStatus, fully_enforced, partially_enforced, not_enforced,
  of_compat,
}

-- The order that `ABI` derives.
abbrev pub leb_abi : Abi → Abi → Bool
leb_abi a b = leb_ℤ (to_int a) (to_int b)

abbrev pub ltb_abi : Abi → Abi → Bool
ltb_abi a b = not (leb_abi b a)

-- `ABI::iter`
abbrev pub abi_iter : List Abi
abi_iter = unsupported ∷ v1 ∷ v2 ∷ v3 ∷ []

-- `ABI::is_known`; 4 is `ABI::COUNT`.
unfoldable pub is_known : ℤ → Bool
is_known value = not (leb_ℤ value (pos 0)) && not (leb_ℤ (pos 4) value)

-- `std::env::VarError`
pub data VarError : Type 0 where
  not_present not_unicode : VarError

abbrev pub eqb_ℤ : ℤ → ℤ → Bool
eqb_ℤ a b = leb_ℤ a b && leb_ℤ b a

abbrev pub numbered : Option ℤ → Option Abi
numbered none = none
numbered (some n) = if is_known n || eqb_ℤ n (pos 0) then some (from n) else none

-- `TEST_ABI`, from what `std::env::var` returns and `str::parse`; `none` is a panic.
unfoldable pub test_abi : (List ℕ → Option ℤ) → Result (List ℕ) VarError → Option Abi
unfolding is_known from
test_abi parse (ok s) = numbered (parse s)
test_abi parse (err not_present) = some v3
test_abi parse (err not_unicode) = none

-- The third operand of `can_emulate`.
abbrev supported_by : Abi → Abi → Option Abi → Bool
supported_by test partial_support none = leb_abi partial_support test
supported_by test partial_support (some full) = leb_abi full test

-- `can_emulate`, for a value of `TEST_ABI`
unfoldable pub can_emulate : (test mock partial_support : Abi) → Option Abi → Bool
can_emulate test mock partial_support full_support =
    ltb_abi mock partial_support
    || (leb_abi mock test || supported_by test partial_support full_support)

abbrev reaches : Option Abi → Abi → Bool
reaches (some full_inner) abi = leb_abi full_inner abi
reaches none abi = false

-- The value of `ruleset_status`.
unfoldable pub expected_status : Abi → Abi → Option Abi → RulesetStatus
expected_status abi partial full =
    if reaches full abi
    then fully_enforced
    else if leb_abi partial abi
    then partially_enforced
    else not_enforced

-- How a test fails.
pub data Panic : Type 0 where
  panic : Panic

abbrev pub unwrap_or : {A : Type 0} → Option A → A → A
unwrap_or none d = d
unwrap_or (some a) d = a

abbrev rank : RulesetStatus → ℕ
rank fully_enforced = 0
rank partially_enforced = 1
rank not_enforced = 2

-- `==` of `RulesetStatus`
abbrev pub eqb_status : RulesetStatus → RulesetStatus → Bool
eqb_status a b = rank a == rank b

-- `source.raw_os_error() == Some(n)`
abbrev pub is_os_error : IoError → ℤ → Bool
is_os_error (os m) n = eqb_ℤ m n
is_os_error (simple k) n = false

module _ ⦃S : Sys⦄ where
  open S use {World, errno, enosys, eopnotsupp, einval}

  -- `assert!`
  abbrev pub assert : Bool → Exec World Panic (Unit {0})
  assert b w = if b then (ok tt, w) else (err panic, w)

  -- `get_errno_from_landlock_status`
  unfoldable pub get_errno_from_landlock_status : Exec World Panic (Option ℤ)
  get_errno_from_landlock_status w =
      let (n, w') = landlock_create_ruleset none 0 landlock_create_ruleset_version w in
      if not (leb_ℤ (pos 0) n)
      then if eqb_ℤ (errno w') enosys || eqb_ℤ (errno w') eopnotsupp
        then (ok (some (errno w')), w')
        else (err panic, w')
      else (ok none, w')

  -- `std::thread::spawn(f).join().unwrap()`, where `f` returns.
  pub record Threads : Type 1 where
    pub spawn_join : {A : Type 0} → (World → A × World) → World → A × World

  module _ ⦃E : BitFlags⦄ where
    open E use {Flags}

    pub data TestRulesetError : Type 0 where
      -- the variant `Ruleset`
      ruleset_error : RulesetError Flags → TestRulesetError
      path_fd : PathFdError → TestRulesetError
      file : IoError → TestRulesetError

    abbrev pub Ret : Type 0
    Ret = Result RestrictionStatus TestRulesetError

    -- `matches!(ret, Err(TestRulesetError::Ruleset(_)))`
    abbrev pub is_ruleset_error : Ret → Bool
    is_ruleset_error (err (ruleset_error _)) = true
    is_ruleset_error _ = false

    -- `matches!(ret, Ok(RestrictionStatus { ruleset, no_new_privs: true }) if ruleset == status)`
    abbrev pub has_status : RulesetStatus → Ret → Bool
    has_status status (ok st) = st.no_new_privs && eqb_status st.status status
    has_status status (err e) = false

    -- `matches!` of `CreateRulesetCall { source } if source.raw_os_error() == Some(errno)`
    abbrev pub is_create_error : ℤ → Ret → Bool
    is_create_error n (err (ruleset_error (create_ruleset (create_ruleset_call source)))) =
        is_os_error source n
    is_create_error n _ = false

    -- What the loop asserts of the result of one ABI.
    unfoldable pub judge :
        (test abi partial : Abi) → Option Abi → Bool → Ret → Exec World Panic (Unit {0})
    judge test abi partial full error_if_abi_lt_partial ret =
        if can_emulate test abi partial full
        then if ltb_abi abi partial && error_if_abi_lt_partial
          then assert (is_ruleset_error ret)
          else assert (has_status (expected_status abi partial full) ret)
        else (do
          status ← get_errno_from_landlock_status
          assert (is_create_error (unwrap_or status einval) ret))

    module _ ⦃T : Threads⦄ where
      open T use {spawn_join}

      -- The loop over `ABI::iter()`.
      unfoldable pub check_abis :
          (test partial : Abi)
          → Option Abi
          → (Ruleset → Exec World TestRulesetError RestrictionStatus)
          → Bool
          → List Abi
          → Exec World Panic (Unit {0})
      unfolding judge
      check_abis test partial full check error_if [] = pure tt
      check_abis test partial full check error_if (abi ∷ abis) = do
        ret ← λ w. (let (r, w') = spawn_join (check (of_compat (of_abi abi))) w in (ok r, w'))
        _ ← judge test abi partial full error_if ret
        check_abis test partial full check error_if abis

      -- `check_ruleset_support`, for a value of `TEST_ABI`
      unfoldable pub check_ruleset_support :
          (test partial : Abi)
          → Option Abi
          → (Ruleset → Exec World TestRulesetError RestrictionStatus)
          → Bool
          → Exec World Panic (Unit {0})
      unfolding check_abis
      check_ruleset_support test partial full check error_if_abi_lt_partial = do
        _ ← assert (leb_abi partial (unwrap_or full partial))
        check_abis test partial full check error_if_abi_lt_partial abi_iter
