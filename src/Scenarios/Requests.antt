-- ===== src/Scenarios/Requests.antt =====
-- The requests of the closures of src/lib.rs, and when all ABIs of a test pass.
use rust_landlock.Prelude.{ℕ, Bool, true, ◌&&◌, Option, List, [], ◌∷◌, ◌≡◌, refl, sym, subst, arith}
use rust_landlock.Prelude.Exec.{Result, ok, err, Exec, Succeeds, Succeeds-proceed, proceed}
use rust_landlock.Uapi.{Sys}
use rust_landlock.BitFlags.{BitFlags, ◌∪◌}
use rust_landlock.Compat.Abi.{Abi, unsupported, v1, v2, v3}
use rust_landlock.Compat.Level.{CompatLevel}
use rust_landlock.Ruleset.Handle.Exact.{IsMet}
use rust_landlock.Compat.State.{of_abi}
use rust_landlock.Ruleset.Types.{Ruleset, RulesetCreated, RestrictionStatus, of_compat}
use rust_landlock.Ruleset.Create.{create}
use rust_landlock.Ruleset.Session.Paths.{handle_access_owned}
use rust_landlock.Ruleset.Session.Live.Built.{Built, handle_access-Built}
use rust_landlock.Kernel.{View, IsDocumented}
use rust_landlock.Scenarios.{
  Threads, TestRulesetError, abi_iter, leb_abi, unwrap_or, Panic, check_abis, check_ruleset_support,
}
use rust_landlock.Scenarios.Closures.{lift, Closure}
use rust_landlock.Scenarios.Verdict.{Outcome, accepts, HasOutcome, judge_accepts}
use rust_landlock.Scenarios.Outcomes.{Succeeds-lift}
use rust_landlock.Scenarios.Rights.{IsKnown, IsKnown-valid}

-- The outcomes that are accepted, of every emulated ABI on every kernel.
abbrev every : List Abi → (Abi → Bool) → Bool
every [] p = true
every (a ∷ l) p = p a && every l p

abbrev pub covers : (Abi → Abi → Outcome) → Abi → Option Abi → Bool → Bool
covers o partial full error_if =
    every abi_iter
      (λ mock. every abi_iter (λ kernel. accepts (o mock kernel) kernel mock partial full error_if))

every_abi : (p : Abi → Bool) → every abi_iter p ≡ true → (a : Abi) → p a ≡ true
every_abi p h unsupported = ground arith
every_abi p h v1 = ground arith
every_abi p h v2 = ground arith
every_abi p h v3 = ground arith

module _ ⦃S : Sys⦄ ⦃E : BitFlags⦄ where
  open S use {World}
  open E use {Flags, empty, bits}

  HasOutcome-proceed :
      (V : View) {A : Type 0} (P : A → World → Type 0) (o : Outcome)
      (m : Result A TestRulesetError × World)
      (f : A → Exec World TestRulesetError RestrictionStatus)
      → Succeeds P m
      → ((a : A) (w : World) → P a w → HasOutcome V o (f a w).0)
      → HasOutcome V o (proceed m f).0
  HasOutcome-proceed V P o (ok a, w) f h k = k a w h
  HasOutcome-proceed V P o (err e, w) f h k = absurd h

  -- A builder as the tests start it.
  abbrev pub start : Abi → Ruleset
  start mock = of_compat (of_abi mock)

  -- `create` and what follows it.
  abbrev pub created_then :
      (RulesetCreated → Exec World TestRulesetError RestrictionStatus)
      → Ruleset
      → Exec World TestRulesetError RestrictionStatus
  created_then rest r w = proceed (lift (create r w)) rest

  module _ (V : View) (D : IsDocumented V) where
    -- The outcome that a test has for each ABI.
    abbrev pub Has : (Abi → Abi → Outcome) → Closure → Type 0
    Has o check =
        (mock : Abi) (w : World) → V.Ready w → HasOutcome V (o mock V.abi) (check (start mock) w).0

    pub after_handle :
        (mock : Abi) (level : CompatLevel) (asked a : Flags) (n : ℕ) (o : Outcome) (r : Ruleset)
        (w : World) (rest : Ruleset → Exec World TestRulesetError RestrictionStatus)
        → IsKnown a n
        → IsMet level a mock
        → Built V mock level asked r w
        → ((r' : Ruleset) (w' : World)
            → Built V mock level (asked ∪ a) r' w'
            → HasOutcome V o (rest r' w').0)
        → HasOutcome V o (proceed (lift (handle_access_owned a r w)) rest).0
    after_handle mock level asked a n o r w rest known met b k =
        HasOutcome-proceed V (Built V mock level (asked ∪ a)) o (lift (handle_access_owned a r w))
          rest
          (Succeeds-lift V D (Built V mock level (asked ∪ a)) (handle_access_owned a r w)
            (handle_access-Built V mock level asked a r w (IsKnown-valid a n known) met b))
          k

    module _ ⦃T : Threads⦄ where
      open T use {spawn_join}

      -- A thread returns what its closure returns, and does not use up the system.
      pub record IsJoined : Type 1 where
        pub returns :
            {A : Type 0} (f : World → A × World) (w : World) → (spawn_join f w).0 ≡ (f w).0
        pub ready :
            {A : Type 0} (f : World → A × World) (w : World)
            → V.Ready w
            → V.Ready (spawn_join f w).1

      Ready-after : Unit {0} → World → Type 0
      Ready-after u w = V.Ready w

      no_panic : (m : Result (Unit {0}) Panic × World) → Succeeds Ready-after m → m.0 ≡ ok tt
      no_panic (ok u, w) h = refl
      no_panic (err e, w) h = absurd h

      abis_pass :
          (o : Abi → Abi → Outcome) (check : Closure) (partial : Abi) (full : Option Abi)
          (error_if : Bool) (abis : List Abi) (w : World)
          → IsJoined
          → Has o check
          → ((mock : Abi) → accepts (o mock V.abi) V.abi mock partial full error_if ≡ true)
          → V.Ready w
          → Succeeds Ready-after (check_abis V.abi partial full check error_if abis w)
      unfolding check_abis Ready-after
      abis_pass o check partial full error_if [] w J has table ready = ready
      abis_pass o check partial full error_if (mock ∷ abis) w J has table ready =
          Succeeds-proceed Ready-after Ready-after _ _
            (judge_accepts V D (o mock V.abi) mock partial full error_if _ _
              (J.ready (check (start mock)) w ready)
              (subst (HasOutcome V (o mock V.abi)) (sym (J.returns (check (start mock)) w))
                (has mock w ready))
              (table mock))
            (λ u w' ready'. abis_pass o check partial full error_if abis w' J has table ready')

      -- A test whose closure has outcomes that are accepted passes.
      pub check_passes :
          (o : Abi → Abi → Outcome) (check : Closure) (partial : Abi) (full : Option Abi)
          (error_if : Bool) (w : World)
          → IsJoined
          → Has o check
          → covers o partial full error_if ≡ true
          → leb_abi partial (unwrap_or full partial) ≡ true
          → V.Ready w
          → (check_ruleset_support V.abi partial full check error_if w).0 ≡ ok tt
      unfolding check_ruleset_support
      check_passes o check partial full error_if w J has table order ready = rw order (
          no_panic _ (
            abis_pass o check partial full error_if abi_iter w J has
              (λ mock.
                every_abi (agree mock) (every_abi (λ m. every abi_iter (agree m)) table mock) V.abi)
              ready))
        where
          agree : Abi → Abi → Bool
          agree mock kernel = accepts (o mock kernel) kernel mock partial full error_if
