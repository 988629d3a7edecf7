-- ===== src/Ruleset/Create/Outcome.antt =====
-- What `create` does with a valid builder.
use rust_landlock.Prelude.{
  true, false, Option, none, some, ◌≡◌, ◌≢◌, ◌⊎◌, inl, inr, refl, arith, Bool-cases, if◌then◌else◌,
}
use rust_landlock.Prelude.Exec.{Result, ok, err}
use rust_landlock.Prelude.Int.{ℤ, pos, negsuc, ◌≤ℤ◌, leb_ℤ}
use rust_landlock.Uapi.{Sys, LandlockRulesetAttr, landlock_create_ruleset, last_os_error}
use rust_landlock.BitFlags.{BitFlags}
use rust_landlock.BitFlags.Digits.{is_empty_iff}
use rust_landlock.Errors.{RulesetError, create_ruleset, create_ruleset_call, missing_handled_access}
use rust_landlock.Compat.Abi.{Abi}
use rust_landlock.Compat.Level.{CompatLevel, best_effort, soft_requirement, hard_requirement, into}
use rust_landlock.Compat.State.{CompatState, init, full, partial, no_support, dummy}
use rust_landlock.Ruleset.Types.{Ruleset, RulesetCreated, is_enforced, set_state, created}
use rust_landlock.Ruleset.Handle.Invariant.{IsValid, StateFits}
use rust_landlock.Ruleset.Create.{create, handles_one, attr_of}

module _ ⦃E : BitFlags⦄ ⦃S : Sys⦄ where
  open E use {Flags, bits, empty, is_empty}
  open S use {World}

  -- What the kernel is asked for, to handle some rights of the file system and none of the network.
  abbrev pub request_for : Flags → LandlockRulesetAttr
  request_for h = record { handled_access_fs = bits h; handled_access_net = 0 }

  -- The outcomes of `create`, each with the case that it is for.
  pub data Created (r : Ruleset) (w : World)
      : Result RulesetCreated (RulesetError Flags) × World → Type 0 where
    -- nothing was asked for, or nothing is handled and the level is a hard requirement
    missing :
        (r.requested_handled_fs ≡ empty)
          ⊎ ((r.actual_handled_fs ≡ empty) × (into r.compat.level ≡ hard_requirement))
        → Created r w (err (create_ruleset missing_handled_access), w)
    -- a ruleset that will restrict nothing: no system call is made
    inert :
        (s : CompatState)
        → r.requested_handled_fs ≢ empty
        → is_enforced r.compat.state ≡ false
        → ((s ≡ no_support) × (r.compat.state ≡ no_support)) ⊎ (s ≡ dummy)
        → Created r w (ok (created (record r { compat = set_state s r.compat }) (negsuc 0)), w)
    -- the kernel made the ruleset for the handled rights, of which there is one
    made :
        (fd : ℤ) (w' : World)
        → r.actual_handled_fs ≢ empty
        → is_enforced r.compat.state ≡ true
        → landlock_create_ruleset (some (request_for r.actual_handled_fs)) 16 0 w ≡ (fd, w')
        → pos 0 ≤ℤ fd
        → Created r w (ok (created r fd), w')
    -- the kernel refused it
    failed :
        (fd : ℤ) (w' : World)
        → r.actual_handled_fs ≢ empty
        → is_enforced r.compat.state ≡ true
        → landlock_create_ruleset (some (request_for r.actual_handled_fs)) 16 0 w ≡ (fd, w')
        → ¬ (pos 0 ≤ℤ fd)
        → Created r w (err (create_ruleset (create_ruleset_call (last_os_error w'))), w')

  pub is_empty_false : (a : Flags) → a ≢ empty → is_empty a ≡ false
  is_empty_false a h = elim (Bool-cases (is_empty a)) [
    | inl e ↦ absurd (h ((is_empty_iff a).0 e))
    | inr e ↦ e
  ]

  -- The kernel's reply as the result of `create`.
  finish : Ruleset → ℤ × World → Result RulesetCreated (RulesetError Flags) × World
  finish r (fd, w') =
      if leb_ℤ (pos 0) fd
      then (ok (created r fd), w')
      else (err (create_ruleset (create_ruleset_call (last_os_error w'))), w')

  finish-Created :
      (r : Ruleset) (w : World) (reply : ℤ × World)
      → r.actual_handled_fs ≢ empty
      → is_enforced r.compat.state ≡ true
      → landlock_create_ruleset (some (request_for r.actual_handled_fs)) 16 0 w ≡ reply
      → Created r w (finish r reply)
  unfolding finish
  finish-Created r w (fd, w') ne e h = elim (Bool-cases (leb_ℤ (pos 0) fd)) [
    | inl p ↦ rw p (made fd w' ne e h (ground arith))
    | inr p ↦ rw p (failed fd w' ne e h (λ k. ground arith))
  ]

  abbrev builder : Flags → Flags → Abi → Option CompatLevel → CompatState → Ruleset
  builder req act abi level s = record {
    requested_handled_fs = req;
    actual_handled_fs = act;
    compat = record { abi = abi; level = level; state = s };
  }

  create_enforced :
      (req act : Flags) (abi : Abi) (level : Option CompatLevel) (s : CompatState) (w : World)
      → req ≢ empty
      → act ≢ empty
      → is_enforced s ≡ true
      → let r = builder req act abi level s in
        create r w
        ≡ finish r (landlock_create_ruleset (some (request_for r.actual_handled_fs)) 16 0 w)
  unfolding create finish attr_of
  create_enforced req act abi level s w h k e =
      ground (arith, is_empty_false req h, is_empty_false act k)

  handles_none :
      (req act : Flags) (abi : Abi) (level : Option CompatLevel) (s : CompatState) (w : World)
      → req ≢ empty
      → act ≡ empty
      → (s ≡ no_support) ⊎ (s ≡ dummy)
      → Created (builder req act abi level s) w (create (builder req act abi level s) w)
  unfolding create into
  handles_none req act abi none no_support w h k e =
      rw (is_empty_false req h, (is_empty_iff act).1 k) (inert no_support h refl (inl (refl, refl)))
  handles_none req act abi (some best_effort) no_support w h k e =
      rw (is_empty_false req h, (is_empty_iff act).1 k) (inert no_support h refl (inl (refl, refl)))
  handles_none req act abi (some soft_requirement) no_support w h k e =
      rw (is_empty_false req h, (is_empty_iff act).1 k) (inert dummy h refl (inr refl))
  handles_none req act abi (some hard_requirement) no_support w h k e =
      rw (is_empty_false req h, (is_empty_iff act).1 k) (missing (inr (k, refl)))
  handles_none req act abi none dummy w h k e =
      rw (is_empty_false req h, (is_empty_iff act).1 k) (inert dummy h refl (inr refl))
  handles_none req act abi (some best_effort) dummy w h k e =
      rw (is_empty_false req h, (is_empty_iff act).1 k) (inert dummy h refl (inr refl))
  handles_none req act abi (some soft_requirement) dummy w h k e =
      rw (is_empty_false req h, (is_empty_iff act).1 k) (inert dummy h refl (inr refl))
  handles_none req act abi (some hard_requirement) dummy w h k e =
      rw (is_empty_false req h, (is_empty_iff act).1 k) (missing (inr (k, refl)))
  handles_none req act abi level init w h k (inl e) = cc
  handles_none req act abi level init w h k (inr e) = cc
  handles_none req act abi level full w h k (inl e) = cc
  handles_none req act abi level full w h k (inr e) = cc
  handles_none req act abi level partial w h k (inl e) = cc
  handles_none req act abi level partial w h k (inr e) = cc

  handles_some_dummy :
      (req act : Flags) (abi : Abi) (level : Option CompatLevel) (w : World)
      → req ≢ empty
      → act ≢ empty
      → Created (builder req act abi level dummy) w (create (builder req act abi level dummy) w)
  unfolding create
  handles_some_dummy req act abi level w h k =
      rw (is_empty_false req h, is_empty_false act k, handles_one) (inert dummy h refl (inr refl))

  create_by_state :
      (req act : Flags) (abi : Abi) (level : Option CompatLevel) (s : CompatState) (w : World)
      → req ≢ empty
      → StateFits s req act
      → Created (builder req act abi level s) w (create (builder req act abi level s) w)
  create_by_state req act abi level init w h f = absurd (h f.0)
  create_by_state req act abi level full w h f =
      rw (create_enforced req act abi level full w h f.1 refl)
        (finish-Created (builder req act abi level full) w _ f.1 refl refl)
  create_by_state req act abi level partial w h f =
      rw (create_enforced req act abi level partial w h f refl)
        (finish-Created (builder req act abi level partial) w _ f refl refl)
  create_by_state req act abi level no_support w h f =
      handles_none req act abi level no_support w h f (inl refl)
  create_by_state req act abi level dummy w h f = elim (Bool-cases (is_empty act)) [
    | inl e ↦ handles_none req act abi level dummy w h ((is_empty_iff act).0 e) (inr refl)
    | inr e ↦ handles_some_dummy req act abi level w h (λ k. cc ((is_empty_iff act).1 k))
  ]

  nothing_asked :
      (r : Ruleset) (w : World) → r.requested_handled_fs ≡ empty → Created r w (create r w)
  unfolding create
  nothing_asked r w e = rw ((is_empty_iff r.requested_handled_fs).1 e) (missing (inl e))

  -- For each valid builder and state of the system, create does one of these. It is the error
  -- MissingHandledAccess, with no system call, and then nothing was asked for, or nothing is handled
  -- and the level is the hard requirement. Or something was asked for, the state is neither Full nor
  -- Partial, and the result has descriptor -1 and state No, as before, or Dummy, with no system call. Or some
  -- right is handled, the state is Full or Partial, and the kernel is asked once for a ruleset that
  -- handles the word of the handled rights, and nothing of the network: a reply of at least 0 is the descriptor of the result, any other gives the
  -- error CreateRulesetCall with errno.
  pub create-Created : (r : Ruleset) (w : World) → IsValid r → Created r w (create r w)
  create-Created r w v = elim (Bool-cases (is_empty r.requested_handled_fs)) [
    | inl e ↦ nothing_asked r w ((is_empty_iff r.requested_handled_fs).0 e)
    | inr e ↦
        create_by_state r.requested_handled_fs r.actual_handled_fs r.compat.abi r.compat.level
          r.compat.state w (λ k. cc ((is_empty_iff r.requested_handled_fs).1 k)) v.fits
  ]
