-- ===== src/Scenarios/Verdict.antt =====
-- When `check_ruleset_support` of src/lib.rs accepts what a closure returns, on a kernel as
-- documented.
use rust_landlock.Prelude.{
  Bool, true, false, not, Option, none, some, ◌&&◌, ◌||◌, ◌≡◌, ◌⊎◌, ◌≢◌, inl, inr, refl, sym, subst,
  arith, if◌then◌else◌,
}
use rust_landlock.Prelude.Exec.{ok, err, Succeeds, Succeeds-proceed}
use rust_landlock.Prelude.Int.{ℤ, pos, negsuc, leb_ℤ, ◌≤ℤ◌}
use rust_landlock.Uapi.{Sys, os, landlock_create_ruleset}
use rust_landlock.Uapi.Words.{as_c_int_in_range}
use rust_landlock.BitFlags.{BitFlags}
use rust_landlock.Errors.{HandleAccessesError, create_ruleset, create_ruleset_call, handle_accesses}
use rust_landlock.Compat.Abi.{Abi, unsupported, v1, v2, v3}
use rust_landlock.Ruleset.Types.{RulesetStatus}
use rust_landlock.Kernel.{View, IsDocumented, refusal}
use rust_landlock.Scenarios.{
  ltb_abi, can_emulate, panic, eqb_ℤ, eqb_status, unwrap_or, get_errno_from_landlock_status,
  ruleset_error, Ret, expected_status, judge,
}

-- What a closure may return.
pub data Outcome : Type 0 where
  restricted : RulesetStatus → Outcome
  refused rejected : Outcome

-- That the loop accepts it.
abbrev pub accepts : Outcome → (test abi partial : Abi) → Option Abi → Bool → Bool
accepts (restricted s) test abi partial full error_if =
    can_emulate test abi partial full
    && (not (ltb_abi abi partial && error_if) && eqb_status s (expected_status abi partial full))
accepts refused test abi partial full error_if = not (can_emulate test abi partial full)
accepts rejected test abi partial full error_if =
    can_emulate test abi partial full && (ltb_abi abi partial && error_if)

and_split : (a b : Bool) → a && b ≡ true → (a ≡ true) × (b ≡ true)
and_split a b h = ground arith

not-true : (b : Bool) → not b ≡ true → b ≡ false
not-true b h = ground arith

negative : (n : ℤ) → n ≡ negsuc 0 → ¬ (pos 0 ≤ℤ n)
negative n e = rw e (λ h. omega arith)

or_true : (a b : Bool) → (a ≡ true) ⊎ (b ≡ true) → a || b ≡ true
or_true a b h = ground arith

nonneg : (n : ℤ) → pos 0 ≤ℤ n → not (leb_ℤ (pos 0) n) ≡ false
nonneg n h = ground arith

eqb_ℤ-refl : (n : ℤ) → eqb_ℤ n n ≡ true
eqb_ℤ-refl n = ground arith

is_status : (n a b : ℤ) → (n ≡ a) ⊎ (n ≡ b) → eqb_ℤ n a || eqb_ℤ n b ≡ true
is_status n a b h = elim h [
  | inl e ↦ or_true (eqb_ℤ n a) (eqb_ℤ n b) (inl (rw e (eqb_ℤ-refl a)))
  | inr e ↦ or_true (eqb_ℤ n a) (eqb_ℤ n b) (inr (rw e (eqb_ℤ-refl b)))
]

module _ ⦃S : Sys⦄ ⦃E : BitFlags⦄ where
  open S use {World, errno, enosys, eopnotsupp, einval}
  open E use {Flags}

  module _ (V : View) where
    abbrev pub HasOutcome : Outcome → Ret → Type 0
    HasOutcome (restricted s) ret = ret ≡ ok (record { status = s; no_new_privs = true })
    HasOutcome refused ret =
        ret ≡ err (ruleset_error (create_ruleset (create_ruleset_call (os (refusal V V.abi)))))
    HasOutcome rejected ret =
        (e : HandleAccessesError Flags) × (ret ≡ err (ruleset_error (handle_accesses e)))

    module _ (D : IsDocumented V) where
      reply_told :
          (abi : Abi) (n : ℤ) (w' : World)
          → (V.status_errno ≡ enosys) ⊎ (V.status_errno ≡ eopnotsupp)
          → (¬ (pos 0 ≤ℤ n) → errno w' ≡ V.status_errno)
          → (abi ≡ unsupported → n ≡ negsuc 0)
          → (abi ≢ unsupported → pos 0 ≤ℤ n)
          → V.Ready w'
          → Succeeds
              (λ status w''. (unwrap_or status einval ≡ refusal V abi) × V.Ready w'')
              (if not (leb_ℤ (pos 0) n)
                then if eqb_ℤ (errno w') enosys || eqb_ℤ (errno w') eopnotsupp
                  then (ok (some (errno w')), w')
                  else (err panic, w')
                else (ok none, w'))
      reply_told unsupported n w' known status none_yet some_abi ready =
          let told = status (negative n (none_yet refl)) in
          rw (none_yet refl) (
            rw
              (is_status (errno w') enosys eopnotsupp
                (subst (λ (x : ℤ). (x ≡ enosys) ⊎ (x ≡ eopnotsupp)) (sym told) known))
              (told, ready))
      reply_told v1 n w' known status none_yet some_abi ready =
          rw (nonneg n (some_abi (λ e. cc))) (refl, ready)
      reply_told v2 n w' known status none_yet some_abi ready =
          rw (nonneg n (some_abi (λ e. cc))) (refl, ready)
      reply_told v3 n w' known status none_yet some_abi ready =
          rw (nonneg n (some_abi (λ e. cc))) (refl, ready)

      Told : Option ℤ → World → Type 0
      Told status w' = (unwrap_or status einval ≡ refusal V V.abi) × V.Ready w'

      -- errno as the helper of the tests reports it
      get_errno-Told : (w : World) → V.Ready w → Succeeds Told (get_errno_from_landlock_status w)
      unfolding get_errno_from_landlock_status landlock_create_ruleset Told
      get_errno-Told w ready =
          let (small, told, status, none_yet, some_abi, kept) = D.version w ready in
          rw (as_c_int_in_range _ small)
            (reply_told V.abi _ _ D.status_lem status none_yet some_abi kept.ready)

      -- A result that has an outcome which the loop accepts passes its assertions.
      pub judge_accepts :
          (o : Outcome) (abi partial : Abi) (full : Option Abi) (error_if : Bool) (ret : Ret)
          (w : World)
          → V.Ready w
          → HasOutcome o ret
          → accepts o V.abi abi partial full error_if ≡ true
          → Succeeds (λ u w'. V.Ready w') (judge V.abi abi partial full error_if ret w)
      unfolding judge Told
      judge_accepts (restricted s) abi partial full error_if ret w ready e h =
          let early = ltb_abi abi partial && error_if in
          let same_status = eqb_status s (expected_status abi partial full) in
          let (can, rest) =
            and_split (can_emulate V.abi abi partial full) (not early && same_status) h in
          let (fine, same) = and_split (not early) same_status rest in
          rw (can, not-true early fine, e, same) ready
      judge_accepts refused abi partial full error_if ret w ready e h =
          rw (not-true (can_emulate V.abi abi partial full) h) (
            Succeeds-proceed Told (λ u w'. V.Ready w') (get_errno_from_landlock_status w) _
              (get_errno-Told w ready)
              (λ status w' (told, ready'). rw (e, told, eqb_ℤ-refl (refusal V V.abi)) ready'))
      judge_accepts rejected abi partial full error_if ret w ready (e, x) h =
          let (can, fine) =
            and_split (can_emulate V.abi abi partial full) (ltb_abi abi partial && error_if) h in
          rw (can, fine, x) ready
