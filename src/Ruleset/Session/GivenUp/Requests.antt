-- ===== src/Ruleset/Session/GivenUp/Requests.antt =====
-- A soft requirement that is not met, and what follows it.
use rust_landlock.Prelude.{Option, List, [], ◌∷◌, ◌≡◌, inl, inr, refl, subst, ap, ◌∙◌, arith}
use rust_landlock.Prelude.Exec.{Result, ok, err, map_err, proceed, ◌>>=◌}
use rust_landlock.Prelude.Int.{negsuc}
use rust_landlock.Uapi.{Sys}
use rust_landlock.BitFlags.{BitFlags}
use rust_landlock.BitFlags.Digits.{◌⊆◌}
use rust_landlock.Errors.{RulesetError, CompatError, HandleAccessesError, handle_accesses}
use rust_landlock.Compat.Abi.{Abi}
use rust_landlock.Compat.Level.{CompatLevel, soft_requirement, into}
use rust_landlock.Compat.State.{CompatState, Compatibility, dummy, update}
use rust_landlock.Compat.TryCompat.{try_compat}
use rust_landlock.Access.{access_compat}
use rust_landlock.Access.Reported.{
  Reported, IsInvalid, granted, reduced, skipped, given_up, refused, rejected, try_compat-Reported,
}
use rust_landlock.Fs.Rights.{from_all}
use rust_landlock.Ruleset.Types.{Ruleset, RulesetCreated, set_compatibility, created, set_state}
use rust_landlock.Ruleset.Handle.{handle_access, ruleset_handle_access}
use rust_landlock.Ruleset.Handle.Accepted.{handle_access-ok_iff}
use rust_landlock.Ruleset.Handle.Invariant.{
  IsValid, handle_access-IsValid, set_compatibility-IsValid, requested-add_handled,
}
use rust_landlock.Ruleset.Create.Outcome.{Created, missing, inert, made, failed, create-Created}
use rust_landlock.Ruleset.Restrict.{restrict_self}
use rust_landlock.Ruleset.Session.Paths.{owned, handle_access_owned}
use rust_landlock.Ruleset.Session.Calls.{
  Request, access, Call, ask, ask_all, perform_all, enforce, run,
}
use rust_landlock.Ruleset.Session.GivenUp.{Ignored, bad_request, nothing_handled, calls-Ignored}

module _ ⦃S : Sys⦄ ⦃E : BitFlags⦄ where
  open S use {World}
  open E use {Flags, empty}

  Reported-dummy :
      {a : Flags} {abi : Abi} {level : CompatLevel} {s s' : CompatState}
      {out : Result (Option Flags) (CompatError Flags)}
      → s ≡ dummy
      → Reported a abi level s out s'
      → s' ≡ dummy
  unfolding update
  Reported-dummy d (granted ne k b) = ground arith
  Reported-dummy d (reduced g be k e ne ga) = ground arith
  Reported-dummy d (skipped be ne k e) = ground arith
  Reported-dummy d (given_up soft k b) = ground arith
  Reported-dummy d (refused e hard k b) = ground arith
  Reported-dummy d (rejected e bad) = ground arith

  Reported-soft :
      {a : Flags} {abi : Abi} {level : CompatLevel} {s s' : CompatState}
      {out : Result (Option Flags) (CompatError Flags)}
      → level ≡ soft_requirement
      → ¬ IsInvalid a
      → ¬ (a ⊆ from_all abi)
      → Reported a abi level s out s'
      → s' ≡ dummy
  unfolding update
  Reported-soft l v n (granted ne k b) = absurd (n b)
  Reported-soft l v n (reduced g be k e ne ga) = cc
  Reported-soft l v n (skipped be ne k e) = cc
  Reported-soft l v n (given_up soft k b) = ground arith
  Reported-soft l v n (refused e hard k b) = cc
  Reported-soft l v n (rejected e bad) = absurd (v bad)

  -- The state that `handle_access` leaves is that of its check.
  handle_access_state :
      (a : Flags) (r : Ruleset) (w : World)
      → (handle_access a (r, w)).1.0.compat.state
        ≡ (try_compat access_compat a r.compat.abi (into r.compat.level) (r.compat.state, w)).1.0
  unfolding handle_access
  handle_access_state a r w = ap (λ (c : Compatibility). c.state) (requested-add_handled _ _).1

  pub handle_access_level :
      (a : Flags) (r : Ruleset) (w : World)
      → (handle_access a (r, w)).1.0.compat.level ≡ r.compat.level
  unfolding handle_access
  handle_access_level a r w = ap (λ (c : Compatibility). c.level) (requested-add_handled _ _).1

  -- A valid builder in state Dummy.
  pub record IsOver (r : Ruleset) : Type 0 where
    pub valid : IsValid r
    pub final : r.compat.state ≡ dummy

  pub request-IsOver :
      (a : Flags) (r : Ruleset) (w : World)
      → IsOver r
      → IsOver (handle_access a (r, w)).1.0 × ((handle_access a (r, w)).1.1 ≡ w)
  request-IsOver a r w o =
      let (valid, asked, begun, kept) = handle_access-IsValid a r w o.valid in
      (
        record {
          valid = valid;
          final =
              handle_access_state a r w
              ∙ Reported-dummy o.final
                  (try_compat-Reported a r.compat.abi (into r.compat.level) r.compat.state w).0;
        },
        kept,
      )

  -- A soft requirement that the ABI does not meet ends the build, with a success.
  pub soft-IsOver :
      (a : Flags) (r : Ruleset) (w : World)
      → IsValid r
      → into r.compat.level ≡ soft_requirement
      → ¬ IsInvalid a
      → ¬ (a ⊆ from_all r.compat.abi)
      → ((handle_access a (r, w)).0 ≡ ok tt)
        × IsOver (handle_access a (r, w)).1.0
        × ((handle_access a (r, w)).1.1 ≡ w)
  soft-IsOver a r w v l valid n =
      let (valid', asked, begun, kept) = handle_access-IsValid a r w v in
      (
        (handle_access-ok_iff a r w).1 (valid, λ h. cc),
        record {
          valid = valid';
          final =
              handle_access_state a r w
              ∙ Reported-soft l valid n
                  (try_compat-Reported a r.compat.abi (into r.compat.level) r.compat.state w).0;
        },
        kept,
      )

  -- What a request gives: such a builder, or its own error.
  Asking : World → Result Ruleset (RulesetError Flags) × World → Type 0
  Asking w (ok r, w') = IsOver r × (w' ≡ w)
  Asking w (err e, w') = (x : HandleAccessesError Flags) × (e ≡ handle_accesses x) × (w' ≡ w)

  owned-Asking :
      (x : Result (Unit {0}) (HandleAccessesError Flags)) (r : Ruleset) (w w' : World)
      → IsOver r × (w' ≡ w)
      → Asking w (owned (map_err handle_accesses x, (r, w')))
  unfolding Asking
  owned-Asking (ok u) r w w' o = o
  owned-Asking (err e) r w w' o = (e, refl, o.1)

  ask-Asking : (q : Request) (r : Ruleset) (w : World) → IsOver r → Asking w (ask q r w)
  unfolding Asking ask handle_access_owned handle_access set_compatibility
  ask-Asking (access a) r w o =
      owned-Asking (ruleset_handle_access a (r, w)).0 _ w _ (request-IsOver a r w o)
  ask-Asking (Request.level l) r w o =
      (record { valid = set_compatibility-IsValid l r o.valid; final = o.final }, refl)

  create-Ignored :
      (calls : List Call) (r : Ruleset) (w : World)
      {m : Result RulesetCreated (RulesetError Flags) × World}
      → IsOver r
      → Created r w m
      → Ignored w (proceed m (λ c. perform_all calls c >>= restrict_self))
  unfolding created
  create-Ignored calls r w o (missing z) = nothing_handled
  create-Ignored calls r w o (inert s ne k (inl (now, before))) = absurd (cc (before, o.final))
  create-Ignored calls r w o (inert s ne k (inr now)) =
      calls-Ignored calls (created (record r { compat = set_state s r.compat }) (negsuc 0)) w
        (record { final = now; no_fd = refl })
  create-Ignored calls r w o (made fd w' ne k p q) = absurd (ground (arith, o.final))
  create-Ignored calls r w o (failed fd w' ne k p q) = absurd (ground (arith, o.final))

  enforce-Ignored :
      (calls : List Call) (r : Ruleset) (w : World) → IsOver r → Ignored w (enforce calls r w)
  unfolding enforce
  enforce-Ignored calls r w o = create-Ignored calls r w o (create-Created r w o.valid)

  then-Asking :
      (requests : List Request) (w : World) (m : Result Ruleset (RulesetError Flags) × World)
      → Asking w m
      → ((r : Ruleset) (w' : World) → IsOver r → Asking w' (ask_all requests r w'))
      → Asking w (proceed m (ask_all requests))
  unfolding Asking
  then-Asking requests w (ok r, w') (o, e) k =
      subst (λ (x : World). Asking x (ask_all requests r w')) e (k r w' o)
  then-Asking requests w (err x, w') a k = a

  ask_all-Asking :
      (requests : List Request) (r : Ruleset) (w : World)
      → IsOver r
      → Asking w (ask_all requests r w)
  unfolding Asking ask_all
  ask_all-Asking [] r w o = (o, refl)
  ask_all-Asking (q ∷ qs) r w o =
      then-Asking qs w (ask q r w) (ask-Asking q r w o) (λ r' w' o'. ask_all-Asking qs r' w' o')

  asked-Ignored :
      (calls : List Call) (w : World) (m : Result Ruleset (RulesetError Flags) × World)
      → Asking w m
      → Ignored w (proceed m (enforce calls))
  unfolding Asking
  asked-Ignored calls w (ok r, w') (o, e) =
      subst (λ (x : World). Ignored x (enforce calls r w')) e (enforce-Ignored calls r w' o)
  asked-Ignored calls w (err e, w') (x, k, z) = rw (k, z) (bad_request x)

  soft-Asking :
      (a : Flags) (w : World) (m : Result (Unit {0}) (RulesetError Flags) × (Ruleset × World))
      → (m.0 ≡ ok tt) × IsOver m.1.0 × (m.1.1 ≡ w)
      → Asking w (owned m)
  unfolding Asking
  soft-Asking a w (ok u, (r, w')) (done, o, e) = (o, e)
  soft-Asking a w (err x, (r, w')) (done, o, e) = cc

  -- For each valid builder whose level is the soft requirement, each request for declared rights of
  -- which the builder's ABI has not all, each list of later requests, at any levels, and each list
  -- of calls on the created ruleset, on every kernel: the whole is ignored. The system is asked for types
  -- of descriptors at most, so that neither prctl nor Landlock is called, and if no error is returned, the
  -- status is not enforced, without no_new_privs. An error is that of a later request, that of a
  -- rule, or MissingHandledAccess of create.
  pub soft_requirement-Ignored :
      (a : Flags) (requests : List Request) (calls : List Call) (r : Ruleset) (w : World)
      → IsValid r
      → into r.compat.level ≡ soft_requirement
      → ¬ IsInvalid a
      → ¬ (a ⊆ from_all r.compat.abi)
      → Ignored w (run (access a ∷ requests) calls r w)
  unfolding run ask_all ask handle_access_owned
  soft_requirement-Ignored a requests calls r w v l valid beyond =
      asked-Ignored calls w (proceed (handle_access_owned a r w) (ask_all requests)) (
        then-Asking requests w (handle_access_owned a r w)
          (soft-Asking a w (handle_access a (r, w)) (soft-IsOver a r w v l valid beyond))
          (ask_all-Asking requests))
