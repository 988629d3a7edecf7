-- ===== src/Fs/PathBeneath/Moves.antt =====
-- How the check of a rule moves the compatibility state.
use rust_landlock.Prelude.{
  true, Option, none, some, ◌≡◌, ◌≢◌, ◌⊎◌, inl, inr, refl, sym, subst, ◌∙◌, arith,
}
use rust_landlock.Prelude.Exec.{Result, ok, err, proceed}
use rust_landlock.Uapi.{Sys}
use rust_landlock.BitFlags.{BitFlags, ◌∩◌}
use rust_landlock.BitFlags.Digits.{intersection_of_subset}
use rust_landlock.Errors.{CompatError}
use rust_landlock.Compat.Abi.{Abi}
use rust_landlock.Compat.Level.{
  CompatLevel, best_effort, soft_requirement, hard_requirement, tailored_compat_level,
}
use rust_landlock.Compat.State.{CompatState, init, full, partial, no_support, dummy, update}
use rust_landlock.Compat.TryCompat.{
  CompatResult, settle, settle_partial, settle_none, try_compat, try_compat_self,
}
use rust_landlock.Access.{access_compat}
use rust_landlock.Access.Reported.{
  Reported, granted, reduced, skipped, given_up, refused, rejected, try_compat-Reported,
}
use rust_landlock.Fs.Rights.{from_all}
use rust_landlock.Ruleset.Types.{is_enforced}
use rust_landlock.Fs.PathBeneath.{PathBeneath, path_inner, path_children, path_compat}
use rust_landlock.Fs.PathBeneath.Fitted.{children_of}

-- The moves of the state that updates can make.
pub record IsMove (s s' : CompatState) : Type 0 where
  pub stays : is_enforced s ≡ true → (is_enforced s' ≡ true) ⊎ (s' ≡ dummy)
  pub ends : s ≡ dummy → s' ≡ dummy
  pub begun : s ≢ init → s' ≢ init
  pub was_full : s ≢ init → s' ≡ full → s ≡ full

stay : (s : CompatState) → IsMove s s
stay s = record { stays = inl; ends = λ e. e; begun = λ n. n; was_full = λ n e. e }

update-IsMove : (s x : CompatState) → x ≢ init → IsMove s (update s x)
unfolding update
update-IsMove s x n = record {
  stays = λ e. ground arith;
  ends = λ e. ground arith;
  begun = λ k e. ground arith;
  was_full = λ k e. ground arith;
}

IsMove-trans : {a b c : CompatState} → IsMove a b → IsMove b c → IsMove a c
IsMove-trans p q = record {
  stays = λ e. elim (p.stays e) [ inl h ↦ q.stays h | inr h ↦ inr (q.ends h) ];
  ends = λ e. q.ends (p.ends e);
  begun = λ n. q.begun (p.begun n);
  was_full = λ n e. p.was_full n (q.was_full (p.begun n) e);
}

module _ {T F : Type 0} where
  settle-IsMove :
      (r : Result (CompatResult T F) (CompatError F)) (level : CompatLevel) (s : CompatState)
      → IsMove s (settle r level s).1
  unfolding settle settle_partial settle_none
  settle-IsMove (ok (CompatResult.full t)) level s = update-IsMove s full (λ e. cc)
  settle-IsMove (ok (CompatResult.partial t e)) best_effort s = update-IsMove s partial (λ e. cc)
  settle-IsMove (ok (CompatResult.partial t e)) soft_requirement s = update-IsMove s dummy (λ e. cc)
  settle-IsMove (ok (CompatResult.partial t e)) hard_requirement s = update-IsMove s dummy (λ e. cc)
  settle-IsMove (ok (CompatResult.no_support e)) best_effort s =
      update-IsMove s no_support (λ e. cc)
  settle-IsMove (ok (CompatResult.no_support e)) soft_requirement s =
      update-IsMove s dummy (λ e. cc)
  settle-IsMove (ok (CompatResult.no_support e)) hard_requirement s =
      update-IsMove s dummy (λ e. cc)
  settle-IsMove (err e) level s = update-IsMove s dummy (λ e. cc)

module _ ⦃E : BitFlags⦄ where
  open E use {Flags, empty}

  Reported-IsMove :
      {a : Flags} {abi : Abi} {level : CompatLevel} {s s' : CompatState}
      {out : Result (Option Flags) (CompatError Flags)}
      → Reported a abi level s out s'
      → IsMove s s'
  Reported-IsMove {s = s} (granted ne k b) = update-IsMove s full (λ e. cc)
  Reported-IsMove {s = s} (reduced g be k e ne ga) = update-IsMove s partial (λ e. cc)
  Reported-IsMove {s = s} (skipped be ne k e) = update-IsMove s no_support (λ e. cc)
  Reported-IsMove {s = s} (given_up soft k b) = update-IsMove s dummy (λ e. cc)
  Reported-IsMove {s = s} (refused e hard k b) = update-IsMove s dummy (λ e. cc)
  Reported-IsMove {s = s} (rejected e bad) = update-IsMove s dummy (λ e. cc)

  -- Where the ABI has none of the rights, nothing is let through, and the state is `No` at most.
  Stopped : CompatState → Result (Option Flags) (CompatError Flags) → Type 0
  Stopped s' out = ((s' ≡ no_support) ⊎ (s' ≡ dummy)) × ((g : Flags) → out ≢ ok (some g))

  Reported-Stopped :
      {a : Flags} {abi : Abi} {level : CompatLevel} {s' : CompatState}
      {out : Result (Option Flags) (CompatError Flags)}
      → a ∩ from_all abi ≡ empty
      → Reported a abi level no_support out s'
      → Stopped s' out
  unfolding update Stopped
  Reported-Stopped {a} {abi} apart (granted ne k b) =
      absurd (ne (sym (intersection_of_subset a (from_all abi) b) ∙ apart))
  Reported-Stopped apart (reduced g be k e ne ga) = absurd (ne (e ∙ apart))
  Reported-Stopped apart (skipped be ne k e) = (inl refl, λ g e. cc)
  Reported-Stopped apart (given_up soft k b) = (inr refl, λ g e. cc)
  Reported-Stopped apart (refused e hard k b) = (inr refl, λ g e. cc)
  Reported-Stopped apart (rejected e bad) = (inr refl, λ g e. cc)

  module _ ⦃S : Sys⦄ where
    open S use {World}

    -- The check of a rule after the check of its rights.
    abbrev onward :
        PathBeneath
        → Abi
        → CompatLevel
        → CompatState
        → World
        → Result (Option Flags) (CompatError Flags)
        → CompatState
    onward self abi level s w out =
        (proceed (children_of self (out, (s, w)))
          (λ o. try_compat_self path_compat o abi level)).1.0

    onward-IsMove :
        (self : PathBeneath) (abi : Abi) (level : CompatLevel) (s : CompatState) (w : World)
        (out : Result (Option Flags) (CompatError Flags))
        → IsMove s (onward self abi level s w out)
    unfolding try_compat_self path_inner
    onward-IsMove self abi level s w (ok (some g)) = settle-IsMove _ level s
    onward-IsMove self abi level s w (ok none) = stay s
    onward-IsMove self abi level s w (err e) = stay s

    onward_stopped :
        (self : PathBeneath) (abi : Abi) (level : CompatLevel) (s : CompatState) (w : World)
        (out : Result (Option Flags) (CompatError Flags))
        → ((g : Flags) → out ≢ ok (some g))
        → onward self abi level s w out ≡ s
    unfolding try_compat_self
    onward_stopped self abi level s w (ok (some g)) h = absurd (h g refl)
    onward_stopped self abi level s w (ok none) h = refl
    onward_stopped self abi level s w (err e) h = refl

    -- The check of a rule moves the state as updates do; and in state `No`, if the ABI has none of
    -- the rule's rights, to `No` or `Dummy`.
    pub try_compat-IsMove :
        (self : PathBeneath) (abi : Abi) (parent : CompatLevel) (s : CompatState) (w : World)
        → let s' = (try_compat path_compat self abi parent (s, w)).1.0 in
          IsMove s s'
          × (s ≡ no_support
              → self.allowed_access ∩ from_all abi ≡ empty
              → (s' ≡ no_support) ⊎ (s' ≡ dummy))
    unfolding try_compat path_children Stopped
    try_compat-IsMove self abi parent s w =
        let level = tailored_compat_level self.compat_level parent in
        let inner = tailored_compat_level self.compat_level level in
        let report = (try_compat-Reported self.allowed_access abi inner s w).0 in
        let (out, (s1, w1)) = try_compat access_compat self.allowed_access abi inner (s, w) in
        (
          IsMove-trans (Reported-IsMove report) (onward-IsMove self abi level s1 w1 out),
          λ e apart.
              (let stopped = Reported-Stopped apart (
                  subst (λ (x : CompatState). Reported self.allowed_access abi inner x out s1) e
                    report) in
                subst (λ (x : CompatState). (x ≡ no_support) ⊎ (x ≡ dummy))
                  (sym (onward_stopped self abi level s1 w1 out stopped.1)) stopped.0),
        )
