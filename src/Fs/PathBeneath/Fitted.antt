-- ===== src/Fs/PathBeneath/Fitted.antt =====
-- The rule that `try_compat` makes of a `PathBeneath`, and what an error leaves behind.
use rust_landlock.Prelude.{
  Bool, true, false, Option, none, some, ◌≡◌, refl, sym, ◌∙◌, subst, arith, Bool-cases, inl, inr,
}
use rust_landlock.Prelude.Exec.{Result, ok, err, proceed}
use rust_landlock.Uapi.{Sys, IoError}
use rust_landlock.BitFlags.{BitFlags, ◌∩◌}
use rust_landlock.BitFlags.Digits.{◌⊆◌, eq_iff}
use rust_landlock.BitFlags.Sets.{intersection-⊆_left, intersection-⊆_right}
use rust_landlock.Errors.{CompatError}
use rust_landlock.Compat.Abi.{Abi}
use rust_landlock.Compat.Level.{CompatLevel, tailored_compat_level}
use rust_landlock.Compat.State.{CompatState, dummy, update}
use rust_landlock.Compat.TryCompat.{settle, try_compat, try_compat_self}
use rust_landlock.Compat.TryCompat.Outcome.{IsFinal}
use rust_landlock.Access.{access_compat}
use rust_landlock.Access.Reported.{
  Reported, granted, reduced, skipped, given_up, refused, rejected, try_compat-Reported,
}
use rust_landlock.Fs.Rights.{from_all, access_file}
use rust_landlock.Fs.File.{is_file}
use rust_landlock.Fs.PathBeneath.{
  PathBeneath, sync_attr, valid_access, fit, fit_result, with_access, path_inner, path_children,
  path_compat,
}

module _ ⦃E : BitFlags⦄ where
  open E use {Flags, bits, eq}

  -- The rule with the rights that are valid for its descriptor, and its attributes in step.
  abbrev pub fitted : PathBeneath → Bool → PathBeneath
  fitted self file =
      sync_attr (record self { allowed_access = valid_access file self.allowed_access })

  -- Rights for what a descriptor is open on: for a file (`true`) the rights for files among them.
  abbrev pub rights_for : Bool → Flags → Flags
  rights_for true g = g ∩ access_file
  rights_for false g = g

  -- The rule with other rights, also in its attributes for the kernel.
  abbrev pub with_rights : PathBeneath → Flags → PathBeneath
  with_rights self h = record {
    attr = record { allowed_access = bits h; parent_fd = self.attr.parent_fd };
    parent_fd = self.parent_fd;
    allowed_access = h;
    compat_level = self.compat_level;
  }

  pub fitted_shape :
      (self : PathBeneath) (g : Flags) (file : Bool)
      → fitted (record self { allowed_access = g }) file ≡ with_rights self (rights_for file g)
  unfolding sync_attr valid_access
  fitted_shape self g true = refl
  fitted_shape self g false = refl

  fit-cases :
      (self : PathBeneath) (file : Bool) (level : CompatLevel) (s s' : CompatState)
      (rule : PathBeneath)
      → settle (ok (fit self file)) level s ≡ (ok (some rule), s')
      → rule ≡ fitted self file
  unfolding fit settle
  fit-cases self file level s s' rule h =
      elim (Bool-cases (eq self.allowed_access (valid_access file self.allowed_access))) [
        | inl e ↦
            ground (arith, (eq_iff self.allowed_access (valid_access file self.allowed_access)).0 e)
        | inr e ↦ ground arith
      ]

  fit_result-some :
      (self : PathBeneath) (r : Result Bool IoError) (level : CompatLevel) (s s' : CompatState)
      (rule : PathBeneath)
      → settle (fit_result self r) level s ≡ (ok (some rule), s')
      → (file : Bool) × (r ≡ ok file) × (rule ≡ fitted self file)
  unfolding fit_result settle
  fit_result-some self (ok file) level s s' rule h =
      (file, refl, fit-cases self file level s s' rule h)
  fit_result-some self (err e) level s s' rule h = cc

  children-err :
      (a : Flags) (abi : Abi) (level : CompatLevel) (s s' : CompatState) (e : CompatError Flags)
      {out : Result (Option Flags) (CompatError Flags)}
      → Reported a abi level s out s'
      → out ≡ err e
      → s' ≡ dummy
  unfolding update
  children-err a abi level s s' e (granted ne k b) h = cc
  children-err a abi level s s' e (reduced g be k x ne ga) h = cc
  children-err a abi level s s' e (skipped be ne k x) h = cc
  children-err a abi level s s' e (given_up soft k b) h = cc
  children-err a abi level s s' e (refused x hard k b) h = ground arith
  children-err a abi level s s' e (rejected x bad) h = ground arith

  -- A part of the rights `a` that an ABI has.
  abbrev pub IsGrant : Flags → Flags → Abi → Type 0
  IsGrant g a abi = (g ⊆ a) × (g ⊆ from_all abi)

  Reported-IsGrant :
      {a g : Flags} {abi : Abi} {level : CompatLevel} {s s' : CompatState}
      {out : Result (Option Flags) (CompatError Flags)}
      → Reported a abi level s out s'
      → out ≡ ok (some g)
      → IsGrant g a abi
  Reported-IsGrant {a} {g} {abi} (granted ne k b) h =
      subst (λ (x : Flags). IsGrant x a abi) (ground arith) ((λ i p. p), b)
  Reported-IsGrant {a} {g} {abi} (reduced x be k e ne ga) h =
      subst (λ (y : Flags). IsGrant y a abi) (sym e ∙ ground arith)
        (intersection-⊆_left a (from_all abi), intersection-⊆_right a (from_all abi))
  Reported-IsGrant (skipped be ne k x) h = cc
  Reported-IsGrant (given_up soft k b) h = cc
  Reported-IsGrant (refused x hard k b) h = cc
  Reported-IsGrant (rejected x bad) h = cc

  module _ ⦃S : Sys⦄ where
    open S use {World}

    path_self-some :
        (self rule : PathBeneath) (abi : Abi) (level : CompatLevel) (s s' : CompatState)
        (w w' : World)
        → try_compat_self path_compat (some self) abi level (s, w) ≡ (ok (some rule), (s', w'))
        → (file : Bool) × ((is_file self.parent_fd w).0 ≡ ok file) × (rule ≡ fitted self file)
    unfolding try_compat_self path_inner
    path_self-some self rule abi level s s' w w' h =
        fit_result-some self (is_file self.parent_fd w).0 level s s' rule (ground arith)

    -- The rest of `path_children`, and of `try_compat`, from what the check of the rights reports.
    abbrev pub children_of :
        PathBeneath
        → Result (Option Flags) (CompatError Flags) × (CompatState × World)
        → Result (Option PathBeneath) (CompatError Flags) × (CompatState × World)
    children_of self m = proceed m (λ a st. (ok (with_access self a), st))

    none_stays :
        (abi : Abi) (level : CompatLevel) (s s' : CompatState) (w w' : World) (rule : PathBeneath)
        → ¬ (try_compat_self path_compat none abi level (s, w) ≡ (ok (some rule), (s', w')))
    unfolding try_compat_self
    none_stays abi level s s' w w' rule h = cc

    through :
        (self rule : PathBeneath) (abi : Abi) (level : CompatLevel) (s s' : CompatState)
        (w w' : World) (out : Result (Option Flags) (CompatError Flags))
        → proceed (children_of self (out, (s, w))) (λ o. try_compat_self path_compat o abi level)
          ≡ (ok (some rule), (s', w'))
        → (g : Flags) × (file : Bool) × (out ≡ ok (some g))
          × ((is_file self.parent_fd w).0 ≡ ok file)
          × (rule ≡ fitted (record self { allowed_access = g }) file)
    through self rule abi level s s' w w' (ok (some g)) h =
        let (file, known, shape) =
          path_self-some (record self { allowed_access = g }) rule abi level s s' w w' h in
        (g, file, refl, known, shape)
    through self rule abi level s s' w w' (ok none) h =
        absurd (none_stays abi level s s' w w' rule h)
    through self rule abi level s s' w w' (err e) h = cc

    pub try_compat_shape :
        (self rule : PathBeneath) (abi : Abi) (parent : CompatLevel) (s s' : CompatState)
        (w w' : World)
        → try_compat path_compat self abi parent (s, w) ≡ (ok (some rule), (s', w'))
        → (g : Flags) × (file : Bool) × IsGrant g self.allowed_access abi
          × ((is_file self.parent_fd w).0 ≡ ok file)
          × (rule ≡ fitted (record self { allowed_access = g }) file)
    unfolding try_compat path_children
    try_compat_shape self rule abi parent s s' w w' h =
        let level = tailored_compat_level self.compat_level parent in
        let inner = tailored_compat_level self.compat_level level in
        let report = try_compat-Reported self.allowed_access abi inner s w in
        let (out, (s1, w1)) = try_compat access_compat self.allowed_access abi inner (s, w) in
        let (g, file, is_g, known, shape) = through self rule abi level s1 s' w1 w' out h in
        (g, file, Reported-IsGrant report.0 is_g, known, shape)

    path_children-err :
        (self : PathBeneath) (abi : Abi) (level : CompatLevel) (s1 s' : CompatState) (w1 w' : World)
        (e : CompatError Flags) (out : Result (Option Flags) (CompatError Flags))
        → (out ≡ err e → s1 ≡ dummy)
        → children_of self (out, (s1, w1)) ≡ (err e, (s', w'))
        → s' ≡ dummy
    path_children-err self abi level s1 s' w1 w' e (ok o) k h = cc
    path_children-err self abi level s1 s' w1 w' e (err x) k h = ground (arith, k (ground arith))

    -- A failed check of a rule's rights leaves the state at `Dummy`.
    pub path_compat-IsFinal : IsFinal path_compat
    unfolding path_children
    path_compat-IsFinal = record {
      children = λ self abi level s s' w w' e h.
          let inner = tailored_compat_level self.compat_level level in
          let (out, (s1, w1)) = try_compat access_compat self.allowed_access abi inner (s, w) in
          path_children-err self abi level s1 s' w1 w' e out
            (children-err self.allowed_access abi inner s s1 e
              (try_compat-Reported self.allowed_access abi inner s w).0)
            h;
    }
