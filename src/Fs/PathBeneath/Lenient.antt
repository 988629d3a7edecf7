-- ===== src/Fs/PathBeneath/Lenient.antt =====
-- The check of a `PathBeneath` at best effort, on a descriptor whose type is known.
use rust_landlock.Prelude.{
  Bool, true, false, Option, none, some, ◌≡◌, ◌≢◌, ◌⊎◌, inl, inr, refl, sym, ap, subst, ◌∙◌, arith,
  Bool-cases, if◌then◌else◌,
}
use rust_landlock.Prelude.Exec.{Result, ok, proceed}
use rust_landlock.Prelude.Int.{ℤ}
use rust_landlock.Uapi.{Sys}
use rust_landlock.BitFlags.{BitFlags, ◌∩◌}
use rust_landlock.BitFlags.Digits.{◌⊆◌, eq_iff, intersection_of_subset, subset_of_intersection}
use rust_landlock.Errors.{CompatError}
use rust_landlock.Compat.Abi.{Abi}
use rust_landlock.Compat.Level.{best_effort, tailored_compat_level}
use rust_landlock.Compat.State.{CompatState, full, partial, no_support, update}
use rust_landlock.Compat.TryCompat.{settle, settle_partial, try_compat, try_compat_self}
use rust_landlock.Access.Reported.{
  Reported, IsInvalid, granted, reduced, skipped, given_up, refused, rejected, try_compat-Reported,
}
use rust_landlock.Fs.Rights.{from_all, access_file}
use rust_landlock.Fs.File.{is_file}
use rust_landlock.Fs.PathBeneath.{
  PathBeneath, new, valid_access, fit, fit_result, path_inner, path_children, path_compat,
}
use rust_landlock.Fs.PathBeneath.Fitted.{fitted, children_of}
use rust_landlock.Ruleset.Types.{is_enforced}

module _ ⦃E : BitFlags⦄ where
  open E use {Flags, empty, eq}

  -- All rights are in the ABI, and make sense for what they are given on.
  abbrev pub IsWhole : Flags → Bool → Abi → Type 0
  IsWhole a file abi = (a ⊆ from_all abi) × (file ≡ true → a ⊆ access_file)

  -- How the state of a ruleset that will be enforced moves.
  abbrev pub Moved : Flags → Bool → Abi → CompatState → CompatState → Type 0
  Moved a file abi s s' =
      (IsWhole a file abi × (s' ≡ s)) ⊎ ((¬ IsWhole a file abi) × (s' ≡ partial))

  -- The cases of the check of a rule that asks for `a`.
  pub data Fits (p : ℤ) (a : Flags) (file : Bool) (abi : Abi) (s : CompatState) {W : Type 0}
      (w w' : W)
      : Result (Option PathBeneath) (CompatError Flags) × (CompatState × W) → Type 0 where
    left : a ∩ from_all abi ≡ empty → Fits p a file abi s w w' (ok none, (update s no_support, w))
    passed :
        (s' : CompatState)
        → a ∩ from_all abi ≢ empty
        → (is_enforced s ≡ true → Moved a file abi s s')
        → Fits p a file abi s w w' (ok (some (fitted (new p (a ∩ from_all abi)) file)), (s', w'))

  verdict : Bool → CompatState
  verdict b = if b then full else partial

  fit_lenient :
      (self : PathBeneath) (file : Bool) (s : CompatState)
      → settle (ok (fit self file)) best_effort s ≡ (
        ok (some (fitted self file)),
        update s (verdict (eq self.allowed_access (valid_access file self.allowed_access))),
      )
  unfolding fit settle settle_partial verdict
  fit_lenient self file s =
      elim (Bool-cases (eq self.allowed_access (valid_access file self.allowed_access))) [
        | inl e ↦
            ground (arith, (eq_iff self.allowed_access (valid_access file self.allowed_access)).0 e)
        | inr e ↦ ground arith
      ]

  whole_access : (file : Bool) (g : Flags) → g ≡ valid_access file g → file ≡ true → g ⊆ access_file
  unfolding valid_access
  whole_access true g e h = subset_of_intersection g access_file (sym e)
  whole_access false g e h = cc

  access_whole :
      (file : Bool) (g : Flags) → (file ≡ true → g ⊆ access_file) → g ≡ valid_access file g
  unfolding valid_access
  access_whole true g h = sym (intersection_of_subset g access_file (h refl))
  access_whole false g h = refl

  Moved-granted :
      (a : Flags) (file : Bool) (abi : Abi) (s : CompatState) (b : Bool)
      → a ⊆ from_all abi
      → eq a (valid_access file a) ≡ b
      → is_enforced s ≡ true
      → Moved a file abi s (update (update s full) (verdict b))
  unfolding update verdict
  Moved-granted a file abi s true h e k =
      inl ((h, whole_access file a ((eq_iff a _).0 e)), ground arith)
  Moved-granted a file abi s false h e k =
      inr ((λ whole. cc (e, (eq_iff a _).1 (access_whole file a whole.1))), ground arith)

  Moved-reduced :
      (a : Flags) (file : Bool) (abi : Abi) (s : CompatState) (b : Bool)
      → ¬ (a ⊆ from_all abi)
      → is_enforced s ≡ true
      → Moved a file abi s (update (update s partial) (verdict b))
  unfolding update verdict
  Moved-reduced a file abi s b h k = inr ((λ whole. h whole.0), ground arith)

  module _ ⦃S : Sys⦄ where
    open S use {World}

    abbrev on :
        ℤ
        → Flags
        → Abi
        → Result (Option Flags) (CompatError Flags) × (CompatState × World)
        → Result (Option PathBeneath) (CompatError Flags) × (CompatState × World)
    on p a abi m =
        proceed (children_of (new p a) m) (λ o. try_compat_self path_compat o abi best_effort)

    on_some :
        (p : ℤ) (a g : Flags) (abi : Abi) (file : Bool) (s : CompatState) (w : World)
        → (is_file p w).0 ≡ ok file
        → on p a abi (ok (some g), (s, w)) ≡ (
          ok (some (fitted (new p g) file)),
          (update s (verdict (eq g (valid_access file g))), (is_file p w).1),
        )
    unfolding try_compat_self path_inner fit_result new
    on_some p a g abi file s w h =
        rw h (ap (λ (x : _ × _). (x.0, (x.1, (is_file p w).1))) (fit_lenient (new p g) file s))

    Reported-Fits :
        (p : ℤ) (a : Flags) (abi : Abi) (file : Bool) (s s' : CompatState) (w : World)
        {out : Result (Option Flags) (CompatError Flags)}
        → ¬ IsInvalid a
        → (is_file p w).0 ≡ ok file
        → Reported a abi best_effort s out s'
        → Fits p a file abi s w (is_file p w).1 (on p a abi (out, (s', w)))
    unfolding try_compat_self
    Reported-Fits p a abi file s s' w v h (granted ne k b) =
        let same = intersection_of_subset a (from_all abi) b in
        rw (on_some p a a abi file s' w h) (
          subst
            (λ (g : Flags). Fits p a file abi s w (is_file p w).1 (
              ok (some (fitted (new p g) file)),
              (update (update s full) (verdict (eq a (valid_access file a))), (is_file p w).1),
            ))
            same (passed _ (λ z. ne (sym same ∙ z)) (Moved-granted a file abi s _ b refl)))
    Reported-Fits p a abi file s s' w v h (reduced g be k e ne ga) =
        rw (on_some p a g abi file s' w h) (
          subst
            (λ (x : Flags). Fits p a file abi s w (is_file p w).1 (
              ok (some (fitted (new p x) file)),
              (update (update s partial) (verdict (eq g (valid_access file g))), (is_file p w).1),
            ))
            (sym e)
            (passed _ (λ z. ne (e ∙ z))
              (Moved-reduced a file abi s _
                (λ b. ga (e ∙ intersection_of_subset a (from_all abi) b)))))
    Reported-Fits p a abi file s s' w v h (skipped be ne k e) = left e
    Reported-Fits p a abi file s s' w v h (given_up soft k b) = cc
    Reported-Fits p a abi file s s' w v h (refused e hard k b) = cc
    Reported-Fits p a abi file s s' w v h (rejected e bad) = absurd (v bad)

    -- At best effort the check of a rule of declared rights, made for a descriptor whose type is told,
    -- leaves the rule out if the ABI has none of its rights, and otherwise passes it on with those that
    -- the ABI has and the descriptor admits.
    pub try_compat-Fits :
        (p : ℤ) (a : Flags) (abi : Abi) (file : Bool) (s : CompatState) (w : World)
        → ¬ IsInvalid a
        → (is_file p w).0 ≡ ok file
        → Fits p a file abi s w
            (is_file p w).1
            (try_compat path_compat (new p a) abi best_effort (s, w))
    unfolding try_compat path_children new tailored_compat_level
    try_compat-Fits p a abi file s w v h =
        Reported-Fits p a abi file s _ w v h (try_compat-Reported a abi best_effort s w).0
