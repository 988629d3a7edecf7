-- ===== src/Ruleset/Session/Live.antt =====
-- A created ruleset on a kernel as documented, at best effort: how each call keeps it able to go on.
pub mod Rules
pub mod Ends
pub mod Loop
pub mod Items
pub mod Built
use rust_landlock.Prelude.{
  Bool, true, false, Option, none, some, ◌≡◌, ◌≢◌, ◌⊎◌, inl, inr, refl, sym, ap, subst, ◌∙◌, arith,
}
use rust_landlock.Prelude.Exec.{Result, ok, err, Succeeds}
use rust_landlock.Prelude.Int.{ℤ, pos, negsuc, ◌≤ℤ◌}
use rust_landlock.Uapi.{Sys, landlock_create_ruleset}
use rust_landlock.BitFlags.{BitFlags, ◌∩◌}
use rust_landlock.BitFlags.Digits.{◌⊆◌, is_empty_iff, intersection_of_subset}
use rust_landlock.BitFlags.Sets.{⊆-empty, intersection-⊆_left, intersection-⊆_right}
use rust_landlock.Errors.{RulesetError}
use rust_landlock.Compat.Abi.{Abi}
use rust_landlock.Compat.Level.{CompatLevel, best_effort, hard_requirement, into}
use rust_landlock.Compat.State.{
  CompatState, init, full, partial, no_support, dummy, update_state, update,
}
use rust_landlock.Fs.Rights.{from_all}
use rust_landlock.Ruleset.Types.{Ruleset, RulesetCreated, created, is_enforced}
use rust_landlock.Ruleset.Handle.Grades.{Grades}
use rust_landlock.Ruleset.Handle.Invariant.{IsValid, StateFits}
use rust_landlock.Ruleset.Handle.Exact.{IsExact}
use rust_landlock.Ruleset.Create.{
  create, attr_of, create_body, handles_one, without_access, ask_kernel,
}
use rust_landlock.Ruleset.Create.Outcome.{
  is_empty_false, Created, missing, inert, made, failed, create-Created,
}
use rust_landlock.Kernel.{View, Keeps, IsDocumented}
use rust_landlock.Kernel.Calls.{Made, Keeps-refl, create_ruleset-Made}

module _ ⦃S : Sys⦄ ⦃E : BitFlags⦄ where
  open S use {World}
  open E use {Flags, empty}

  module _ (V : View) where
    -- The ruleset handles `h`: it will be enforced, or there is nothing to enforce.
    pub data Standing (h : Flags) (c : RulesetCreated) (w : World) : Type 0 where
      enforcing :
          h ≢ empty → is_enforced c.compat.state ≡ true → V.IsRuleset w c.fd h → Standing h c w
      idle : h ≡ empty → c.compat.state ≡ no_support → Standing h c w

    pub record IsLive (abi : Abi) (asked : Flags) (c : RulesetCreated) (w : World) : Type 0 where
      pub ready : V.Ready w
      pub nnp : c.no_new_privs ≡ true
      pub lenient : into c.compat.level ≡ best_effort
      pub abi_kept : c.compat.abi ≡ abi
      pub requested : c.requested_handled_fs ≡ asked
      pub standing : Standing (asked ∩ from_all abi) c w

    Grades-StateFits :
        (s : CompatState) (req act f : Flags) → act ≡ req ∩ f → Grades s req f → StateFits s req act
    Grades-StateFits init req act f e g =
        (g, e ∙ ⊆-empty (req ∩ f) (rw g (intersection-⊆_left empty f)))
    Grades-StateFits full req act f e g =
        let same = e ∙ intersection_of_subset req f g.1 in (same, λ z. g.0 (sym same ∙ z))
    Grades-StateFits partial req act f e g = λ z. g.0 (sym e ∙ z)
    Grades-StateFits no_support req act f e g = e ∙ g.0
    Grades-StateFits dummy req act f e g = absurd g

    pub IsExact-IsValid : (abi : Abi) (r : Ruleset) → IsExact abi r → IsValid r
    IsExact-IsValid abi r x = record {
      supported =
          rw (x.handled, x.abi_kept) (intersection-⊆_right r.requested_handled_fs (from_all abi));
      asked = rw x.handled (intersection-⊆_left r.requested_handled_fs (from_all abi));
      fits =
          Grades-StateFits r.compat.state r.requested_handled_fs r.actual_handled_fs (from_all abi)
            x.handled x.graded;
    }

    -- What a graded builder is, once something was asked for.
    pub Grades-cases :
        (s : CompatState) (req act f : Flags)
        → req ≢ empty
        → act ≡ req ∩ f
        → Grades s req f
        → ((is_enforced s ≡ true) × (act ≢ empty)) ⊎ ((s ≡ no_support) × (act ≡ empty))
    Grades-cases init req act f ne e g = absurd (ne g)
    Grades-cases full req act f ne e g =
        inl (refl, λ z. g.0 (sym (e ∙ intersection_of_subset req f g.1) ∙ z))
    Grades-cases partial req act f ne e g = inl (refl, λ z. g.0 (sym e ∙ z))
    Grades-cases no_support req act f ne e g = inr (refl, e ∙ g.0)
    Grades-cases dummy req act f ne e g = absurd g

    -- What `create` gives.
    abbrev pub Starts : Abi → Ruleset → World → RulesetCreated → World → Type 0
    Starts abi r w c w' =
        IsLive abi r.requested_handled_fs c w' × Keeps V w w' × (c.compat.state ≡ r.compat.state)

    create_idle :
        (abi : Abi) (r : Ruleset) (w : World)
        → IsExact abi r
        → into r.compat.level ≡ best_effort
        → r.requested_handled_fs ≢ empty
        → V.Ready w
        → r.compat.state ≡ no_support
        → r.actual_handled_fs ≡ empty
        → Succeeds (Starts abi r w) (create r w)
    unfolding create create_body handles_one without_access ask_kernel created update_state update
    create_idle abi r w x lenient ne ready s e =
        rw
          (
            is_empty_false r.requested_handled_fs ne,
            (is_empty_iff r.actual_handled_fs).1 e,
            lenient,
            s,
          )
          (
            record {
              ready = ready;
              nnp = refl;
              lenient = lenient;
              abi_kept = x.abi_kept;
              requested = refl;
              standing = idle (sym x.handled ∙ e) refl;
            },
            Keeps-refl V ready,
            refl,
          )

    made_live :
        (abi : Abi) (r : Ruleset) (w : World)
        {out : Result RulesetCreated (RulesetError Flags) × World}
        → IsDocumented V
        → IsExact abi r
        → into r.compat.level ≡ best_effort
        → r.requested_handled_fs ≢ empty
        → V.Ready w
        → r.actual_handled_fs ⊆ from_all V.abi
        → is_enforced r.compat.state ≡ true
        → Created r w out
        → Succeeds (Starts abi r w) out
    unfolding created
    made_live abi r w D x lenient ne ready sub e (missing (inl z)) = absurd (ne z)
    made_live abi r w D x lenient ne ready sub e (missing (inr (z, hard))) = cc
    made_live abi r w D x lenient ne ready sub e (inert s z k c) = cc
    made_live abi r w D x lenient ne ready sub e (made fd w' some_right k call ge) =
        let (_, is_ruleset, kept) =
          subst (Made V r.actual_handled_fs w) call
            (create_ruleset-Made V D r.actual_handled_fs w ready some_right sub) in
        (
          record {
            ready = kept.ready;
            nnp = refl;
            lenient = lenient;
            abi_kept = x.abi_kept;
            requested = refl;
            standing =
                subst (λ (h : Flags). Standing h (created r fd) w') x.handled
                  (enforcing some_right e is_ruleset);
          },
          kept,
          refl,
        )
    made_live abi r w D x lenient ne ready sub e (failed fd w' some_right k call lt) = absurd (
        lt
          (subst (Made V r.actual_handled_fs w) call
            (create_ruleset-Made V D r.actual_handled_fs w ready some_right sub)).0)

    -- On a kernel as documented, an exact builder at best effort, of which something was asked and which
    -- handles no more than the kernel knows, gives a ruleset that can go on.
    pub create-IsLive :
        (abi : Abi) (r : Ruleset) (w : World)
        → IsDocumented V
        → IsExact abi r
        → into r.compat.level ≡ best_effort
        → r.requested_handled_fs ≢ empty
        → V.Ready w
        → r.actual_handled_fs ⊆ from_all V.abi
        → Succeeds (Starts abi r w) (create r w)
    create-IsLive abi r w D x lenient ne ready sub =
        elim (Grades-cases r.compat.state r.requested_handled_fs r.actual_handled_fs (from_all abi)
          ne x.handled x.graded) [
            | inl k ↦
                made_live abi r w D x lenient ne ready sub k.0
                  (create-Created r w (IsExact-IsValid abi r x))
            | inr k ↦ create_idle abi r w x lenient ne ready k.0 k.1
          ]
