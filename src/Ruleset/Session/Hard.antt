-- ===== src/Ruleset/Session/Hard.antt =====
-- A program that uses the builders of src/ruleset.rs at the hard requirement only.
pub mod Rules
pub mod Enforced
use rust_landlock.Prelude.{
  Bool, true, false, some, List, [], ◌∷◌, ◌≡◌, ◌≢◌, ◌⊎◌, inl, inr, refl, sym, subst, ap, ◌∙◌, arith,
}
use rust_landlock.Prelude.Exec.{Result, ok, err, Exec, pure, proceed}
use rust_landlock.Prelude.Int.{ℤ, pos, ◌≤ℤ◌}
use rust_landlock.Uapi.{Sys, landlock_create_ruleset}
use rust_landlock.BitFlags.{BitFlags, ◌∪◌}
use rust_landlock.BitFlags.Digits.{◌⊆◌, is_empty_iff, intersection_of_subset}
use rust_landlock.BitFlags.Sets.{union-⊆, ⊆-of_empty}
use rust_landlock.Errors.{RulesetError}
use rust_landlock.Compat.Abi.{Abi}
use rust_landlock.Compat.Level.{CompatLevel, hard_requirement, into}
use rust_landlock.Compat.State.{CompatState, full, init, partial, no_support, dummy, of_abi}
use rust_landlock.Fs.Rights.{from_all}
use rust_landlock.Ruleset.Types.{
  Ruleset, RulesetCreated, RestrictionStatus, fully_enforced, set_compatibility, of_compat,
  set_compatibility_created, set_no_new_privs,
}
use rust_landlock.Ruleset.Handle.{handle_access}
use rust_landlock.Ruleset.Handle.Invariant.{
  IsValid, handle_access-IsValid, start-IsValid, set_compatibility-IsValid,
}
use rust_landlock.Ruleset.Handle.Unmet.{RulesetUnmet, handle_access-Unmet, start-Unmet}
use rust_landlock.Ruleset.Handle.Accepted.{handle_access-ok_iff}
use rust_landlock.Ruleset.Handle.Exact.{IsExact, IsHandled, start-IsExact, handle_access-IsHandled}
use rust_landlock.Ruleset.Handle.Grades.{Grades}
use rust_landlock.Ruleset.Create.{create, attr_of}
use rust_landlock.Ruleset.Session.Paths.{handle_access_owned}
use rust_landlock.Ruleset.Session.Calls.{
  Request, access, Call, rule, no_new_privs, ask, ask_all, perform, perform_all, enforce, run,
  proceed-ok, ok_inj, handle_access_owned-ok, add_rule_owned-ok, perform_all-Steps,
}
use rust_landlock.Ruleset.Session.Hard.Rules.{add_rule-hard}

module _ ⦃S : Sys⦄ ⦃E : BitFlags⦄ where
  open S use {World}
  open E use {Flags, empty, bits}

  -- The level is not lowered by any request, or by any call.
  abbrev pub RequestsHard : List Request → Type 0
  RequestsHard [] = Unit {0}
  RequestsHard (access a ∷ qs) = RequestsHard qs
  RequestsHard (Request.level l ∷ qs) = (l ≡ hard_requirement) × RequestsHard qs

  abbrev pub CallsHard : List Call → Type 0
  CallsHard [] = Unit {0}
  CallsHard (rule p ∷ calls) = CallsHard calls
  CallsHard (Call.level l ∷ calls) = (l ≡ hard_requirement) × CallsHard calls
  CallsHard (no_new_privs b ∷ calls) = CallsHard calls

  -- All rights that are asked for, after those asked for before.
  abbrev pub requested_by : Flags → List Request → Flags
  requested_by q [] = q
  requested_by q (access a ∷ qs) = requested_by (q ∪ a) qs
  requested_by q (Request.level l ∷ qs) = requested_by q qs

  -- Whether no_new_privs is wanted at the end.
  abbrev pub wanted_by : Bool → List Call → Bool
  wanted_by b [] = b
  wanted_by b (rule p ∷ calls) = wanted_by b calls
  wanted_by b (Call.level l ∷ calls) = wanted_by b calls
  wanted_by b (no_new_privs b' ∷ calls) = wanted_by b' calls

  -- A builder at the hard requirement that got nothing but what its ABI has.
  pub record IsHard (abi : Abi) (r : Ruleset) : Type 0 where
    pub exact : IsExact abi r
    pub valid : IsValid r
    pub unmet : RulesetUnmet r
    pub strict : into r.compat.level ≡ hard_requirement
    pub met : r.requested_handled_fs ⊆ from_all abi

  pub start-IsHard :
      (abi : Abi) → IsHard abi (set_compatibility hard_requirement (of_compat (of_abi abi)))
  unfolding set_compatibility of_compat into
  start-IsHard abi = record {
    exact = record {
      abi_kept = (start-IsExact abi).abi_kept;
      handled = (start-IsExact abi).handled;
      graded = (start-IsExact abi).graded;
    };
    valid = set_compatibility-IsValid hard_requirement (of_compat (of_abi abi)) (start-IsValid abi);
    unmet = start-Unmet abi;
    strict = refl;
    met = ⊆-of_empty empty (from_all abi) refl;
  }

  level-IsHard :
      (abi : Abi) (r : Ruleset) (l : CompatLevel)
      → l ≡ hard_requirement
      → IsHard abi r
      → IsHard abi (set_compatibility l r)
  unfolding set_compatibility into
  level-IsHard abi r l e h = record {
    exact = record {
      abi_kept = h.exact.abi_kept;
      handled = h.exact.handled;
      graded = h.exact.graded;
    };
    valid = set_compatibility-IsValid l r h.valid;
    unmet = h.unmet;
    strict = e;
    met = h.met;
  }

  pub Grades-hard :
      (s : CompatState) (q f : Flags) → Grades s q f → q ⊆ f → (q ≡ empty) ⊎ (s ≡ full)
  Grades-hard init q f g h = inl g
  Grades-hard full q f g h = inr refl
  Grades-hard partial q f g h = absurd (g.1 h)
  Grades-hard no_support q f g h = inl (sym (intersection_of_subset q f h) ∙ g.0)
  Grades-hard dummy q f g h = absurd g

  access-IsHard :
      (abi : Abi) (a : Flags) (r r' : Ruleset) (w w' : World)
      → IsHard abi r
      → handle_access_owned a r w ≡ (ok r', w')
      → IsHard abi r' × (r'.requested_handled_fs ≡ r.requested_handled_fs ∪ a)
  access-IsHard abi a r r' w w' h e =
      let whole = handle_access_owned-ok a r r' w w' e in
      let left : (handle_access a (r, w)).1.0 ≡ r' =
        ap (λ (x : Result (Unit {0}) (RulesetError Flags) × (Ruleset × World)). x.1.0) whole in
      let (v, within) =
        (handle_access-ok_iff a r w).0
          (ap (λ (x : Result (Unit {0}) (RulesetError Flags) × (Ruleset × World)). x.0) whole) in
      let sub = subst (λ (b : Abi). a ⊆ from_all b) h.exact.abi_kept (within h.strict) in
      let handled =
        subst (λ (x : Ruleset). IsHandled a abi r x) left
          (handle_access-IsHandled a r w abi h.exact v (inr sub)).1 in
      (
        record {
          exact = handled.exact;
          valid = subst (λ (x : Ruleset). IsValid x) left (handle_access-IsValid a r w h.valid).0;
          unmet =
              subst (λ (x : Ruleset). RulesetUnmet x) left
                (handle_access-Unmet a r w h.valid h.unmet);
          strict = ap into handled.same_level ∙ h.strict;
          met =
              subst (λ (x : Flags). x ⊆ from_all abi) (sym handled.asked)
                (union-⊆ r.requested_handled_fs a (from_all abi) h.met sub);
        },
        handled.asked,
      )

  -- Requests at the hard requirement that all succeed are all met.
  pub ask_all-IsHard :
      (abi : Abi) (requests : List Request) (r r' : Ruleset) (w w' : World)
      → IsHard abi r
      → RequestsHard requests
      → ask_all requests r w ≡ (ok r', w')
      → IsHard abi r' × (r'.requested_handled_fs ≡ requested_by r.requested_handled_fs requests)
  unfolding ask_all ask set_compatibility
  ask_all-IsHard abi [] r r' w w' h hard e =
      let same = ap (λ (x : Ruleset × World). x.0) (ok_inj e) in
      (
        subst (λ (x : Ruleset). IsHard abi x) same h,
        ap (λ (x : Ruleset). x.requested_handled_fs) (sym same),
      )
  ask_all-IsHard abi (access a ∷ qs) r r' w w' h hard e =
      let (r1, w1, first, rest) = proceed-ok (handle_access_owned a r w) (ask_all qs) r' w' e in
      let (h1, q1) = access-IsHard abi a r r1 w w1 h first in
      let (h2, q2) = ask_all-IsHard abi qs r1 r' w1 w' h1 hard rest in
      (h2, q2 ∙ ap (λ (q : Flags). requested_by q qs) q1)
  ask_all-IsHard abi (Request.level l ∷ qs) r r' w w' h (now, later) e =
      ask_all-IsHard abi qs (set_compatibility l r) r' w w' (level-IsHard abi r l now h) later e

  -- A created ruleset in state Full at the hard requirement.
  pub record IsFull (c : RulesetCreated) (b : Bool) : Type 0 where
    pub strict : into c.compat.level ≡ hard_requirement
    pub is_full : c.compat.state ≡ full
    pub wanted : c.no_new_privs ≡ b

  pub perform_all-IsFull :
      (calls : List Call) (b : Bool) (c c' : RulesetCreated) (w w' : World)
      → CallsHard calls
      → IsFull c b
      → perform_all calls c w ≡ (ok c', w')
      → IsFull c' (wanted_by b calls)
  unfolding perform_all perform set_compatibility_created set_no_new_privs into
  perform_all-IsFull [] b c c' w w' hard f e =
      subst (λ (x : RulesetCreated). IsFull x b)
        (ap (λ (x : RulesetCreated × World). x.0) (ok_inj e)) f
  perform_all-IsFull (rule p ∷ calls) b c c' w w' hard f e =
      let (c1, w1, first, rest) = proceed-ok (perform (rule p) c w) (perform_all calls) c' w' e in
      let same =
        add_rule-hard p c c1 w w1 f.strict f.is_full (add_rule_owned-ok p c c1 w w1 first) in
      perform_all-IsFull calls b c1 c' w1 w' hard
        (subst (λ (x : RulesetCreated). IsFull x b) (sym same) f) rest
  perform_all-IsFull (Call.level l ∷ calls) b c c' w w' (now, later) f e =
      perform_all-IsFull calls b (set_compatibility_created l c) c' w w' later
        (record { strict = now; is_full = f.is_full; wanted = f.wanted }) e
  perform_all-IsFull (no_new_privs b' ∷ calls) b c c' w w' hard f e =
      perform_all-IsFull calls b' (set_no_new_privs b' c) c' w w' hard
        (record { strict = f.strict; is_full = f.is_full; wanted = refl }) e
