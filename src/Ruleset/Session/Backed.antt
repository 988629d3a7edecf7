-- ===== src/Ruleset/Session/Backed.antt =====
-- What a created ruleset keeps through all calls: the kernel is never called with a descriptor that
-- it did not give.
use rust_landlock.Prelude.{
  true, Option, none, some, ◌≡◌, ◌≢◌, ◌⊎◌, inl, inr, refl, sym, subst, ◌∙◌, arith, Bool-cases,
}
use rust_landlock.Prelude.Exec.{Result, ok, err}
use rust_landlock.Prelude.Int.{pos, ◌≤ℤ◌}
use rust_landlock.Uapi.{Sys}
use rust_landlock.BitFlags.{BitFlags, ◌∩◌}
use rust_landlock.BitFlags.Digits.{has, ◌⊆◌, contains_iff, has-intersection}
use rust_landlock.BitFlags.Sets.{⊆-empty}
use rust_landlock.Errors.{CompatError}
use rust_landlock.Compat.Abi.{Abi}
use rust_landlock.Compat.Level.{into}
use rust_landlock.Compat.State.{CompatState, init, full, partial, no_support, dummy}
use rust_landlock.Compat.TryCompat.{try_compat}
use rust_landlock.Fs.Rights.{from_all}
use rust_landlock.Fs.PathBeneath.{PathBeneath, path_compat}
use rust_landlock.Fs.PathBeneath.Moves.{IsMove, try_compat-IsMove}
use rust_landlock.Ruleset.Types.{
  RulesetCreated, is_enforced, with_state, set_compatibility_created, set_no_new_privs,
}
use rust_landlock.Ruleset.Handle.Unmet.{IsUnmet}
use rust_landlock.Ruleset.Rules.{path_rule, check_consistency, send_rule, add_compatible, add_rule}
use rust_landlock.Ruleset.Session.{Step, Steps, rule, level, no_new_privs, elsewhere, done, next}

module _ ⦃E : BitFlags⦄ where
  open E use {Flags, empty, contains}

  pub record IsBacked (c : RulesetCreated) : Type 0 where
    -- in a state to enforce in, the descriptor is one that the kernel gave
    pub open_fd : is_enforced c.compat.state ≡ true → pos 0 ≤ℤ c.fd
    pub unmet : IsUnmet c.compat.state c.requested_handled_fs c.compat.abi
    pub begun : c.compat.state ≢ init

  part_apart : (a q f : Flags) → a ⊆ q → q ∩ f ≡ empty → a ∩ f ≡ empty
  part_apart a q f h e = ⊆-empty (a ∩ f) (λ i p.
      subst (λ (x : Flags). has x i ≡ true) e
        (ground (arith, h i, has-intersection a f i, has-intersection q f i)))

  -- A move of the state that keeps `No` from growing keeps a ruleset backed.
  moved_state :
      (s s' : CompatState) (q : Flags) (abi : Abi)
      → IsUnmet s q abi
      → s ≢ init
      → IsMove s s'
      → (s ≡ no_support → (s' ≡ no_support) ⊎ (s' ≡ dummy))
      → IsUnmet s' q abi × (is_enforced s' ≡ true → is_enforced s ≡ true)
  moved_state init s' q abi u n m h = absurd (n refl)
  moved_state full init q abi u n m h = (tt, λ e. refl)
  moved_state full full q abi u n m h = (tt, λ e. refl)
  moved_state full partial q abi u n m h = (tt, λ e. refl)
  moved_state full no_support q abi u n m h = elim (m.stays refl) [ inl e ↦ cc | inr e ↦ cc ]
  moved_state full dummy q abi u n m h = (tt, λ e. refl)
  moved_state partial init q abi u n m h = (tt, λ e. refl)
  moved_state partial full q abi u n m h = (tt, λ e. refl)
  moved_state partial partial q abi u n m h = (tt, λ e. refl)
  moved_state partial no_support q abi u n m h = elim (m.stays refl) [ inl e ↦ cc | inr e ↦ cc ]
  moved_state partial dummy q abi u n m h = (tt, λ e. refl)
  moved_state no_support no_support q abi u n m h = (u, λ e. cc)
  moved_state no_support dummy q abi u n m h = (tt, λ e. cc)
  moved_state no_support init q abi u n m h = elim (h refl) [ inl e ↦ cc | inr e ↦ cc ]
  moved_state no_support full q abi u n m h = elim (h refl) [ inl e ↦ cc | inr e ↦ cc ]
  moved_state no_support partial q abi u n m h = elim (h refl) [ inl e ↦ cc | inr e ↦ cc ]
  moved_state dummy s' q abi u n m h = rw (m.ends refl) (tt, λ e. e)

  module _ ⦃S : Sys⦄ where
    open S use {World}

    send_rule-keeps :
        (r : PathBeneath) (c : RulesetCreated) (w : World) → (send_rule path_rule r (c, w)).1.0 ≡ c
    unfolding send_rule
    send_rule-keeps r c w = ground arith

    add_compatible-keeps :
        (out : Result (Option PathBeneath) (CompatError Flags)) (c : RulesetCreated) (w : World)
        → (add_compatible path_rule out (c, w)).1.0 ≡ c
    unfolding add_compatible
    add_compatible-keeps (ok (some r)) c w = send_rule-keeps r c w
    add_compatible-keeps (ok none) c w = refl
    add_compatible-keeps (err e) c w = refl

    -- The state that the check of a rule leaves.
    abbrev checked : PathBeneath → RulesetCreated → World → CompatState
    checked r c w =
        (try_compat path_compat r c.compat.abi (into c.compat.level) (c.compat.state, w)).1.0

    add_rule-moved :
        (r : PathBeneath) (c : RulesetCreated) (w : World)
        → let c' = (add_rule path_rule r (c, w)).1.0 in
          (c' ≡ c)
          ⊎ ((r.allowed_access ⊆ c.requested_handled_fs) × (c' ≡ with_state (checked r c w) c))
    unfolding add_rule check_consistency
    add_rule-moved r c w = elim (Bool-cases (contains c.requested_handled_fs r.allowed_access)) [
      | inl e ↦ inr (
        (contains_iff c.requested_handled_fs r.allowed_access).0 e,
        rw e (add_compatible-keeps _ (with_state (checked r c w) c) _),
      )
      | inr e ↦ inl (rw e refl)
    ]

    -- What every call keeps of a ruleset, and that it does not make its state full.
    pub record IsKept (c c' : RulesetCreated) : Type 0 where
      pub backed : IsBacked c'
      pub same_fd : c'.fd ≡ c.fd
      pub same_request : c'.requested_handled_fs ≡ c.requested_handled_fs
      pub was_full : c'.compat.state ≡ full → c.compat.state ≡ full

    checked-IsKept :
        (r : PathBeneath) (c : RulesetCreated) (w : World)
        → IsBacked c
        → r.allowed_access ⊆ c.requested_handled_fs
        → IsKept c (with_state (checked r c w) c)
    checked-IsKept r c w b h =
        let (move, stop) =
          try_compat-IsMove r c.compat.abi (into c.compat.level) c.compat.state w in
        let (unmet, stays) =
          moved_state c.compat.state (checked r c w) c.requested_handled_fs c.compat.abi b.unmet
            b.begun move
            (λ e. stop e (
              part_apart r.allowed_access c.requested_handled_fs (from_all c.compat.abi) h (
                subst (λ (x : CompatState). IsUnmet x c.requested_handled_fs c.compat.abi) e
                  b.unmet))) in
        record {
          backed = record {
            open_fd = λ e. b.open_fd (stays e);
            unmet = unmet;
            begun = move.begun b.begun;
          };
          same_fd = refl;
          same_request = refl;
          was_full = move.was_full b.begun;
        }

    unchanged : (c : RulesetCreated) → IsBacked c → IsKept c c
    unchanged c b = record { backed = b; same_fd = refl; same_request = refl; was_full = λ e. e }

    Step-IsKept : {x y : RulesetCreated × World} → Step x y → IsBacked x.0 → IsKept x.0 y.0
    unfolding set_compatibility_created set_no_new_privs
    Step-IsKept (rule r c w) b = elim (add_rule-moved r c w) [
      | inl e ↦ subst (λ (c' : RulesetCreated). IsKept c c') (sym e) (unchanged c b)
      | inr (h, e) ↦ subst (λ (c' : RulesetCreated). IsKept c c') (sym e) (checked-IsKept r c w b h)
    ]
    Step-IsKept (level l c w) b = record {
      backed = record { open_fd = b.open_fd; unmet = b.unmet; begun = b.begun };
      same_fd = refl;
      same_request = refl;
      was_full = λ e. e;
    }
    Step-IsKept (no_new_privs n c w) b = record {
      backed = record { open_fd = b.open_fd; unmet = b.unmet; begun = b.begun };
      same_fd = refl;
      same_request = refl;
      was_full = λ e. e;
    }
    Step-IsKept (elsewhere c w w') b = unchanged c b

    -- From each backed ruleset, whatever calls are made on it, also those that return an error, and
    -- however the system changes: the ruleset stays backed, its descriptor and the rights asked for
    -- are the same, and its state is full only if it was full. Backed is that the descriptor is at
    -- least 0 where the state is Full or Partial, that the ABI has none of the rights asked for where
    -- the state is No, and that the state is not Init.
    pub Steps-IsKept : {x y : RulesetCreated × World} → Steps x y → IsBacked x.0 → IsKept x.0 y.0
    Steps-IsKept {x} done b = unchanged x.0 b
    Steps-IsKept (next s rest) b =
        let first = Step-IsKept s b in
        let others = Steps-IsKept rest first.backed in
        record {
          backed = others.backed;
          same_fd = others.same_fd ∙ first.same_fd;
          same_request = others.same_request ∙ first.same_request;
          was_full = λ e. first.was_full (others.was_full e);
        }
