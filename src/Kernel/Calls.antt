-- ===== src/Kernel/Calls.antt =====
-- The crate's wrappers of the calls, on a kernel as documented.
use rust_landlock.Prelude.{Bool, true, some, ◌≡◌, ◌≢◌, ap, ◌∙◌}
use rust_landlock.Prelude.Exec.{ok}
use rust_landlock.Prelude.Int.{ℤ, pos, negsuc, ◌≤ℤ◌}
use rust_landlock.Uapi.{Sys, landlock_create_ruleset, landlock_add_rule, landlock_restrict_self}
use rust_landlock.Uapi.Words.{as_c_int, as_c_int_in_range}
use rust_landlock.BitFlags.{BitFlags}
use rust_landlock.BitFlags.Digits.{◌⊆◌}
use rust_landlock.Compat.Abi.{from, new_current}
use rust_landlock.Fs.Rights.{from_all, access_file}
use rust_landlock.Fs.File.{is_file}
use rust_landlock.Kernel.{View, Keeps, IsDocumented, refusal}

module _ ⦃S : Sys⦄ ⦃E : BitFlags⦄ where
  open S use {errno, World, fstat, s_ifmt, s_ifdir}
  open E use {Flags, bits, empty, all}

  module _ (V : View) where
    open V use {abi, Ready, IsRuleset, IsOpen, HasNoNewPrivs}

    pub Keeps-refl : {w : World} → Ready w → Keeps V w w
    Keeps-refl h = record {
      ready = h;
      rulesets = λ fd x p. p;
      files = λ fd x p. p;
      no_new_privs = λ p. p;
    }

    pub Keeps-trans : {w w' w'' : World} → Keeps V w w' → Keeps V w' w'' → Keeps V w w''
    Keeps-trans h k = record {
      ready = k.ready;
      rulesets = λ fd x p. k.rulesets fd x (h.rulesets fd x p);
      files = λ fd x p. k.files fd x (h.files fd x p);
      no_new_privs = λ p. k.no_new_privs (h.no_new_privs p);
    }

    -- The reply to the request for a ruleset.
    abbrev pub Made : Flags → World → ℤ × World → Type 0
    Made h w (fd, w') = (pos 0 ≤ℤ fd) × V.IsRuleset w' fd h × Keeps V w w'

    -- The reply to a request with rights that the kernel does not know.
    abbrev pub Denied : ℤ × World → Type 0
    Denied (fd, w') = (fd ≡ negsuc 0) × (errno w' ≡ refusal V abi)

    module _ (D : IsDocumented V) where
      pub create_ruleset-Made :
          (h : Flags) (w : World)
          → Ready w
          → h ≢ empty
          → h ⊆ from_all abi
          → Made h w (
              landlock_create_ruleset
                (some (record { handled_access_fs = bits h; handled_access_net = 0 }))
                16
                0
                w)
      unfolding landlock_create_ruleset
      create_ruleset-Made h w r ne sub =
          let (small, ge, made, kept) = D.create_made h w r ne sub in
          rw (as_c_int_in_range _ small) (ge, made, kept)

      pub create_ruleset-Denied :
          (h : Flags) (w : World)
          → Ready w
          → h ⊆ all
          → ¬ (h ⊆ from_all abi)
          → Denied (
              landlock_create_ruleset
                (some (record { handled_access_fs = bits h; handled_access_net = 0 }))
                16
                0
                w)
      unfolding landlock_create_ruleset as_c_int
      create_ruleset-Denied h w r declared beyond =
          let (negative, told, kept) = D.create_refused h w r declared beyond in
          (ap as_c_int negative, told)

      pub add_rule_done :
          (fd parent : ℤ) (h a : Flags) (file : Bool) (w : World)
          → Ready w
          → IsRuleset w fd h
          → IsOpen w parent file
          → a ≢ empty
          → a ⊆ h
          → (file ≡ true → a ⊆ access_file)
          → let (ret, w') =
              landlock_add_rule fd 1 (record { allowed_access = bits a; parent_fd = parent }) 0 w in
            (ret ≡ pos 0) × Keeps V w w'
      unfolding landlock_add_rule as_c_int
      add_rule_done fd parent h a file w r is_ruleset is_open ne sub of_file =
          let (zero_ret, kept) =
            D.rule_added fd parent h a file w r is_ruleset is_open ne sub of_file in
          (ap as_c_int zero_ret, kept)

      pub restrict_self_done :
          (fd : ℤ) (h : Flags) (w : World)
          → Ready w
          → IsRuleset w fd h
          → HasNoNewPrivs w
          → (landlock_restrict_self fd 0 w).0 ≡ pos 0
      unfolding landlock_restrict_self as_c_int
      restrict_self_done fd h w r is_ruleset nnp =
          ap as_c_int (D.restricted fd h w r is_ruleset nnp)

      pub is_file_told :
          (fd : ℤ) (file : Bool) (w : World)
          → Ready w
          → IsOpen w fd file
          → let (res, w') = is_file fd w in (res ≡ ok file) × Keeps V w w'
      unfolding is_file
      is_file_told fd file w r is_open =
          let (zero_ret, told, kept) = D.type_told fd file w r is_open in
          rw zero_ret (ap (λ (b : Bool). ok b) told, kept)

      pub version_told :
          (w : World) → Ready w → let (told, w') = new_current w in (told ≡ abi) × Keeps V w w'
      unfolding new_current landlock_create_ruleset
      version_told w r =
          let (small, told, status, none_yet, some_abi, kept) = D.version w r in
          (ap from (as_c_int_in_range _ small) ∙ told, kept)
