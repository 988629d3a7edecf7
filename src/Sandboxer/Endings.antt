-- ===== src/Sandboxer/Endings.antt =====
-- How `main` of the sandboxer ends on a kernel as documented.
use rust_landlock.Prelude.{
  some, ap, arith, ℕ, Bool, true, false, Option, List, ◌≡◌, ◌≢◌, inl, refl, sym, subst, ◌∙◌,
  bit_and,
}
use rust_landlock.Prelude.Exec.{Result, ok, err, Succeeds, map_err}
use mathlib.Core.List.{Memᴰ}
use rust_landlock.Prelude.Int.{ℤ}
use rust_landlock.Fs.File.{FilePath, open_path, own}
use rust_landlock.Uapi.{Sys, IoError}
use rust_landlock.BitFlags.{BitFlags, ◌∩◌, ◌∪◌}
use rust_landlock.BitFlags.Sets.{intersection-⊆_right}
use rust_landlock.Errors.{RulesetError, PathFdError, open_call}
use rust_landlock.Compat.Abi.{Abi, unsupported, v1, v2, v3}
use rust_landlock.Compat.Level.{best_effort}
use rust_landlock.Compat.State.{CompatState, init, full, partial, no_support, dummy}
use rust_landlock.Fs.Rights.{from_all, from_read, access_file}
use rust_landlock.Fs.Rights.Tables.{
  nothing_left, all_bits, bits-from_all, bits-from_read, bits-access_file,
}
use rust_landlock.Fs.PathBeneath.{valid_access}
use rust_landlock.Ruleset.Types.{Ruleset, RulesetCreated, status_of, default}
use rust_landlock.Ruleset.Create.{create}
use rust_landlock.Ruleset.Restrict.{restrict_self}
use rust_landlock.Ruleset.Session.Live.{IsLive, Standing, enforcing, idle, Starts, create-IsLive}
use rust_landlock.Ruleset.Session.Live.Built.{Built, handle_access-Built, empty-union}
use rust_landlock.Ruleset.Session.Live.Rules.{Serves}
use rust_landlock.Ruleset.Session.Live.Ends.{restrict_self_ends}
use rust_landlock.Ruleset.Session.Paths.{owned, handle_access_owned}
use rust_landlock.Ruleset.Session.Paths.Documented.{default-Built}
use rust_landlock.Kernel.{View, IsDocumented, OpenedAs}
use rust_landlock.Scenarios.Rights.{
  IsKnown, IsKnown-ne, IsKnown-valid, ne_bits, sub_bits, Serves-directory,
}
use rust_landlock.Sandboxer.{
  pieces, MainError, not_supported, Ending, error, command, ending_of, finish, after_second,
  after_first, after_create, after_handle, main, env_fs_ro_name, env_fs_rw_name,
}
use rust_landlock.Sandboxer.Variables.{Either, Missing, variable, unopened, add_paths-Either}

some_inj : {A : Type 0} {a b : A} → some a ≡ some b → a ≡ b
some_inj h = ground arith

module _ ⦃S : Sys⦄ ⦃E : BitFlags⦄ where
  open S use {World}
  open E use {Flags, empty, bits, bits-empty, bits-intersection, bits_inj}

  all_asked : IsKnown (from_all v3) 0x7fff
  all_asked = record { word = bits-from_all v3; some_right = refl; declared = refl }

  read_asked : IsKnown (from_read v3) 13
  read_asked = record { word = bits-from_read v3; some_right = refl; declared = refl }

  -- What the ABI has of rights, from their word, and what of it makes sense for a file.
  kept_bits :
      (a : Flags) (n : ℕ) (abi : Abi)
      → bits a ≡ n
      → bits (a ∩ from_all abi) ≡ bit_and n (all_bits abi)
  kept_bits a n abi e = simp (bits-intersection, bits-from_all, e)

  file_bits :
      (a : Flags) (n : ℕ) (abi : Abi)
      → bits a ≡ n
      → bits (a ∩ from_all abi ∩ access_file) ≡ bit_and (bit_and n (all_bits abi)) 0x4007
  file_bits a n abi e = simp (bits-intersection, bits-from_all, bits-access_file, e)

  Serves-all : (file : Bool) (abi : Abi) → Serves (from_all v3) file abi
  unfolding valid_access
  Serves-all false abi ne = Serves-directory (from_all v3) abi ne
  Serves-all true unsupported ne = absurd (ne (nothing_left (from_all v3)))
  Serves-all true v1 ne = ne_bits _ 7 (file_bits (from_all v3) 0x7fff v1 all_asked.word) refl
  Serves-all true v2 ne = ne_bits _ 7 (file_bits (from_all v3) 0x7fff v2 all_asked.word) refl
  Serves-all true v3 ne = ne_bits _ 0x4007 (file_bits (from_all v3) 0x7fff v3 all_asked.word) refl

  Serves-read : (file : Bool) (abi : Abi) → Serves (from_read v3) file abi
  unfolding valid_access
  Serves-read false abi ne = Serves-directory (from_read v3) abi ne
  Serves-read true unsupported ne = absurd (ne (nothing_left (from_read v3)))
  Serves-read true v1 ne = ne_bits _ 5 (file_bits (from_read v3) 13 v1 read_asked.word) refl
  Serves-read true v2 ne = ne_bits _ 5 (file_bits (from_read v3) 13 v2 read_asked.word) refl
  Serves-read true v3 ne = ne_bits _ 5 (file_bits (from_read v3) 13 v3 read_asked.word) refl

  -- Only a kernel without Landlock has none of the rights.
  only_unsupported : (abi : Abi) → (from_all v3 ∩ from_all abi ≡ empty → abi ≡ unsupported)
  only_unsupported unsupported z = refl
  only_unsupported v1 z =
      absurd (ne_bits _ 0x1fff (kept_bits (from_all v3) 0x7fff v1 all_asked.word) refl z)
  only_unsupported v2 z =
      absurd (ne_bits _ 0x3fff (kept_bits (from_all v3) 0x7fff v2 all_asked.word) refl z)
  only_unsupported v3 z =
      absurd (ne_bits _ 0x7fff (kept_bits (from_all v3) 0x7fff v3 all_asked.word) refl z)

  module _ (V : View) (D : IsDocumented V) where
    -- The ending that the kernel and the environment leave, with the last state of the system.
    pub data EndsBy (var_os : List ℕ → Option (List ℕ)) : Ending × World → Type 0 where
      runs : (w : World) → V.abi ≢ unsupported → EndsBy var_os (command, w)
      refuses : (w : World) → V.abi ≡ unsupported → EndsBy var_os (error not_supported, w)
      misses_ro :
          (e : MainError) (w : World)
          → Missing V D var_os env_fs_ro_name e w
          → EndsBy var_os (error e, w)
      misses_rw :
          (e : MainError) (w : World)
          → Missing V D var_os env_fs_rw_name e w
          → EndsBy var_os (error e, w)

    abbrev Live : RulesetCreated → World → Type 0
    Live c w = IsLive V V.abi (from_all v3) c w

    module _ (var_os : List ℕ → Option (List ℕ)) where
      stands_for :
          (s : CompatState) (b : Bool) (c : RulesetCreated) (w w' : World)
          → c.compat.state ≡ s
          → Standing V (from_all v3 ∩ from_all V.abi) c w
          → EndsBy var_os (ending_of (ok (record { status = status_of s; no_new_privs = b })), w')
      unfolding status_of
      stands_for init b c w w' e (enforcing ne on r) = cc
      stands_for init b c w w' e (idle z s) = cc
      stands_for full b c w w' e (enforcing ne on r) =
          runs w' (λ u. ne (rw u (nothing_left (from_all v3))))
      stands_for full b c w w' e (idle z s) = cc
      stands_for partial b c w w' e (enforcing ne on r) =
          runs w' (λ u. ne (rw u (nothing_left (from_all v3))))
      stands_for partial b c w w' e (idle z s) = cc
      stands_for no_support b c w w' e (enforcing ne on r) = cc
      stands_for no_support b c w w' e (idle z s) = refuses w' (only_unsupported V.abi z)
      stands_for dummy b c w w' e (enforcing ne on r) = cc
      stands_for dummy b c w w' e (idle z s) = cc

      finish_ends : (c : RulesetCreated) (w : World) → Live c w → EndsBy var_os (finish c w)
      unfolding finish
      finish_ends c w live =
          rw (restrict_self_ends V D V.abi (from_all v3) c w live)
            (stands_for c.compat.state true c w (restrict_self c w).1 refl live.standing)

      after_second_ends :
          (m : Result RulesetCreated MainError × World)
          → Either Live (Missing V D var_os env_fs_rw_name) m
          → EndsBy var_os (after_second m)
      unfolding after_second
      after_second_ends (ok c, w) live = finish_ends c w live
      after_second_ends (err e, w) gone = misses_rw e w gone

      after_first_ends :
          (m : Result RulesetCreated MainError × World)
          → Either Live (Missing V D var_os env_fs_ro_name) m
          → EndsBy var_os (after_first var_os m)
      unfolding after_first
      after_first_ends (ok c, w) live = after_second_ends _ (
          add_paths-Either V D (from_all v3) var_os env_fs_rw_name (from_all v3) c w
            (record {
              valid = IsKnown-valid (from_all v3) 0x7fff all_asked;
              within = sub_bits _ _ 0x7fff 0x7fff all_asked.word all_asked.word refl;
              serves = λ file. Serves-all file V.abi;
            })
            live)
      after_first_ends (err e, w) gone = misses_ro e w gone

      after_create_ends :
          (P : RulesetCreated → World → Type 0)
          (m : Result RulesetCreated (RulesetError Flags) × World)
          → Succeeds P m
          → ((c : RulesetCreated) (w : World) → P c w → Live c w)
          → EndsBy var_os (after_create var_os m)
      unfolding after_create
      after_create_ends P (ok c, w) h k = after_first_ends _ (
          add_paths-Either V D (from_all v3) var_os env_fs_ro_name (from_read v3) c w
            (record {
              valid = IsKnown-valid (from_read v3) 13 read_asked;
              within = sub_bits _ _ 13 0x7fff read_asked.word all_asked.word refl;
              serves = λ file. Serves-read file V.abi;
            })
            (k c w h))
      after_create_ends P (err e, w) h k = absurd h

      Built-ends :
          (r : Ruleset) (w : World)
          → Built V V.abi best_effort (from_all v3) r w
          → EndsBy var_os (after_create var_os (create r w))
      Built-ends r w b =
          after_create_ends (Starts V V.abi r w) (create r w)
            (create-IsLive V V.abi r w D b.exact b.at_level
              (λ z. IsKnown-ne (from_all v3) 0x7fff all_asked (sym b.asked_for ∙ z)) b.ready
              (rw b.exact.handled (intersection-⊆_right r.requested_handled_fs (from_all V.abi))))
            (λ c w' (live, kept, same_state).
              subst (λ (a : Flags). IsLive V V.abi a c w') b.asked_for live)

      after_handle_ends :
          (m : Result (Unit {0}) (RulesetError Flags) × (Ruleset × World))
          → Succeeds (Built V V.abi best_effort (empty ∪ from_all v3)) (owned m)
          → EndsBy var_os (after_handle var_os m)
      unfolding after_handle
      after_handle_ends (ok u, (r, w)) b =
          Built-ends r w
            (subst (λ (a : Flags). Built V V.abi best_effort a r w) (empty-union (from_all v3)) b)
      after_handle_ends (err e, (r, w)) b = absurd b

    -- On a kernel that keeps to its documentation, in a state in which no resource is used up, and for
    -- each environment: main does not panic, and ends in one of three ways. It goes on to the command
    -- only if the kernel has Landlock; it returns the error that Landlock is not supported only if the
    -- kernel has not; or it returns the error of one of its two variables: that it is not set, or
    -- that a path in its value could not be opened. The last is the error of the open, in a state in
    -- which no resource is used up, and nothing follows it but the drop of a ruleset.
    pub main_ends :
        (var_os : List ℕ → Option (List ℕ)) (w : World) → V.Ready w → EndsBy var_os (main var_os w)
    unfolding main handle_access_owned
    main_ends var_os w ready = after_handle_ends var_os _ (
        handle_access-Built V V.abi best_effort empty (from_all v3) (default w).0 (default w).1
          (IsKnown-valid (from_all v3) 0x7fff all_asked) (inl refl) (default-Built V D w ready))

    -- The variable is set, to paths at which there is a file or a directory that can be reached.
    pub record IsReachable (var_os : List ℕ → Option (List ℕ)) (name : List ℕ) : Type 0 where
      pub value : List ℕ
      pub is_set : var_os name ≡ some value
      pub there : (p : FilePath) → Memᴰ p (pieces value) → (file : Bool) × V.IsPath p file

    -- How `main` ends where nothing is missing.
    abbrev pub ended : Abi → Ending
    ended unsupported = error not_supported
    ended _ = command

    can_open :
        (p : FilePath) (file : Bool) (e : PathFdError) (w : World)
        → V.Ready w
        → V.IsPath p file
        → ¬ ((open_path p w).0 ≡ err e)
    unfolding open_path
    can_open p file e w ready is_path = of_open _ (D.opened_as p file w ready is_path)
      where
        of_open :
            (m : Result ℤ IoError × World)
            → OpenedAs V file w m
            → ¬ (own (map_err (λ x. open_call x p) m.0) ≡ err e)
        of_open (ok fd, w') o h = cc
        of_open (err x, w') o h = absurd o

    not-Missing :
        (var_os : List ℕ → Option (List ℕ)) (name : List ℕ) (e : MainError) (w : World)
        → IsReachable var_os name
        → ¬ Missing V D var_os name e w
    not-Missing var_os name e w r (variable c w' unset) = cc (r.is_set, unset)
    not-Missing var_os name e w r (unopened value p x c w' is_set m ready failed) =
        let same : value ≡ r.value = some_inj (sym is_set ∙ r.is_set) in
        let (file, is_path) = r.there p (subst (λ (v : List ℕ). Memᴰ p (pieces v)) same m) in
        can_open p file (open_call x p) w' ready is_path failed

    of_ending :
        (var_os : List ℕ → Option (List ℕ)) {m : Ending × World}
        → IsReachable var_os env_fs_ro_name
        → IsReachable var_os env_fs_rw_name
        → EndsBy var_os m
        → m.0 ≡ ended V.abi
    of_ending var_os ro rw' (runs w supported) = by_abi V.abi supported
      where
        by_abi : (abi : Abi) → abi ≢ unsupported → command ≡ ended abi
        by_abi unsupported n = absurd (n refl)
        by_abi v1 n = refl
        by_abi v2 n = refl
        by_abi v3 n = refl
    of_ending var_os ro rw' (refuses w e) = ap ended (sym e)
    of_ending var_os ro rw' (misses_ro e w m) = absurd (not-Missing var_os _ e w ro m)
    of_ending var_os ro rw' (misses_rw e w m) = absurd (not-Missing var_os _ e w rw' m)

    -- On a kernel that keeps to its documentation, in a state in which no resource is used up, for each
    -- environment in which both variables are set, and all paths of their values reach a file or a
    -- directory: main comes to the command if the kernel has Landlock, of any ABI, and otherwise
    -- returns the error that Landlock is not supported.
    pub main_restricts :
        (var_os : List ℕ → Option (List ℕ)) (w : World)
        → V.Ready w
        → IsReachable var_os env_fs_ro_name
        → IsReachable var_os env_fs_rw_name
        → (main var_os w).0 ≡ ended V.abi
    main_restricts var_os w ready ro rw' = of_ending var_os ro rw' (main_ends var_os w ready)
