-- ===== src/Ruleset/Handle/BestEffort.antt =====
-- What a builder handles after a series of best-effort requests.
use rust_landlock.Prelude.{◌≡◌, refl, ap, subst, ◌∙◌, List, [], ◌∷◌}
use rust_landlock.Uapi.{Sys}
use rust_landlock.BitFlags.{BitFlags, ◌∪◌, ◌∩◌}
use rust_landlock.Compat.Level.{best_effort, into}
use rust_landlock.Compat.State.{of_abi}
use rust_landlock.Compat.Abi.{Abi}
use rust_landlock.Fs.Rights.{from_all}
use rust_landlock.Access.Reported.{IsInvalid}
use rust_landlock.Ruleset.Types.{Ruleset, of_compat}
use rust_landlock.Ruleset.Handle.Grades.{Grades}
use rust_landlock.Ruleset.Handle.{handle_access}
use rust_landlock.Prelude.{inl}
use rust_landlock.Ruleset.Handle.Exact.{IsExact, start-IsExact, handle_access-IsHandled}

module _ ⦃E : BitFlags⦄ where
  open E use {Flags, empty}

  -- All rights of a list of requests.
  abbrev pub requests_union : Flags → List Flags → Flags
  requests_union acc [] = acc
  requests_union acc (a ∷ l) = requests_union (acc ∪ a) l

  abbrev pub AllValid : List Flags → Type 0
  AllValid [] = Unit {0}
  AllValid (a ∷ l) = (¬ IsInvalid a) × AllValid l

  start_lenient : (abi : Abi) → into (of_compat (of_abi abi)).compat.level ≡ best_effort
  unfolding of_compat of_abi into
  start_lenient abi = refl

  module _ ⦃S : Sys⦄ where
    open S use {World}

    -- The builder after a list of requests, made one after the other.
    abbrev pub handle_all : List Flags → Ruleset × World → Ruleset × World
    handle_all [] s = s
    handle_all (a ∷ l) s = handle_all l (handle_access a s).1

    handle_all-IsExact :
        (l : List Flags) (r : Ruleset) (w : World) (abi : Abi)
        → IsExact abi r
        → into r.compat.level ≡ best_effort
        → AllValid l
        → let r' = (handle_all l (r, w)).0 in
          IsExact abi r' × (r'.requested_handled_fs ≡ requests_union r.requested_handled_fs l)
    handle_all-IsExact [] r w abi x lenient v = (x, refl)
    handle_all-IsExact (a ∷ l) r w abi x lenient v =
        let (r', w') = (handle_access a (r, w)).1 in
        let (done, one, same) = handle_access-IsHandled a r w abi x v.0 (inl lenient) in
        let (exact, all_asked) =
          handle_all-IsExact l r' w' abi one.exact (ap into one.same_level ∙ lenient) v.1 in
        (exact, all_asked ∙ ap (λ (q : Flags). requests_union q l) one.asked)

    -- From a fresh builder for an ABI, at the default level, every list of requests, each of at least
    -- one right and of declared rights only, leads to a builder that has recorded the union of the
    -- requests and handles its part in the ABI, and whose state is graded by them: Full has all
    -- rights asked for in the ABI, Partial some but not all, No none, Init is for no request, and
    -- Dummy does not occur.
    pub best_effort_run :
        (abi : Abi) (l : List Flags) (w : World)
        → AllValid l
        → let r = (handle_all l (of_compat (of_abi abi), w)).0 in
          let asked = requests_union empty l in
          (r.requested_handled_fs ≡ asked)
          × (r.actual_handled_fs ≡ asked ∩ from_all abi)
          × Grades r.compat.state asked (from_all abi)
    unfolding of_compat
    best_effort_run abi l w v =
        let (x, asked) =
          handle_all-IsExact l (of_compat (of_abi abi)) w abi (start-IsExact abi)
            (start_lenient abi) v in
        let r = (handle_all l (of_compat (of_abi abi), w)).0 in
        (
          asked,
          x.handled ∙ ap (λ (q : Flags). q ∩ from_all abi) asked,
          subst (λ (q : Flags). Grades r.compat.state q (from_all abi)) asked x.graded,
        )
