-- ===== src/Compat/State/Summary.antt =====
-- The compatibility state after a sequence of updates, described without their order.
use rust_landlock.Prelude.{
  Bool, true, false, ◌&&◌, ◌||◌, List, [], ◌∷◌, foldl, ◌≡◌, ◌≢◌, refl, arith, if◌then◌else◌,
}
use rust_landlock.Compat.State.{CompatState, init, full, partial, no_support, dummy, update}

abbrev is_full : CompatState → Bool
is_full full = true
is_full _ = false

abbrev is_no : CompatState → Bool
is_no no_support = true
is_no _ = false

abbrev is_dummy : CompatState → Bool
is_dummy dummy = true
is_dummy _ = false

abbrev pub any : (CompatState → Bool) → List CompatState → Bool
any p [] = false
any p (s ∷ l) = p s || any p l

abbrev pub all : (CompatState → Bool) → List CompatState → Bool
all p [] = true
all p (s ∷ l) = p s && all p l

-- `Dummy` if there is one, `Full` or `No` if there is nothing else, and `Partial` otherwise.
abbrev pub summary : List CompatState → CompatState
summary [] = init
summary (s ∷ l) =
    if any is_dummy (s ∷ l)
    then dummy
    else if all is_full (s ∷ l)
    then full
    else if all is_no (s ∷ l)
    then no_support
    else partial

-- The states that the code reports.
abbrev pub AllReported : List CompatState → Type 0
AllReported [] = Unit {0}
AllReported (s ∷ l) = (s ≢ init) × AllReported l

foldl-update :
    (s : CompatState) (l : List CompatState)
    → s ≢ init
    → AllReported l
    → foldl update s l ≡ summary (s ∷ l)
unfolding update
foldl-update init l h r = absurd (h refl)
foldl-update full [] h r = refl
foldl-update partial [] h r = refl
foldl-update no_support [] h r = refl
foldl-update dummy [] h r = refl
foldl-update s (x ∷ l) h r = ground (arith, foldl-update (update s x) l)

-- Updates by a list of states other than Init, from Init, leave the summary of the list: Init for
-- none, else Dummy if it has a Dummy, Full if all are Full, No if all are No, and Partial otherwise.
pub foldl-update-init : (l : List CompatState) → AllReported l → foldl update init l ≡ summary l
unfolding update
foldl-update-init [] r = refl
foldl-update-init (s ∷ l) r = foldl-update s l r.0 r.1
