-- ===== src/Tests/Builder.antt =====
-- The theorems on levels, states, rights and the builder, at concrete inputs.
use rust_landlock.Prelude.{
  ◌≤◌, ◌≡◌, ◌≢◌, ◌↔◌, ◌⊎◌, ◌&&◌, not, inl, inr, refl, ap, true, some, List, [], ◌∷◌, foldl, arith,
}
use rust_landlock.Prelude.Exec.{ok}
use rust_landlock.Prelude.Int.{pos, ◌≤ℤ◌}
use rust_landlock.BitFlags.{execute, read_file, refer, discriminant, bits_of, ◌∩◌, ◌∪◌}
use rust_landlock.BitFlags.Digits.{has, ◌⊆◌, contains_iff}
use rust_landlock.BitFlags.Model.{Word, words}
use rust_landlock.Compat.Abi.{Abi, unsupported, v1, v2, v3, to_int, from}
use rust_landlock.Compat.Abi.Bounds.{from_greatest}
use rust_landlock.Compat.Level.{
  best_effort, soft_requirement, hard_requirement, rank, into, tailored_compat_level,
}
use rust_landlock.Compat.Level.Tailored.{tailored_compat_level_strictest}
use rust_landlock.Compat.State.{CompatState, init, full, no_support, update, of_abi}
use rust_landlock.Compat.State.Summary.{AllReported, summary, foldl-update-init}
use rust_landlock.Compat.TryCompat.{try_compat}
use rust_landlock.Fs.Rights.{from_read, from_write, from_all}
use rust_landlock.Fs.Rights.Tables.{rights_partition, from_all_grows}
use rust_landlock.Access.{full_negation, check_access, access_compat}
use rust_landlock.Access.Difference.{has-difference}
use rust_landlock.Access.Verdict.{Verdict, check_access-Verdict}
use rust_landlock.Access.Reported.{Reported, IsInvalid, try_compat-Reported}
use rust_landlock.Ruleset.Types.{Ruleset, of_compat, set_compatibility}
use rust_landlock.Ruleset.Handle.{handle_access}
use rust_landlock.Ruleset.Handle.Invariant.{IsValid, start-IsValid, handle_access-IsValid}
use rust_landlock.Ruleset.Handle.Grades.{Grades}
use rust_landlock.Ruleset.Handle.Accepted.{handle_access-ok_iff}
use rust_landlock.Ruleset.Handle.BestEffort.{requests_union, AllValid, handle_all, best_effort_run}
use rust_landlock.Tests.Kernel.{kernel}
open words use {Flags, make_bitflags, complement, all, empty}

-- Rights of which the first ABI has all but one.
abbrev asked : Flags
asked = make_bitflags (read_file ∷ refer ∷ [])

from_greatest_example :
    ((a : Abi) → to_int a ≤ℤ pos 7 → to_int a ≤ℤ to_int (from (pos 7)))
    × (pos 0 ≤ℤ pos 7 → to_int (from (pos 7)) ≤ℤ pos 7)
    × (pos 7 ≤ℤ pos 0 → from (pos 7) ≡ unsupported)
from_greatest_example = from_greatest (pos 7)

tailored_compat_level_strictest_example :
    let level = tailored_compat_level (some soft_requirement) hard_requirement in
    (rank hard_requirement ≤ rank level)
    × (rank (into (some soft_requirement)) ≤ rank level)
    × ((level ≡ hard_requirement) ⊎ (some soft_requirement ≡ some level))
    × (tailored_compat_level (some soft_requirement) level ≡ level)
tailored_compat_level_strictest_example =
    tailored_compat_level_strictest (some soft_requirement) hard_requirement

abbrev reports : List CompatState
reports = full ∷ no_support ∷ full ∷ []

reports-AllReported : AllReported reports
reports-AllReported = (λ e. cc, (λ e. cc, (λ e. cc, tt)))

foldl-update-init_example : foldl update init reports ≡ summary reports
foldl-update-init_example = foldl-update-init reports reports-AllReported

rights_partition_example :
    (from_read v2 ≡ complement (from_write v2) ∩ from_all v2)
    × (from_write v2 ≡ complement (from_read v2) ∩ from_all v2)
rights_partition_example = rights_partition v2

from_all_grows_example : (from_all v1 ⊆ from_all v2) × (from_all v3 ≡ all)
from_all_grows_example = from_all_grows v1 v2 (omega arith)

has-difference_example :
    has (asked ∩ full_negation (from_all v1)) 13 ≡ has asked 13 && not (has (from_all v1) 13)
has-difference_example = has-difference asked (from_all v1) 13

check_access-Verdict_example : Verdict asked v1 (check_access asked v1)
check_access-Verdict_example = check_access-Verdict asked v1

try_compat-Reported_example :
    let (out, (s', w')) = try_compat access_compat asked v1 best_effort (init, 0) in
    Reported asked v1 best_effort init out s' × (w' ≡ 0)
try_compat-Reported_example = try_compat-Reported asked v1 best_effort init 0

abbrev fresh : Ruleset
fresh = of_compat (of_abi v1)

handle_access-IsValid_example :
    let (res, (r', w')) = handle_access asked (fresh, 0) in
    IsValid r'
    × (r'.requested_handled_fs ≡ fresh.requested_handled_fs ∪ asked)
    × (r'.compat.state ≢ init)
    × (w' ≡ 0)
handle_access-IsValid_example = handle_access-IsValid asked fresh 0 (start-IsValid v1)

abbrev strict : Ruleset
strict = set_compatibility hard_requirement fresh

handle_access-ok_iff_example : ((handle_access asked (strict, 0)).0 ≡ ok tt) ↔ (
    (¬ IsInvalid asked)
    × (into strict.compat.level ≡ hard_requirement → asked ⊆ from_all strict.compat.abi))
handle_access-ok_iff_example = handle_access-ok_iff asked strict 0

abbrev series : List Flags
series = make_bitflags (execute ∷ []) ∷ asked ∷ []

known_right : (a : Flags) → a.0 ≢ 0 → words.contains all a ≡ true → ¬ IsInvalid a
known_right a ne h bad = elim bad [
  | inl e ↦ ne (ap (λ (x : Word). x.0) e)
  | inr u ↦ u ((contains_iff all a).0 h)
]

series-AllValid : AllValid series
unfolding bits_of discriminant
series-AllValid = (
  known_right (make_bitflags (execute ∷ [])) (λ e. omega (arith, e)) refl,
  (known_right asked (λ e. omega (arith, e)) refl, tt),
)

best_effort_run_example :
    let r = (handle_all series (fresh, 0)).0 in
    let all_asked = requests_union empty series in
    (r.requested_handled_fs ≡ all_asked)
    × (r.actual_handled_fs ≡ all_asked ∩ from_all v1)
    × Grades r.compat.state all_asked (from_all v1)
best_effort_run_example = best_effort_run v1 series 0 series-AllValid
