-- ===== src/Compat/Level/Tailored.antt =====
-- Tailoring a level to an object never relaxes it.
use rust_landlock.Prelude.{Option, some, ◌≤◌, ◌≡◌, ◌⊎◌, arith}
use rust_landlock.Compat.Level.{CompatLevel, rank, into, tailored_compat_level}

-- For each own level, if any, and parent level, the tailored level is at least as strict as the
-- parent's and as the own one (best effort without one), is one of the two, and tailoring it once
-- more changes nothing.
pub tailored_compat_level_strictest :
    (own : Option CompatLevel) (parent : CompatLevel)
    → let level = tailored_compat_level own parent in
      (rank parent ≤ rank level)
      × (rank (into own) ≤ rank level)
      × ((level ≡ parent) ⊎ (own ≡ some level))
      × (tailored_compat_level own level ≡ level)
unfolding tailored_compat_level into
tailored_compat_level_strictest own parent = ground arith
