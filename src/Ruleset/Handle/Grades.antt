-- ===== src/Ruleset/Handle/Grades.antt =====
-- The compatibility state as a summary of the rights asked for by best-effort requests.
use rust_landlock.Prelude.{◌≡◌, ◌≢◌, ◌⊎◌, inl, inr}
use rust_landlock.BitFlags.{BitFlags, ◌∪◌, ◌∩◌}
use rust_landlock.BitFlags.Digits.{◌⊆◌, intersection_of_subset}
use rust_landlock.BitFlags.Sets.{
  ⊆-empty, union-empty, ⊆-union_left, ⊆-union_right, union-⊆, ne_mono, disjoint-not-⊆, ⊆-of_empty,
  intersection-union, intersection-⊆_left,
}
use rust_landlock.Compat.State.{CompatState, init, full, partial, no_support, dummy, update}

module _ ⦃E : BitFlags⦄ where
  open E use {Flags, empty}

  -- What the state says of the rights asked for by best-effort requests, under an ABI whose rights
  -- are `f`: whether all, some or none of them are there. `No` is also the state in which a builder
  -- starts where the kernel has no right at all.
  abbrev pub Grades : CompatState → (requested f : Flags) → Type 0
  Grades init requested f = requested ≡ empty
  Grades full requested f = (requested ≢ empty) × (requested ⊆ f)
  Grades partial requested f = (requested ∩ f ≢ empty) × (¬ (requested ⊆ f))
  Grades no_support requested f = (requested ∩ f ≡ empty) × ((requested ≢ empty) ⊎ (f ≡ empty))
  Grades dummy requested f = ⊥

  ne_union : (a b : Flags) → b ≢ empty → a ∪ b ≢ empty
  ne_union a b = ne_mono b (a ∪ b) (⊆-union_right a b)

  not_within : (a b f : Flags) → ¬ (a ⊆ f) → ¬ (a ∪ b ⊆ f)
  not_within a b f h k = h (λ i p. k i (⊆-union_left a a b (λ j q. q) i p))

  not_within_right : (a b f : Flags) → ¬ (b ⊆ f) → ¬ (a ∪ b ⊆ f)
  not_within_right a b f h k = h (λ i p. k i (⊆-union_right a b i p))

  -- The parts of two sets that lie in `f`.
  meets_left : (a b f : Flags) → a ∩ f ≢ empty → (a ∪ b) ∩ f ≢ empty
  meets_left a b f h =
      rw (intersection-union a b f)
        (ne_mono (a ∩ f) _ (⊆-union_left (a ∩ f) (a ∩ f) (b ∩ f) (λ i p. p)) h)

  meets_right : (a b f : Flags) → b ∩ f ≢ empty → (a ∪ b) ∩ f ≢ empty
  meets_right a b f h = rw (intersection-union a b f) (ne_union (a ∩ f) (b ∩ f) h)

  pub apart : (a b f : Flags) → a ∩ f ≡ empty → b ∩ f ≡ empty → (a ∪ b) ∩ f ≡ empty
  apart a b f h k = rw (intersection-union a b f, h, k) (union-empty empty)

  meets_within : (a f : Flags) → a ⊆ f → a ≢ empty → a ∩ f ≢ empty
  meets_within a f h ne = rw (intersection_of_subset a f h) ne

  nothing_within : (a f : Flags) → a ⊆ f → a ≢ empty → f ≢ empty
  nothing_within a f h ne = ne_mono a f h ne

  pub Grades-granted :
      (s : CompatState) (req a f : Flags)
      → Grades s req f
      → a ≢ empty
      → a ⊆ f
      → Grades (update s full) (req ∪ a) f
  unfolding update
  Grades-granted init req a f g ne h = (ne_union req a ne, union-⊆ req a f (⊆-of_empty req f g) h)
  Grades-granted full req a f g ne h = (ne_union req a ne, union-⊆ req a f g.1 h)
  Grades-granted partial req a f g ne h = (meets_left req a f g.0, not_within req a f g.1)
  Grades-granted no_support req a f (e, inl r) ne h =
      (meets_right req a f (meets_within a f h ne), not_within req a f (disjoint-not-⊆ req f e r))
  Grades-granted no_support req a f (e, inr r) ne h = absurd (nothing_within a f h ne r)
  Grades-granted dummy req a f g ne h = absurd g

  pub Grades-reduced :
      (s : CompatState) (req a f : Flags)
      → Grades s req f
      → a ∩ f ≢ empty
      → ¬ (a ⊆ f)
      → Grades (update s partial) (req ∪ a) f
  unfolding update
  Grades-reduced init req a f g m h = (meets_right req a f m, not_within_right req a f h)
  Grades-reduced full req a f g m h = (meets_right req a f m, not_within_right req a f h)
  Grades-reduced partial req a f g m h = (meets_right req a f m, not_within_right req a f h)
  Grades-reduced no_support req a f g m h = (meets_right req a f m, not_within_right req a f h)
  Grades-reduced dummy req a f g m h = absurd g

  pub Grades-skipped :
      (s : CompatState) (req a f : Flags)
      → Grades s req f
      → a ≢ empty
      → a ∩ f ≡ empty
      → Grades (update s no_support) (req ∪ a) f
  unfolding update
  Grades-skipped init req a f g ne e = (
    apart req a f (⊆-empty (req ∩ f) (rw g (intersection-⊆_left empty f))) e,
    inl (ne_union req a ne),
  )
  Grades-skipped full req a f g ne e = (
    meets_left req a f (meets_within req f g.1 g.0),
    not_within_right req a f (disjoint-not-⊆ a f e ne),
  )
  Grades-skipped partial req a f g ne e = (meets_left req a f g.0, not_within req a f g.1)
  Grades-skipped no_support req a f g ne e = (apart req a f g.0 e, inl (ne_union req a ne))
  Grades-skipped dummy req a f g ne e = absurd g
