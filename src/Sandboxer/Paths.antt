-- ===== src/Sandboxer/Paths.antt =====
-- The paths that the sandboxer reads from a variable: splitting at colons and joining with them.
use rust_landlock.Prelude.{
  ℕ, false, List, [], ◌∷◌, ◌++◌, ◌≡◌, refl, sym, subst, ap, ap₂, ◌∙◌, inl, inr, Bool-cases, ◌==◌,
  ==_iff,
}
use rust_landlock.Fs.File.{FilePath}
use rust_landlock.Sandboxer.{colon, onto_first, split, skip_while, pieces}

-- Paths with colons between them.
abbrev pub join : List FilePath → List ℕ
join [] = []
join (p ∷ []) = p
join (p ∷ (q ∷ ps)) = p ++ (colon ∷ join (q ∷ ps))

abbrev pub HasNoColon : FilePath → Type 0
HasNoColon [] = Unit {0}
HasNoColon (b ∷ p) = ((b == colon) ≡ false) × HasNoColon p

abbrev pub NoneHasColon : List FilePath → Type 0
NoneHasColon [] = Unit {0}
NoneHasColon (p ∷ ps) = HasNoColon p × NoneHasColon ps

-- A list with a first piece.
HasFirst : List FilePath → Type 0
HasFirst l = (p : FilePath) × (ps : List FilePath) × (l ≡ p ∷ ps)

onto_first-HasFirst : (b : ℕ) (l : List FilePath) → HasFirst (onto_first b l)
unfolding HasFirst
onto_first-HasFirst b [] = (b ∷ [], [], refl)
onto_first-HasFirst b (p ∷ ps) = (b ∷ p, ps, refl)

split-HasFirst : (bs : List ℕ) → HasFirst (split bs)
unfolding split HasFirst
split-HasFirst [] = ([], [], refl)
split-HasFirst (b ∷ bs) = elim (Bool-cases (b == colon)) [
  | inl h ↦ rw h ([], split bs, refl)
  | inr h ↦ rw h (onto_first-HasFirst b (split bs))
]

join_empty_first : (l : List FilePath) → HasFirst l → join ([] ∷ l) ≡ colon ∷ join l
unfolding HasFirst
join_empty_first l (p, ps, e) = rw e refl

join-onto_first : (b : ℕ) (l : List FilePath) → join (onto_first b l) ≡ b ∷ join l
join-onto_first b [] = refl
join-onto_first b (p ∷ []) = refl
join-onto_first b (p ∷ (q ∷ ps)) = refl

join-split : (bs : List ℕ) → join (split bs) ≡ bs
unfolding split
join-split [] = refl
join-split (b ∷ bs) = elim (Bool-cases (b == colon)) [
  | inl h ↦ rw h (
      join_empty_first (split bs) (split-HasFirst bs)
      ∙ ap₂ ◌∷◌ (sym ((==_iff b colon).0 h)) (join-split bs))
  | inr h ↦ rw h (join-onto_first b (split bs) ∙ ap (◌∷◌ b) (join-split bs))
]

onto_first-NoneHasColon :
    (b : ℕ) (l : List FilePath)
    → (b == colon) ≡ false
    → NoneHasColon l
    → NoneHasColon (onto_first b l)
onto_first-NoneHasColon b [] h f = ((h, tt), tt)
onto_first-NoneHasColon b (p ∷ ps) h f = ((h, f.0), f.1)

split-NoneHasColon : (bs : List ℕ) → NoneHasColon (split bs)
unfolding split
split-NoneHasColon [] = (tt, tt)
split-NoneHasColon (b ∷ bs) = elim (Bool-cases (b == colon)) [
  | inl h ↦ rw h (tt, split-NoneHasColon bs)
  | inr h ↦ rw h (onto_first-NoneHasColon b (split bs) h (split-NoneHasColon bs))
]

split_one : (p : FilePath) → HasNoColon p → split p ≡ p ∷ []
unfolding split
split_one [] f = refl
split_one (b ∷ p) f = rw (f.0) (ap (onto_first b) (split_one p f.1))

split_more : (p : FilePath) (bs : List ℕ) → HasNoColon p → split (p ++ (colon ∷ bs)) ≡ p ∷ split bs
unfolding split
split_more [] bs f = refl
split_more (b ∷ p) bs f = rw (f.0) (ap (onto_first b) (split_more p bs f.1))

split-join :
    (p : FilePath) (ps : List FilePath) → NoneHasColon (p ∷ ps) → split (join (p ∷ ps)) ≡ p ∷ ps
split-join p [] f = split_one p f.0
split-join p (q ∷ ps) f = split_more p (join (q ∷ ps)) f.0 ∙ ap (◌∷◌ p) (split-join q ps f.1)

skip_none : (l : List FilePath) → skip_while (λ _. false) l ≡ l
skip_none [] = refl
skip_none (p ∷ ps) = refl

empty_value : pieces [] ≡ []
unfolding pieces split
empty_value = refl

-- For each value of the variable, the paths visited have no colon and are the value again when they
-- are joined with colons; of the empty value there is none.
pub pieces-join :
    (paths : List ℕ)
    → (join (pieces paths) ≡ paths) × NoneHasColon (pieces paths) × (pieces [] ≡ [])
unfolding pieces
pieces-join [] = (ap join empty_value, subst NoneHasColon (sym empty_value) tt, empty_value)
pieces-join (b ∷ bs) = (
  rw (skip_none (split (b ∷ bs))) (join-split (b ∷ bs)),
  rw (skip_none (split (b ∷ bs))) (split-NoneHasColon (b ∷ bs)),
  empty_value,
)

-- For each list of paths without colons, of which the first is not empty, the paths visited of the
-- value that joins them with colons are these.
pub join-pieces :
    (b : ℕ) (p : FilePath) (ps : List FilePath)
    → NoneHasColon ((b ∷ p) ∷ ps)
    → pieces (join ((b ∷ p) ∷ ps)) ≡ (b ∷ p) ∷ ps
unfolding pieces
join-pieces b p [] f = skip_none (split (b ∷ p)) ∙ split-join (b ∷ p) [] f
join-pieces b p (q ∷ ps) f =
    skip_none (split (join ((b ∷ p) ∷ (q ∷ ps)))) ∙ split-join (b ∷ p) (q ∷ ps) f
