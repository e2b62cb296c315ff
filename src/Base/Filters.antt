-- ===== src/Base/Filters.antt =====
-- Filters of lists in two parts.
use mathlib.Core.List.{List, [], ◌∷◌, ◌++◌, Mem, filter, mem-cons_self, mem-cons_of_mem}
use mathlib.Core.Logic.{if_pos, if_neg}
use mathlib.Core.Path.{◌≡◌, refl, ap, ◌∙◌}

module _ {ℓ π} {A : Type ℓ} {P : A → Type π} (d : (x : A) → Dec (P x)) where
  filter_all : (xs : List A) → ((x : A) → Mem x xs → P x) → filter d xs ≡ xs
  filter_all [] h = refl
  filter_all (x ∷ xs) h =
      if_pos (d x) (h x mem-cons_self) _ _
      ∙ ap (◌∷◌ x) (filter_all xs (λ y m. h y (mem-cons_of_mem x m)))

  filter_none : (xs : List A) → ((x : A) → Mem x xs → ¬ P x) → filter d xs ≡ []
  filter_none [] h = refl
  filter_none (x ∷ xs) h =
      if_neg (d x) (h x mem-cons_self) _ _ ∙ filter_none xs (λ y m. h y (mem-cons_of_mem x m))

  -- The first part is kept and the second dropped.
  pub filter_parts :
      (xs ys : List A)
      → ((x : A) → Mem x xs → P x)
      → ((x : A) → Mem x ys → ¬ P x)
      → filter d (xs ++ ys) ≡ xs
  filter_parts [] ys kept dropped = filter_none ys dropped
  filter_parts (x ∷ xs) ys kept dropped =
      if_pos (d x) (kept x mem-cons_self) _ _
      ∙ ap (◌∷◌ x) (filter_parts xs ys (λ y m. kept y (mem-cons_of_mem x m)) dropped)

  -- The first part is dropped and the second kept.
  pub filter_rest :
      (xs ys : List A)
      → ((x : A) → Mem x xs → ¬ P x)
      → ((x : A) → Mem x ys → P x)
      → filter d (xs ++ ys) ≡ ys
  filter_rest [] ys dropped kept = filter_all ys kept
  filter_rest (x ∷ xs) ys dropped kept =
      if_neg (d x) (dropped x mem-cons_self) _ _
      ∙ filter_rest xs ys (λ y m. dropped y (mem-cons_of_mem x m)) kept
