-- ===== src/Base/Set.antt =====
-- `HashSet` as a list without repetitions, and membership in a list.
use mathlib.Core.Path.{◌≡◌, refl}
use mathlib.Core.Bool.{Bool, true, false, ◌||◌}
use mathlib.Core.List.{List, [], ◌∷◌, ◌++◌}
use native.Mathlib.Omega.{arith}
use webmux.Base.Tests.{if◌then◌else◌}
use webmux.Base.Keys.{Key}

module _ {ℓ} {K : Type ℓ} ⦃key : Key K⦄ where
  unfoldable pub contains : K → List K → Bool
  contains k [] = false
  contains k (j ∷ s) = if key.eq j k then true else contains k s

  -- `HashSet::insert`.
  unfoldable pub add : K → List K → List K
  unfolding contains
  add k s = if contains k s then s else k ∷ s

  -- `HashSet::remove`, and `Vec::retain(|x| x != k)`.
  unfoldable pub delete : K → List K → List K
  delete k [] = []
  delete k (j ∷ s) = if key.eq j k then delete k s else j ∷ delete k s

  unfoldable pub delete_all : List K → List K → List K
  delete_all [] s = s
  delete_all (k ∷ ks) s = delete_all ks (delete k s)

  pub contains-add :
      (k j : K) (s : List K) → contains j (add k s) ≡ (if key.eq k j then true else contains j s)
  unfolding contains add
  contains-add k j s = ground (arith, key.eq_iff k j)

  pub contains-delete :
      (k j : K) (s : List K)
      → contains j (delete k s) ≡ (if key.eq k j then false else contains j s)
  unfolding contains delete
  contains-delete k j [] = ground arith
  contains-delete k j (i ∷ s) =
      ground (arith, key.eq_iff k j, key.eq_iff i k, key.eq_iff i j, contains-delete k j s)

  pub contains-delete_all :
      (ks : List K) (k : K) (s : List K)
      → contains k (delete_all ks s) ≡ (if contains k ks then false else contains k s)
  unfolding delete_all contains
  contains-delete_all [] k s = refl
  contains-delete_all (j ∷ ks) k s =
      ground (arith, key.eq_iff j k, contains-delete_all ks k (delete j s), contains-delete j k s)

  pub contains-append :
      (k : K) (xs ys : List K) → contains k (xs ++ ys) ≡ (contains k xs || contains k ys)
  unfolding contains
  contains-append k [] ys = refl
  contains-append k (x ∷ xs) ys = ground (arith, contains-append k xs ys)
