-- ===== src/Base/Map.antt =====
-- `HashMap` as an association list with one entry for each key. The order of the entries is the
-- order in which the model iterates; the program's order is unspecified.
use mathlib.Core.Path.{◌≡◌, refl}
use mathlib.Core.Bool.{Bool, false}
use mathlib.Core.Option.{Option, none, some}
use mathlib.Core.List.{List, [], ◌∷◌}
use native.Mathlib.Omega.{arith}
use webmux.Base.Tests.{if◌then◌else◌}
use webmux.Base.Keys.{Key}
use webmux.Base.Set.{contains}

abbrev pub mapped {ℓ} : {A : Type ℓ} → (A → A) → Option A → Option A
mapped f none = none
mapped f (some a) = some (f a)

module _ {ℓ κ} {K : Type ℓ} {V : Type κ} ⦃key : Key K⦄ where
  unfoldable pub get : K → List (K × V) → Option V
  get k [] = none
  get k ((j, v) ∷ m) = if key.eq j k then some v else get k m

  unfoldable pub insert : K → V → List (K × V) → List (K × V)
  insert k v [] = (k, v) ∷ []
  insert k v ((j, w) ∷ m) = if key.eq j k then (k, v) ∷ m else (j, w) ∷ insert k v m

  unfoldable pub remove : K → List (K × V) → List (K × V)
  remove k [] = []
  remove k ((j, v) ∷ m) = if key.eq j k then remove k m else (j, v) ∷ remove k m

  pub get-insert :
      (k j : K) (v : V) (m : List (K × V))
      → get j (insert k v m) ≡ (if key.eq k j then some v else get j m)
  unfolding get insert
  get-insert k j v [] = refl
  get-insert k j v ((i, w) ∷ m) =
      ground (arith, key.eq_iff k j, key.eq_iff i k, key.eq_iff i j, get-insert k j v m)

  pub get-remove :
      (k j : K) (m : List (K × V)) → get j (remove k m) ≡ (if key.eq k j then none else get j m)
  unfolding get remove
  get-remove k j [] = ground arith
  get-remove k j ((i, w) ∷ m) =
      ground (arith, key.eq_iff k j, key.eq_iff i k, key.eq_iff i j, get-remove k j m)

  -- One entry for each key.
  abbrev pub Distinct : List (K × V) → Type κ
  Distinct [] = Unit
  Distinct ((k, v) ∷ m) = (get k m ≡ none) × Distinct m

  pub insert-Distinct : (k : K) (v : V) (m : List (K × V)) → Distinct m → Distinct (insert k v m)
  unfolding insert get
  insert-Distinct k v [] d = (refl, tt)
  insert-Distinct k v ((j, w) ∷ m) d =
      ground (arith, key.eq_iff j k, key.eq_iff k j, get-insert k j v m, insert-Distinct k v m d.1)

  pub remove-Distinct : (k : K) (m : List (K × V)) → Distinct m → Distinct (remove k m)
  unfolding remove
  remove-Distinct k [] d = tt
  remove-Distinct k ((j, w) ∷ m) d =
      ground (arith, key.eq_iff j k, get-remove k j m, remove-Distinct k m d.1)

  -- `m.iter().filter(p).map(|(k, _)| k)`.
  unfoldable pub keys_where : (K → V → Bool) → List (K × V) → List K
  keys_where p [] = []
  keys_where p ((k, v) ∷ m) = if p k v then k ∷ keys_where p m else keys_where p m

  -- The removals of a list of keys, in turn.
  unfoldable pub remove_all : List K → List (K × V) → List (K × V)
  remove_all [] m = m
  remove_all (k ∷ ks) m = remove_all ks (remove k m)

  abbrev pub satisfies : (K → V → Bool) → K → Option V → Bool
  satisfies p k none = false
  satisfies p k (some v) = p k v

  pub contains-keys_where :
      (p : K → V → Bool) (k : K) (m : List (K × V))
      → Distinct m
      → contains k (keys_where p m) ≡ satisfies p k (get k m)
  unfolding keys_where get contains
  contains-keys_where p k [] d = refl
  contains-keys_where p k ((j, v) ∷ m) d =
      ground (arith, key.eq_iff j k, contains-keys_where p k m d.1)

  pub get-remove_all :
      (ks : List K) (k : K) (m : List (K × V))
      → get k (remove_all ks m) ≡ (if contains k ks then none else get k m)
  unfolding remove_all contains
  get-remove_all [] k m = refl
  get-remove_all (j ∷ ks) k m =
      ground (arith, key.eq_iff j k, get-remove_all ks k (remove j m), get-remove j k m)

  pub remove_all-Distinct :
      (ks : List K) (m : List (K × V)) → Distinct m → Distinct (remove_all ks m)
  unfolding remove_all
  remove_all-Distinct [] m d = d
  remove_all-Distinct (k ∷ ks) m d = remove_all-Distinct ks (remove k m) (remove-Distinct k m d)

  -- An entry is changed in place, if it is there (`get_mut`, and an `UPDATE` of one row).
  unfoldable pub modify : K → (V → V) → List (K × V) → List (K × V)
  modify k f [] = []
  modify k f ((j, v) ∷ m) = if key.eq j k then (j, f v) ∷ modify k f m else (j, v) ∷ modify k f m

  pub get-modify :
      (k j : K) (f : V → V) (m : List (K × V))
      → get j (modify k f m) ≡ (if key.eq k j then mapped f (get j m) else get j m)
  unfolding get modify
  get-modify k j f [] = ground arith
  get-modify k j f ((i, v) ∷ m) =
      ground (arith, key.eq_iff k j, key.eq_iff i k, key.eq_iff i j, get-modify k j f m)

  pub modify-Distinct :
      (k : K) (f : V → V) (m : List (K × V)) → Distinct m → Distinct (modify k f m)
  unfolding modify
  modify-Distinct k f [] d = tt
  modify-Distinct k f ((j, v) ∷ m) d = ground (arith, get-modify k j f m, modify-Distinct k f m d.1)
