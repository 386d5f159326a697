-- ===== src/Prelude/Maps.antt =====
-- `Map` and `Set`: keys in the order in which they were first inserted.
use mathlib.Core.Path.{◌≡◌, refl}
use mathlib.Core.Bool.{Bool, false, not, ◌&&◌, ◌||◌}
use mathlib.Core.Option.{Option, none, some}
use mathlib.Core.List.{List, [], ◌∷◌, ◌++◌}
use native.Mathlib.Omega.{arith}
use skrivle.Prelude.Tests.{Keyed, ◌==◌, ==_iff, if◌then◌else◌}

module _ {ℓ} {K : Type 0} ⦃e : Keyed K⦄ {V : Type ℓ} where
  -- m.get(k)
  unfoldable pub find : K → List (K × V) → Option V
  find k [] = none
  find k ((j, v) ∷ m) = if j == k then some v else find k m

  -- m.set(k, v): an old key keeps its place, a new one goes last.
  unfoldable pub put : K → V → List (K × V) → List (K × V)
  put k v [] = (k, v) ∷ []
  put k v ((j, w) ∷ m) = if j == k then (k, v) ∷ m else (j, w) ∷ put k v m

  -- m.delete(k)
  unfoldable pub remove : K → List (K × V) → List (K × V)
  remove k [] = []
  remove k ((j, v) ∷ m) = if j == k then remove k m else (j, v) ∷ remove k m

  pub find-put :
      (k j : K) (v : V) (m : List (K × V))
      → find j (put k v m) ≡ (if k == j then some v else find j m)
  unfolding find put
  find-put k j v [] = refl
  find-put k j v ((i, w) ∷ m) = ground (arith, ==_iff k j, ==_iff i k, ==_iff i j, find-put k j v m)

  pub find-remove :
      (k j : K) (m : List (K × V)) → find j (remove k m) ≡ (if k == j then none else find j m)
  unfolding find remove
  find-remove k j [] = ground arith
  find-remove k j ((i, w) ∷ m) =
      ground (arith, ==_iff k j, ==_iff i k, ==_iff i j, find-remove k j m)

module _ {K : Type 0} ⦃e : Keyed K⦄ where
  -- s.has(k), xs.includes(k)
  unfoldable pub has : K → List K → Bool
  has k [] = false
  has k (j ∷ s) = j == k || has k s

  -- s.add(k)
  unfoldable pub add : K → List K → List K
  add k [] = k ∷ []
  add k (j ∷ s) = if j == k then j ∷ s else j ∷ add k s

  -- s.delete(k)
  unfoldable pub without : K → List K → List K
  without k [] = []
  without k (j ∷ s) = if j == k then without k s else j ∷ without k s

  pub has-add : (k j : K) (s : List K) → has j (add k s) ≡ (k == j || has j s)
  unfolding has add
  has-add k j [] = refl
  has-add k j (i ∷ s) = ground (arith, ==_iff k j, ==_iff i k, ==_iff i j, has-add k j s)

  pub has-without : (k j : K) (s : List K) → has j (without k s) ≡ (not (k == j) && has j s)
  unfolding has without
  has-without k j [] = ground arith
  has-without k j (i ∷ s) = ground (arith, ==_iff k j, ==_iff i k, ==_iff i j, has-without k j s)

  pub has-append : (k : K) (s t : List K) → has k (s ++ t) ≡ (has k s || has k t)
  unfolding has
  has-append k [] t = refl
  has-append k (i ∷ s) t = ground (arith, has-append k s t)

pub ruleset map_laws = (find-put, find-remove, has-add, has-without, has-append)
