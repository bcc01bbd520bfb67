-- ===== src/Connection/Properties.antt =====
-- connection/connection.go: the properties of a connection, a sync.Map.
use simple_message.Prelude.{
  Bool, true, false, Option, none, some, List, [], ◌∷◌, if◌then◌else◌, lookup, insert, remove, Eq,
  lookup-insert, ◌≡◌, arith,
}

-- Keys and values are of any type that Go can compare.
module _ {K V : Type 0} ⦃k : Eq K⦄ where
  unfoldable pub store_property : K → V → List (K × V) → List (K × V)
  store_property key v m = insert key v m

  unfoldable pub load_property : K → List (K × V) → Option V
  load_property key m = lookup key m

  unfoldable pub delete_property : K → List (K × V) → List (K × V)
  delete_property key m = remove key m

  unfoldable pub clear_property : List (K × V) → List (K × V)
  clear_property m = []

  unfoldable pub load_and_delete_property : K → List (K × V) → Option V × List (K × V)
  load_and_delete_property key m = (lookup key m, remove key m)

  -- The value that is there afterwards, and whether it was there before
  unfoldable pub load_or_store_property : K → V → List (K × V) → V × Bool × List (K × V)
  load_or_store_property key v m = elim (lookup key m) [
    | none ↦ (v, false, insert key v m)
    | some w ↦ (w, true, m)
  ]

  unfoldable pub swap_property : K → V → List (K × V) → Option V × List (K × V)
  swap_property key v m = (lookup key m, insert key v m)

  -- RangeProperty, over the state `W` of the callback, which stops the walk by `false`
  unfoldable pub range_property : {W : Type 0} → (K → V → W → Bool × W) → List (K × V) → W → W
  range_property f [] w = w
  range_property f ((key, v) ∷ m) w =
      let (more, w') = f key v w in let rest = range_property f m w' in if more then rest else w'

abbrev holds : {V : Type 0} ⦃e : Eq V⦄ → Option V → V → Bool
holds none old = false
holds ⦃e⦄ (some v) old = e.beq v old

module _ {K V : Type 0} ⦃k : Eq K⦄ ⦃e : Eq V⦄ where
  unfoldable pub compare_and_delete_property : K → V → List (K × V) → Bool × List (K × V)
  compare_and_delete_property key old m =
      if holds (lookup key m) old then (true, remove key m) else (false, m)

  unfoldable pub compare_and_swap_property : K → V → V → List (K × V) → Bool × List (K × V)
  compare_and_swap_property key old new m =
      if holds (lookup key m) old then (true, insert key new m) else (false, m)

module _ {K V : Type 0} ⦃k : Eq K⦄ where
  pub load-store_self :
      (key : K) (v : V) (m : List (K × V)) → load_property key (store_property key v m) ≡ some v
  unfolding load_property store_property
  load-store_self key v m = ground (arith, lookup-insert key key v m, k.beq_iff key key)
