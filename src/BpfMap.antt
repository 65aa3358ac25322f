-- ===== src/BpfMap.antt =====
-- The kernel's hash maps as aya shows them to the programs: not code of the repository, so an
-- interface with the documented behaviour of `get` and `insert` (flags 0, which is BPF_ANY).
use rust_samples.Prelude.{
  ℕ, ◌≡◌, ◌⊎◌, List, Option, none, some, arith, ltb, length, if◌then◌else◌, Key,
}
use rust_samples.Prelude.Maps.{lookup, insert, lookup-insert}

pub record BpfMap (K V : Type 0) (e : Key K) : Type 1 where
  pub State : Type 0
  pub get : K → State → Option V
  -- `none` is an error: the map is full, or memory is short.
  pub put : K → V → State → Option State
  pub get-put :
      (k j : K) (v : V) (s s' : State)
      → put k v s ≡ some s'
      → get j s' ≡ (if e.beq k j then some v else get j s)

-- An entry after an insert is the new one or an old one.
pub get-put_cases :
    {K V : Type 0} {e : Key K} (m : BpfMap K V e) (k j : K) (v r : V) (s s' : m.State)
    → m.put k v s ≡ some s'
    → m.get j s' ≡ some r
    → ((k ≡ j) × (v ≡ r)) ⊎ (m.get j s ≡ some r)
get-put_cases {e} m k j v r s s' h g = ground (arith, m.get-put k j v s s' h, e.beq_iff k j)

-- A map of bounded size meets the interface.
module _ {K V : Type 0} (e : Key K) (max_entries : ℕ) where
  unfoldable pub bounded_put : K → V → List (K × V) → Option (List (K × V))
  bounded_put k v m =
      let m' = insert ⦃e = e⦄ k v m in if ltb max_entries (length m') then none else some m'

  pub bounded-get-put :
      (k j : K) (v : V) (m m' : List (K × V))
      → bounded_put k v m ≡ some m'
      → lookup ⦃e = e⦄ j m' ≡ (if e.beq k j then some v else lookup ⦃e = e⦄ j m)
  unfolding bounded_put
  bounded-get-put k j v m m' h = ground (arith, lookup-insert ⦃e = e⦄ k j v m)

  abbrev pub bounded_map : BpfMap K V e
  bounded_map = record {
    State = List (K × V);
    get = lookup ⦃e = e⦄;
    put = bounded_put;
    get-put = bounded-get-put;
  }
