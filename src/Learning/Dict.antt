-- ===== src/Learning/Dict.antt =====
-- A JavaScript object, or a Map, with text keys: the entries in the order of their first insertion.
use aivirteach_server.Common.{
  ◌≡◌, refl, Bool, true, false, String, Option, none, some, List, [], ◌∷◌, arith, if◌then◌else◌,
  str_eq, eq_iff,
}

abbrev pub Object {ℓ} : Type ℓ → Type ℓ
Object V = List (String × V)

module _ {ℓ} {V : Type ℓ} where
  -- `m[k]`, `m.get(k)`
  unfoldable pub lookup : String → Object V → Option V
  lookup k [] = none
  lookup k ((j, v) ∷ m) = if str_eq j k then some v else lookup k m

  -- `{ ...m, [k]: v }`: a key that is there keeps its place
  unfoldable pub assign : String → V → Object V → Object V
  assign k v [] = (k, v) ∷ []
  assign k v ((j, w) ∷ m) =
      let rest = assign k v m in if str_eq j k then (k, v) ∷ m else (j, w) ∷ rest

  pub lookup-assign :
      (k j : String) (v : V) (m : Object V)
      → lookup j (assign k v m) ≡ (if str_eq k j then some v else lookup j m)
  unfolding lookup assign
  lookup-assign k j v [] = refl
  lookup-assign k j v ((i, w) ∷ m) =
      ground (arith, eq_iff k j, eq_iff i k, eq_iff i j, lookup-assign k j v m)

  -- No key occurs twice.
  abbrev pub has_key : String → Object V → Bool
  has_key k [] = false
  has_key k ((j, v) ∷ m) = if str_eq j k then true else has_key k m

  abbrev pub IsObject : Object V → Type 0
  IsObject [] = Unit {0}
  IsObject ((k, v) ∷ m) = (has_key k m ≡ false) × IsObject m

  has_key-assign :
      (k j : String) (v : V) (m : Object V)
      → has_key j (assign k v m) ≡ (if str_eq k j then true else has_key j m)
  unfolding assign
  has_key-assign k j v [] = refl
  has_key-assign k j v ((i, w) ∷ m) =
      ground (arith, eq_iff k j, eq_iff i k, eq_iff i j, has_key-assign k j v m)

  pub assign-IsObject : (k : String) (v : V) (m : Object V) → IsObject m → IsObject (assign k v m)
  unfolding assign
  assign-IsObject k v [] h = (refl, tt)
  assign-IsObject k v ((i, w) ∷ m) h =
      ground (arith, eq_iff i k, eq_iff k i, has_key-assign k i v m, assign-IsObject k v m h.1)
