-- ===== src/Common/Table.antt =====
-- A `BTreeMap<String, V>`: an association list in the order of its keys. Clients have the laws of
-- `table_laws` and the operations shut.
pub mod Ordered
use Prim.Native.Nat.{suc, ◌≤◌, ◌<◌}
use mathlib.Core.Path.{◌≡◌, refl}
use mathlib.Core.Bool.{Bool, true, false, ◌||◌}
use mathlib.Core.Logic.{inl, inr}
use mathlib.Core.Option.{Option, none, some}
use mathlib.Core.List.{List, [], ◌∷◌}
use native.Mathlib.Omega.{arith}
use dotagent.Common.Tests.{ltb, ◌==◌, if◌then◌else◌, Bool-cases}
use dotagent.Common.Lists.{length}
use dotagent.Common.Text.{Text, text_eq, text_eq_iff}

-- the order of two keys: by their bytes, which is by their code points
abbrev text_ltb : Text → Text → Bool
text_ltb [] [] = false
text_ltb [] (d ∷ t) = true
text_ltb (c ∷ s) [] = false
text_ltb (c ∷ s) (d ∷ t) = let rest = text_ltb s t in if c == d then rest else ltb c d

abbrev pub Table {ℓ} : Type ℓ → Type ℓ
Table V = List (Text × V)

pub refl_text : (k : Text) → text_eq k k ≡ true
refl_text k = (text_eq_iff k k).1 refl

module _ {ℓ} {V : Type ℓ} where
  unfoldable pub get : Table V → Text → Option V
  get [] k = none
  get ((j, v) ∷ m) k = if text_eq j k then some v else get m k

  unfoldable pub insert : Table V → Text → V → Table V
  insert [] k v = (k, v) ∷ []
  insert ((j, w) ∷ m) k v =
      let later = insert m k v in
      if text_eq j k
      then (k, v) ∷ m
      else (if text_ltb k j then (k, v) ∷ (j, w) ∷ m else (j, w) ∷ later)

  -- keeps the entries whose key passes the test
  unfoldable pub retain_keys : (Text → Bool) → Table V → Table V
  retain_keys p [] = []
  retain_keys p ((j, v) ∷ m) = let rest = retain_keys p m in if p j then (j, v) ∷ rest else rest

  unfoldable pub remove : Table V → Text → Table V
  unfolding retain_keys
  remove m k = retain_keys (λ j. if text_eq j k then false else true) m

  -- does some key pass the test?
  unfoldable pub any_key : (Text → Bool) → Table V → Bool
  any_key p [] = false
  any_key p ((j, v) ∷ m) = p j || any_key p m

  pub get-insert :
      (m : Table V) (k j : Text) (v : V)
      → get (insert m k v) j ≡ (if text_eq k j then some v else get m j)
  unfolding get insert
  get-insert [] k j v = refl
  get-insert ((i, w) ∷ m) k j v =
      ground (arith, text_eq_iff k j, text_eq_iff i k, text_eq_iff i j, get-insert m k j v)

  pub get-insert_self : (m : Table V) (k : Text) (v : V) → get (insert m k v) k ≡ some v
  get-insert_self m k v = rw (get-insert m k k v, refl_text k) refl

  pub get-retain_keys :
      (p : Text → Bool) (m : Table V) (j : Text)
      → get (retain_keys p m) j ≡ (if p j then get m j else none)
  unfolding get retain_keys
  get-retain_keys p [] j = ground arith
  get-retain_keys p ((i, w) ∷ m) j = elim (Bool-cases (text_eq i j)) [
    | inl e ↦ rw ((text_eq_iff i j).0 e) (ground (arith, get-retain_keys p m j, refl_text j))
    | inr n ↦ ground (arith, get-retain_keys p m j)
  ]

  pub get-remove :
      (m : Table V) (k j : Text) → get (remove m k) j ≡ (if text_eq j k then none else get m j)
  unfolding remove
  get-remove m k j = ground (arith, get-retain_keys (λ j. if text_eq j k then false else true) m j)

  pub length-insert : (m : Table V) (k : Text) (v : V) → length (insert m k v) ≤ suc (length m)
  unfolding insert
  length-insert [] k v = omega arith
  length-insert ((j, w) ∷ m) k v = ground (arith, length-insert m k v)

  pub length-retain_keys : (p : Text → Bool) (m : Table V) → length (retain_keys p m) ≤ length m
  unfolding retain_keys
  length-retain_keys p [] = omega arith
  length-retain_keys p ((j, w) ∷ m) = ground (arith, length-retain_keys p m)

  -- removing a key that is there makes the table smaller
  pub length-remove :
      (m : Table V) (k : Text) (v : V) → get m k ≡ some v → length (remove m k) < length m
  unfolding get remove
  length-remove [] k v h = cc
  length-remove ((j, w) ∷ m) k v h =
      ground (
        arith,
        length-retain_keys (λ j. if text_eq j k then false else true) m,
        length-remove m k v,
      )

pub ruleset table_laws = (get-insert, get-remove, get-retain_keys)
