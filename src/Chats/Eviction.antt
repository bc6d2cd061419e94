-- ===== src/Chats/Eviction.antt =====
-- `evict_oldest`, which both tables share in shape: while there are more than `max` entries, the
-- oldest goes.
pub mod Oldest
use dotagent.Common.{
  ℕ, zero, suc, Option, none, some, List, [], ◌∷◌, ltb, leb, if◌then◌else◌, length,
}
use dotagent.Common.Text.{Text}
use dotagent.Common.Table
use dotagent.Common.Table.{Table}

module _ {V : Type 0} (at : V → ℕ) where
  -- `min_by_key`: the first of the entries with the least time
  first_min : Text → ℕ → Table V → Text
  first_min k t [] = k
  first_min k t ((j, v) ∷ m) =
      let younger = first_min k t m in
      let older = first_min j (at v) m in if ltb (at v) t then older else younger

  oldest : Table V → Option Text
  unfolding first_min
  oldest [] = none
  oldest ((k, v) ∷ m) = some (first_min k (at v) m)

  -- the `match` of the loop
  drop_key : Option Text → Table V → Table V
  drop_key none m = m
  drop_key (some k) m = Table.remove m k

  -- the loop, on at most as many rounds as there are entries
  evict_rounds : ℕ → ℕ → Table V → Table V
  unfolding oldest drop_key
  evict_rounds zero max m = m
  evict_rounds (suc rounds) max m =
      let next = evict_rounds rounds max (drop_key (oldest m) m) in
      if leb (length m) max then m else next

  unfoldable pub evict_oldest : ℕ → Table V → Table V
  unfolding evict_rounds
  evict_oldest max m = evict_rounds (length m) max m
