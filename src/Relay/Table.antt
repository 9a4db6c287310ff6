-- ===== src/Relay/Table.antt =====
-- The table of streams in shards: `shard_for` and the lookups of crates/stross-kernel/src/relay/state.rs.
-- An entry type is left open, since the table does not look into its entries.
pub mod Shards
use Prim.Native.Nat.{bit_xor}
use stross.Base.{ℕ, ◌+◌, ◌*◌, ◌%◌, ◌^◌, Bool, List, [], ◌∷◌, ◌++◌, Option, replicate, get_or, set}
use stross.Base.Keyed
use stross.Base.Keyed.{is_some}
use stross.Proto.Message.{Text, Text-discrete}

abbrev pub stream_shards : ℕ
stream_shards = 16

-- The loop of `shard_for` over the bytes of an id; the hash is a `u64`.
unfoldable pub hash_bytes : ℕ → Text → ℕ
hash_bytes h [] = h
hash_bytes h (b ∷ bs) = hash_bytes ((bit_xor h b * 0x100000001b3) % 2 ^ 64) bs

-- `& (STREAM_SHARDS - 1)` is the remainder by the power of two.
unfoldable pub shard_for : Text → ℕ
unfolding hash_bytes
shard_for id = hash_bytes 0x811c9dc5 id % stream_shards

module _ {ℓ} {A : Type ℓ} where
  unfoldable pub empty_table : List (List (Text × A))
  empty_table = replicate stream_shards []

  -- The shard in which an id is looked up and stored.
  unfoldable pub shard : Text → List (List (Text × A)) → List (Text × A)
  shard id t = get_or t (shard_for id) []

  unfoldable pub get : Text → List (List (Text × A)) → Option A
  unfolding shard
  get id t = Keyed.lookup Text-discrete id (shard id t)

  unfoldable pub insert : Text → A → List (List (Text × A)) → List (List (Text × A))
  unfolding shard
  insert id a t = set t (shard_for id) (Keyed.insert Text-discrete id a (shard id t))

  -- The table without the id, and whether it was there.
  unfoldable pub remove : Text → List (List (Text × A)) → List (List (Text × A)) × Bool
  unfolding shard get
  remove id t =
      (set t (shard_for id) (Keyed.remove Text-discrete id (shard id t)), is_some (get id t))

  -- All entries, shard after shard.
  unfoldable pub entries : List (List (Text × A)) → List (Text × A)
  entries [] = []
  entries (m ∷ t) = m ++ entries t
