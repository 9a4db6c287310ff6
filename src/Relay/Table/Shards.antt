-- ===== src/Relay/Table/Shards.antt =====
-- The sharded table behaves as one map.
use mathlib.Core.Logic.{ite, if_neg}
use stross.Base.{
  ◌<◌, ◌≡◌, ◌≢◌, refl, ap, ap₂, ◌∙◌, List, [], ◌∷◌, Option, none, some, length, get_or, set,
  get_or-set, get_or-replicate, length-set, arith, ◌==◌, if◌then◌else◌, inl, inr, Bool-cases, ==→eq,
  true, false,
}
use stross.Base.Keyed
use stross.Base.Keyed.{is_some}
use stross.Proto.Message.{Text, Text-discrete}
use stross.Relay.Table.{stream_shards, shard_for, empty_table, shard, get, insert, remove}

pub shard_for-lt : (id : Text) → shard_for id < stream_shards
unfolding shard_for
shard_for-lt id = omega arith

ne_of_shard : (k j : Text) → (shard_for k == shard_for j) ≡ false → j ≢ k
ne_of_shard k j h e = ground (arith, ap shard_for e)

module _ {ℓ} {A : Type ℓ} where
  shard_eq :
      (k j : Text) (t : List (List (Text × A)))
      → (shard_for k == shard_for j) ≡ true
      → shard k t ≡ shard j t
  unfolding shard
  shard_eq k j t same = ap (λ i. get_or t i []) (==→eq _ _ same)

  -- The shard of `j` when the shard of `k` is replaced.
  shard-set :
      (k j : Text) (m : List (Text × A)) (t : List (List (Text × A)))
      → length t ≡ stream_shards
      → shard j (set t (shard_for k) m) ≡ (if shard_for k == shard_for j then m else shard j t)
  unfolding shard
  shard-set k j m t h =
      get_or-set t (shard_for k) (shard_for j) m [] (omega (arith, shard_for-lt k))

  pub get-insert :
      (k j : Text) (a : A) (t : List (List (Text × A)))
      → length t ≡ stream_shards
      → get j (insert k a t) ≡ ite (Text-discrete j k) (some a) (get j t)
  unfolding get insert
  get-insert k j a t h =
      rw (shard-set k j (Keyed.insert Text-discrete k a (shard k t)) t h)
        (elim (Bool-cases (shard_for k == shard_for j)) [
          | inl same ↦ rw same (
              Keyed.lookup-insert Text-discrete k j a (shard k t)
              ∙ ap (λ m. ite (Text-discrete j k) (some a) (Keyed.lookup Text-discrete j m))
                  (shard_eq k j t same))
          | inr other ↦ rw (other, if_neg _ (ne_of_shard k j other)) refl
        ])

  pub get-remove :
      (k j : Text) (t : List (List (Text × A)))
      → length t ≡ stream_shards
      → get j ((remove k t).0) ≡ ite (Text-discrete j k) none (get j t)
  unfolding get remove
  get-remove k j t h =
      rw (shard-set k j (Keyed.remove Text-discrete k (shard k t)) t h)
        (elim (Bool-cases (shard_for k == shard_for j)) [
          | inl same ↦ rw same (
              Keyed.lookup-remove Text-discrete k j (shard k t)
              ∙ ap (λ m. ite (Text-discrete j k) none (Keyed.lookup Text-discrete j m))
                  (shard_eq k j t same))
          | inr other ↦ rw (other, if_neg _ (ne_of_shard k j other)) refl
        ])

  pub length-insert :
      (k : Text) (a : A) (t : List (List (Text × A))) → length (insert k a t) ≡ length t
  unfolding insert
  length-insert k a t = length-set t (shard_for k) _

  pub length-remove : (k : Text) (t : List (List (Text × A))) → length ((remove k t).0) ≡ length t
  unfolding remove
  length-remove k t = length-set t (shard_for k) _

-- The operations of a table, and what they answer.
pub data Op {ℓ} (A : Type ℓ) : Type ℓ where
  look : Text → Op A
  put : Text → A → Op A
  take_out : Text → Op A

module _ {ℓ} {A : Type ℓ} where
  pub run : List (List (Text × A)) → List (Op A) → List (Option A)
  run t [] = []
  run t (look k ∷ ops) = get k t ∷ run t ops
  run t (put k a ∷ ops) = run (insert k a t) ops
  run t (take_out k ∷ ops) = run ((remove k t).0) ops

  -- One map from ids to entries.
  pub run_map : (Text → Option A) → List (Op A) → List (Option A)
  run_map f [] = []
  run_map f (look k ∷ ops) = f k ∷ run_map f ops
  run_map f (put k a ∷ ops) = run_map (λ j. ite (Text-discrete j k) (some a) (f j)) ops
  run_map f (take_out k ∷ ops) = run_map (λ j. ite (Text-discrete j k) none (f j)) ops

  run-run_map :
      (t : List (List (Text × A))) (f : Text → Option A) (ops : List (Op A))
      → length t ≡ stream_shards
      → ((j : Text) → get j t ≡ f j)
      → run t ops ≡ run_map f ops
  unfolding run run_map
  run-run_map t f [] h e = refl
  run-run_map t f (look k ∷ ops) h e = ap₂ ◌∷◌ (e k) (run-run_map t f ops h e)
  run-run_map t f (put k a ∷ ops) h e =
      run-run_map (insert k a t) (λ j. ite (Text-discrete j k) (some a) (f j)) ops
        (length-insert k a t ∙ h)
        (λ j. get-insert k j a t h ∙ ap (ite (Text-discrete j k) (some a)) (e j))
  run-run_map t f (take_out k ∷ ops) h e =
      run-run_map ((remove k t).0) (λ j. ite (Text-discrete j k) none (f j)) ops
        (length-remove k t ∙ h) (λ j. get-remove k j t h ∙ ap (ite (Text-discrete j k) none) (e j))

  pub get-empty_table : (j : Text) → get j (empty_table {A = A}) ≡ none
  unfolding get shard empty_table
  get-empty_table j =
      ap (Keyed.lookup Text-discrete j) (get_or-replicate stream_shards (shard_for j) [])

  -- Any sequence of lookups, insertions and removals on an empty sharded table answers as on one map.
  pub run-empty_table : (ops : List (Op A)) → run empty_table ops ≡ run_map (λ j. none) ops
  unfolding empty_table
  run-empty_table ops = run-run_map empty_table (λ j. none) ops refl get-empty_table
