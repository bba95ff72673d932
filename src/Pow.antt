-- ===== src/Pow.antt =====
-- bclib/pow.go: proof of work, and `NewBlock` of bclib/block.go, which mines.
pub mod Validity
use miner.Prelude.{
  ℕ, zero, suc, ◌+◌, ◌-◌, ◌*◌, ◌/◌, ◌%◌, ◌^◌, ◌≡◌, Bool, true, false, Option, none, some, List, [],
  ◌∷◌, ◌++◌, foldl, ltb, ◌==◌, if◌then◌else◌,
}
use miner.Prelude.Int.{ℤ, pos, negsuc, bits_64}
use miner.Prelude.Bytes.{Bytes}
use miner.Operation.{Operation, Codec}
use miner.Block.{Block, Header}

pub record ProofOfWork : Type 0 where
  pub block : Block
  pub difficulty : ℕ

-- math.MaxInt64
abbrev pub max_nonce : ℕ
max_nonce = 2 ^ 63 - 1

unfoldable pub new_proof_of_work : Block → ℕ → ProofOfWork
new_proof_of_work b difficulty = record { block = b; difficulty = difficulty * 4 }

-- The `k` low bytes of `n`, big-endian.
abbrev pub big_endian : ℕ → ℕ → Bytes
big_endian zero n = []
big_endian (suc k) n = big_endian k (n / 256) ++ (n % 256) ∷ []

unfoldable pub int_to_hex : ℤ → Bytes
int_to_hex num = big_endian 8 (bits_64 num)

-- big.Int.SetBytes
abbrev pub set_bytes : Bytes → ℕ
set_bytes = foldl (λ acc b. acc * 256 + b) 0

-- The test `hashInt.Cmp(&rshHashInt) == 0` after Rsh and Lsh by `difficulty`.
unfoldable pub meets : ℕ → Bytes → Bool
meets difficulty hash =
    let hash_int = set_bytes hash in hash_int == hash_int / 2 ^ difficulty * 2 ^ difficulty

-- `var hash [16]byte`
abbrev pub zero_hash : Bytes
zero_hash = 0 ∷ 0 ∷ 0 ∷ 0 ∷ 0 ∷ 0 ∷ 0 ∷ 0 ∷ 0 ∷ 0 ∷ 0 ∷ 0 ∷ 0 ∷ 0 ∷ 0 ∷ 0 ∷ []

unfoldable pub unmined : List Operation → Bytes → Bytes → ℤ → Block
unmined ops prev_hash m_id now = record {
  header = record { timestamp = now; operations = ops; previous_hash = prev_hash };
  miner_id = m_id;
  hash = [];
  nonce = pos 0;
}

abbrev pub seal : Block → Option (ℤ × Bytes) → Option Block
seal b none = none
seal b (some (nonce, hash)) = some (record b { hash = hash; nonce = nonce })

module _ (c : Codec) where
  -- `operations` stays empty for a block with none
  unfoldable pub encode_operations : List Operation → Bytes
  encode_operations [] = []
  encode_operations (o ∷ ops) = c.marshall_operations (o ∷ ops)

  unfoldable pub prepare_data : ProofOfWork → ℤ → Bytes
  unfolding encode_operations int_to_hex
  prepare_data pow nonce =
      pow.block.previous_hash
      ++ (encode_operations pow.block.operations
          ++ (pow.block.miner_id
              ++ (int_to_hex pow.block.timestamp
                  ++ (int_to_hex (pos pow.difficulty) ++ int_to_hex nonce))))

  unfoldable pub validate : ProofOfWork → Bool
  unfolding meets
  validate pow = meets pow.difficulty (c.md5 (prepare_data pow pow.block.nonce))

  -- The loop of `Run`. `stopped n` says whether `stop` can be received from in round `n`, and `none`
  -- that the fuel ran out. `hash` is the last one computed.
  unfoldable pub run : (ℕ → Bool) → ℕ → ProofOfWork → ℕ → Bytes → Option (ℤ × Bytes)
  run stopped zero pow nonce hash = none
  run stopped (suc fuel) pow nonce hash =
      let hash' = c.md5 (prepare_data pow (pos nonce)) in
      let rest = run stopped fuel pow (nonce + 1) hash' in
      if ltb nonce max_nonce
      then (if stopped nonce
          then some (negsuc 0, [])
          else if meets pow.difficulty hash'
          then some (pos nonce, hash')
          else rest)
      else some (pos nonce, hash)

  unfoldable pub new_block : (ℕ → Bool) → ℕ → List Operation → Bytes → Bytes → ℕ → ℤ → Option Block
  unfolding unmined new_proof_of_work
  new_block stopped fuel ops prev_hash m_id difficulty now =
      let block = unmined ops prev_hash m_id now in
      seal block (run stopped fuel (new_proof_of_work block difficulty) 0 zero_hash)
