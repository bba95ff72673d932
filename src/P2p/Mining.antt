-- ===== src/P2p/Mining.antt =====
-- `startMining` of p2p/p2p_rpc.go: when a worker is started, and which blocks it mines are added. A
-- case of the `select` is a function of one message.
pub mod Starts
use miner.Prelude.{ℕ, Bool, true, false, List, [], ◌∷◌, ◌++◌, ltb, if◌then◌else◌}
use miner.Prelude.Int.{ℤ, pos, negsuc}
use miner.Block.{Block}

-- `isMining`, and whether `worker` is not nil.
pub record Mining : Type 0 where
  pub is_mining : Bool
  pub has_worker : Bool

pub data Message : Type 0 where
  mine stop_mining stop : Message
  finished : Block → Message

-- What is done: a goroutine of the worker, a block for the chain manager, `worker.Stop()`.
pub data Deed : Type 0 where
  starts halts : Deed
  adds : Block → Deed

-- `panics`: a method of a nil worker reads a field.
pub data Turn : Type 0 where
  goes : Mining → List Deed → Turn
  returns panics : Turn

-- block.Nonce > 0
abbrev pub is_positive : ℤ → Bool
is_positive (pos n) = ltb 0 n
is_positive (negsuc n) = false

-- case <-ms.mine
unfoldable pub on_mine : Mining → Turn
on_mine m =
    if m.is_mining
    then goes m []
    else if m.has_worker
    then goes (record m { is_mining = true }) (starts ∷ [])
    else panics

-- case block := <-finishedMining
unfoldable pub on_finished : Mining → Block → Turn
on_finished m block =
    if is_positive block.nonce
    then goes (record m { is_mining = false }) (adds block ∷ [])
    else goes m []

-- case <-ms.stopMining
unfoldable pub on_stop_mining : Mining → Turn
on_stop_mining m =
    if m.has_worker then goes (record m { has_worker = false }) (halts ∷ []) else goes m []

-- case <-ms.stop
unfoldable pub on_stop : Mining → Turn
on_stop m = if m.has_worker then returns else goes m []

unfoldable pub take_message : Mining → Message → Turn
unfolding on_mine on_finished on_stop_mining on_stop
take_message m mine = on_mine m
take_message m (finished block) = on_finished m block
take_message m stop_mining = on_stop_mining m
take_message m stop = on_stop m

-- The loop, after which `deeds` has grown by what was done.
unfoldable pub mining_loop : Mining → List Deed → List Message → Turn
unfolding take_message
mining_loop m deeds [] = goes m deeds
mining_loop m deeds (e ∷ messages) = elim (take_message m e) [
  | goes m' more ↦ mining_loop m' (deeds ++ more) messages
  | returns ↦ returns
  | panics ↦ panics
]

abbrev pub new_mining : Mining
new_mining = record { is_mining = false; has_worker = true }
