-- ===== src/P2p/Peers/Travels.antt =====
-- The way of an operation through the network: each miner on it sends it on to a target of its own.
use miner.Prelude.{◌≤◌, inl, inr, List, [], ◌∷◌, In, IsDistinct, length, subst}
use miner.Prelude.Bytes.{Bytes}
use miner.Prelude.GoMap.{keys}
use miner.Prelude.Perms.{IsRange}
use miner.Prelude.Pigeonhole.{IsDistinct-length}
use miner.Operation.{Operation, Order}
use miner.P2p.Peers.{FloodOpReq, Directory, op_targets, next_req}
use miner.P2p.Peers.Flooding.{op_targets_iff, next_req_ignores}

-- `Travels path req`: the last miner, the head of `path`, has received `req`. A miner's directory
-- is what it is when the operation arrives, and no miner is its own peer.
pub data Travels : List Bytes → FloodOpReq → Type 0 where
  submitted :
      (id : Bytes) (operation : Operation)
      → Travels (id ∷ []) (record { operation = operation; ignore_miners = [] })
  forwarded :
      {id : Bytes} {path : List Bytes} {req : FloodOpReq} (range range' range'' : Order (Unit {0}))
      (d : Directory) (x : Bytes)
      → IsRange range
      → IsRange range'
      → IsRange range''
      → ¬ In id (keys d.peers)
      → In x (op_targets range d req)
      → Travels (id ∷ path) req
      → Travels (x ∷ id ∷ path) (next_req range' range'' d id req)

-- Every miner before the last one is ignored.
ignores_path :
    {path : List Bytes} {req : FloodOpReq} (id x : Bytes)
    → Travels (id ∷ path) req
    → In x path
    → In x req.ignore_miners
ignores_path id x (submitted _ _) h = absurd h
ignores_path id x
      (forwarded {id = id'} {req = req} range range' range'' d _ perm perm' perm'' away to t) h =
    (next_req_ignores range' range'' d id' req x perm' perm'').1
      (elim h [ inl e ↦ inr (inr e) | inr later ↦ inl (ignores_path id' x t later) ])

-- Where no miner on the way is its own peer, an operation never comes back to a miner that it
-- has been at.
pub Travels-IsDistinct : (path : List Bytes) (req : FloodOpReq) → Travels path req → IsDistinct path
Travels-IsDistinct _ _ (submitted id _) = ((λ h. h), tt)
Travels-IsDistinct _ _
      (forwarded {id} {path} {req} range range' range'' d x perm perm' perm'' away to t) =
    let (peer, fresh) = (op_targets_iff range d req x perm).0 to in
    (
      (λ h. elim h [
        | inl e ↦ away (subst (λ y. In y (keys d.peers)) e peer)
        | inr later ↦ fresh (ignores_path id x t later)
      ]),
      Travels-IsDistinct (id ∷ path) req t,
    )

-- Where no miner on the way is its own peer and all of them are in a list, an operation has been
-- at no more miners than the list has.
pub Travels-length :
    (miners path : List Bytes) (req : FloodOpReq)
    → Travels path req
    → ((id : Bytes) → In id path → In id miners)
    → length path ≤ length miners
Travels-length miners path req t inside =
    IsDistinct-length path miners (Travels-IsDistinct path req t) inside
