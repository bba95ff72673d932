-- ===== src/P2p/Peers/Flooding.antt =====
-- Who is sent a block or an operation.
use miner.Prelude.{◌≡◌, ◌⊎◌, ◌↔◌, inl, inr, List, [], ◌∷◌, In, Bool-cases}
use miner.Prelude.Bytes.{Bytes}
use miner.Prelude.GoMap.{GoMap, get, put, has, keys}
use miner.Prelude.GoSet.{GoSet, Knows, In-keys_has, has-put, put_all_iff, not-Knows-empty}
use miner.Prelude.Perms.{IsRange, In-keys_range}
use miner.Operation.{Order}
use miner.Block.{Block}
use miner.P2p.Peers.{
  FloodOpReq, Directory, senders, ignore_all, keep_unless, block_targets, op_targets,
  string_set_to_list, next_req,
}

ignore_all_iff :
    (ids : List Bytes) (s : GoSet) (x : Bytes) → Knows (ignore_all s ids) x ↔ (Knows s x ⊎ In x ids)
unfolding ignore_all
ignore_all_iff ids s x = put_all_iff ids s x

keep_unless_iff :
    (ids : List Bytes) (s : GoMap (Unit {0})) (x : Bytes)
    → In x (keep_unless s ids) ↔ (In x ids × ¬ Knows s x)
unfolding keep_unless
keep_unless_iff [] s x = ((λ h. absurd h), (λ h. h.0))
keep_unless_iff (id ∷ ids) s x =
    let (to, from) = keep_unless_iff ids s x in
    elim (Bool-cases (has s id)) [
      | inl known ↦ (
        (λ h. let (i, n) = to (rw known at h) in (inr i, n)),
        (λ (i, n).
            rw known (elim i [ inl e ↦ absurd (n (rw e known)) | inr later ↦ from (later, n) ])),
      )
      | inr new ↦ (
        (λ h. elim (rw new at h) [
          | inl e ↦ (inl e, (λ k. cc))
          | inr later ↦ let (i, n) = to later in (inr i, n)
        ]),
        (λ (i, n). rw new (elim i [ inl e ↦ inl e | inr later ↦ inr (from (later, n)) ])),
      )
    ]

kept_iff :
    (range : Order (Unit {0})) (d : Directory) (miners : List Bytes) (x : Bytes)
    → IsRange range
    → In x (keep_unless (ignore_all [] miners) (keys (range d.peers)))
      ↔ (In x (keys d.peers) × ¬ In x miners)
kept_iff range d miners x perm =
    let (to, from) = keep_unless_iff (keys (range d.peers)) (ignore_all [] miners) x in
    let (ignored, ignores) = ignore_all_iff miners [] x in
    let (here, there) = In-keys_range range d.peers x perm in
    (
      (λ h. let (i, n) = to h in (here i, λ s. n (ignores (inr s)))),
      (λ (i, n).
          from (
            there i,
            λ k. elim (ignored k) [ inl e ↦ absurd (not-Knows-empty x e) | inr s ↦ n s ],
          )),
    )

-- A block is sent to exactly the peers that have not sent it.
block_targets_iff :
    (range : Order (Unit {0})) (d : Directory) (block : Block) (x : Bytes)
    → IsRange range
    → In x (block_targets range d block)
      ↔ (In x (keys d.peers) × ¬ In x (senders (get d.blocks_to_peers block.hash)))
unfolding block_targets
block_targets_iff range d block x perm =
    kept_iff range d (senders (get d.blocks_to_peers block.hash)) x perm

-- An operation is sent to exactly the peers that its request does not ignore.
pub op_targets_iff :
    (range : Order (Unit {0})) (d : Directory) (req : FloodOpReq) (x : Bytes)
    → IsRange range
    → In x (op_targets range d req) ↔ (In x (keys d.peers) × ¬ In x req.ignore_miners)
unfolding op_targets
op_targets_iff range d req x perm = kept_iff range d req.ignore_miners x perm

In-string_set :
    (range : Order (Unit {0})) (m : GoMap (Unit {0})) (x : Bytes)
    → IsRange range
    → In x (string_set_to_list range m) ↔ Knows m x
unfolding string_set_to_list
In-string_set range m x perm =
    let (here, there) = In-keys_range range m x perm in
    let (to, from) = In-keys_has m x in ((λ h. to (here h)), (λ k. there (from k)))

-- The request that goes on ignores what it ignored, the peers it goes to or had, and this miner.
pub next_req_ignores :
    (range range' : Order (Unit {0})) (d : Directory) (miner_id : Bytes) (req : FloodOpReq)
    (x : Bytes)
    → IsRange range
    → IsRange range'
    → In x (next_req range range' d miner_id req).ignore_miners
      ↔ (In x req.ignore_miners ⊎ (In x (keys d.peers) ⊎ (x ≡ miner_id)))
unfolding next_req
next_req_ignores range range' d miner_id req x perm perm' =
    let old = ignore_all [] req.ignore_miners in
    let all = ignore_all old (keys (range d.peers)) in
    let (listed, lists) = In-string_set range' (put all miner_id tt) x perm' in
    let (putted, puts) = has-put all miner_id x in
    let (added, adds) = ignore_all_iff (keys (range d.peers)) old x in
    let (ignored, ignores) = ignore_all_iff req.ignore_miners [] x in
    let (here, there) = In-keys_range range d.peers x perm in
    (
      (λ h. elim (putted (listed h)) [
        | inr self ↦ inr (inr self)
        | inl k ↦ elim (added k) [
          | inr p ↦ inr (inl (here p))
          | inl o ↦ elim (ignored o) [ inl e ↦ absurd (not-Knows-empty x e) | inr i ↦ inl i ]
        ]
      ]),
      (λ h. lists (
          puts (elim h [
            | inl i ↦ inl (adds (inl (ignores (inr i))))
            | inr (inl p) ↦ inl (adds (inr (there p)))
            | inr (inr self) ↦ inr self
          ]))),
    )
