-- ===== src/P2p/Resolver/Queued.antt =====
-- What a flooded block leads to.
use miner.Prelude.{
  ℕ, zero, suc, ◌<◌, ◌≤◌, ◌≡◌, refl, true, false, Option, none, some, List, [], ◌∷◌, ◌++◌, length,
  arith, Bool-cases, Option-cases, inl, inr, ◌∙◌, sym, ap, subst,
}
use miner.Prelude.Bytes.{Bytes, dec_bytes}
use miner.Prelude.GoMap.{GoMap, get, delete, has, get-put_self, get-delete}
use miner.Block.{Block}
use miner.P2p.Resolver.{
  ChainResolver, contains, queue, or_none, or_empty, get_pending_blocks_for_download,
  has_pending_download_for_hash, add_pending_download, add_waiting_block_for_hash, enqueue, join,
  join_all, found_in, find_pending_download_for_block, resolve_found, resolve_flooded_block,
  forget_waiting, resolve_added_block,
}

contains-snoc : (blocks : List Block) (b : Block) → contains (blocks ++ b ∷ []) b.hash ≡ true
unfolding contains
contains-snoc [] b = ground arith
contains-snoc (x ∷ blocks) b = ground (arith, contains-snoc blocks b)

contains-queue : (blocks : List Block) (b : Block) → contains (queue blocks b) b.hash ≡ true
unfolding queue
contains-queue blocks b = ground (arith, contains-snoc blocks b)

-- The block stands in the queue of its parent.
abbrev pub IsQueued : ChainResolver → Block → Type 0
IsQueued c b = contains (get_pending_blocks_for_download c b.previous_hash) b.hash ≡ true

add_pending_download-IsQueued :
    (c : ChainResolver) (b : Block) → IsQueued (add_pending_download c b) b
unfolding add_pending_download get_pending_blocks_for_download
add_pending_download-IsQueued c b =
    ap (λ o. contains (or_none o) b.hash) (get-put_self c.blocks_to_resolve b.previous_hash _)
    ∙ contains-queue (or_none (get c.blocks_to_resolve b.previous_hash)) b

enqueue-IsQueued : (c : ChainResolver) (b : Block) → IsQueued (enqueue c b) b
unfolding enqueue add_waiting_block_for_hash get_pending_blocks_for_download
enqueue-IsQueued c b = add_pending_download-IsQueued c b

waiting-join :
    (c : ChainResolver) (b : Block) (h : Bytes) → (join c b h).waiting_blocks ≡ c.waiting_blocks
unfolding join
waiting-join c b h = ground arith

-- The waiting map leads from block to block and ends: `rank` falls along it.
abbrev pub Descends : GoMap Bytes → (Bytes → ℕ) → Type 0
Descends m rank = (k p : Bytes) → get m k ≡ some p → rank p < rank k

join_all-nil : (fuel : ℕ) (c : ChainResolver) (b : Block) → join_all fuel c b [] ≡ some c
unfolding join_all
join_all-nil zero c b = refl
join_all-nil (suc fuel) c b = refl

still_none :
    (m : GoMap Bytes) (blocks : List Block) (h : Bytes)
    → get m h ≡ none
    → get (forget_waiting m blocks) h ≡ none
unfolding forget_waiting
still_none m [] h e = e
still_none m (x ∷ blocks) h e =
    still_none (delete m x.hash) blocks h (ground (arith, get-delete m x.hash h))

forgotten :
    (m : GoMap Bytes) (blocks : List Block) (h : Bytes)
    → contains blocks h ≡ true
    → get (forget_waiting m blocks) h ≡ none
unfolding forget_waiting contains
forgotten m [] h e = cc
forgotten m (x ∷ blocks) h e = elim (dec_bytes x.hash h) [
  | yes same ↦ still_none (delete m x.hash) blocks h (ground (arith, get-delete m x.hash h))
  | no other ↦ forgotten (delete m x.hash) blocks h (ground arith)
]

module _ (rank : Bytes → ℕ) (b : Block) where
  join_all_returns :
      (fuel : ℕ) (c : ChainResolver) (h : Bytes)
      → Descends c.waiting_blocks rank
      → rank h < fuel
      → (c' : ChainResolver) × (join_all fuel c b h ≡ some c')
  unfolding join_all
  join_all_returns zero c h d le = absurd (omega arith)
  join_all_returns (suc fuel) c [] d le = (c, refl)
  join_all_returns (suc fuel) c (x ∷ h) d le = elim (Option-cases (get c.waiting_blocks (x ∷ h))) [
    | inl gone ↦ (join c b (x ∷ h), follow gone ∙ join_all-nil fuel (join c b (x ∷ h)) b)
    | inr (p, e) ↦
        let (c', run) =
          join_all_returns fuel (join c b (x ∷ h)) p
            (subst (λ m. Descends m rank) (sym (waiting-join c b (x ∷ h))) d)
            (omega (arith, d (x ∷ h) p e)) in
        (c', follow e ∙ run)
  ]
    where
      follow :
          {o : Option Bytes}
          → get c.waiting_blocks (x ∷ h) ≡ o
          → join_all (suc fuel) c b (x ∷ h) ≡ join_all fuel (join c b (x ∷ h)) b (or_empty o)
      follow e = ap (λ o. join_all fuel (join c b (x ∷ h)) b (or_empty o)) e

  find_returns :
      (c : ChainResolver)
      → Descends c.waiting_blocks rank
      → rank b.previous_hash ≤ length c.waiting_blocks
      → (r : ChainResolver × Bytes) × (find_pending_download_for_block c b ≡ some r)
  unfolding find_pending_download_for_block
  find_returns c d le = elim (Option-cases (get c.waiting_blocks b.previous_hash)) [
    | inl gone ↦ (
      (c, or_empty (get c.waiting_blocks b.hash)),
      ap (λ o. found_in b (join_all (suc (length c.waiting_blocks)) c b (or_empty o))) gone,
    )
    | inr (p, e) ↦
        let (c', run) =
          join_all_returns (suc (length c.waiting_blocks)) c p d
            (omega (arith, d b.previous_hash p e)) in
        (
          (c', or_empty (get c'.waiting_blocks b.hash)),
          ap (λ o. found_in b (join_all (suc (length c.waiting_blocks)) c b (or_empty o))) e
              ∙ ap (found_in b) run,
        )
  ]

resolve_found-IsQueued :
    (b : Block) (c : ChainResolver) (h : Bytes)
    → (r : ChainResolver × List Bytes) × (resolve_found b (some (c, h)) ≡ some r) × IsQueued r.0 b
unfolding resolve_found
resolve_found-IsQueued b c [] = (_, refl, enqueue-IsQueued c b)
resolve_found-IsQueued b c (x ∷ h) = elim (Bool-cases (has_pending_download_for_hash c (x ∷ h))) [
  | inl y ↦ ((enqueue c b, []), rw (y, resolve_found), enqueue-IsQueued c b)
  | inr n ↦ (
    (add_pending_download c b, b.previous_hash ∷ []),
    rw (n, resolve_found),
    add_pending_download-IsQueued c b,
  )
]

-- A block that waits for its parent is sent when the parent arrives.
sent_on_arrival :
    (c : ChainResolver) (b : Block)
    → IsQueued c b
    → (contains (resolve_added_block c b.previous_hash).1 b.hash ≡ true)
      × (has (resolve_added_block c b.previous_hash).0.blocks_to_resolve b.previous_hash ≡ false)
      × (get (resolve_added_block c b.previous_hash).0.waiting_blocks b.hash ≡ none)
unfolding resolve_added_block
sent_on_arrival c b q = (
  q,
  ground (arith, get-delete c.blocks_to_resolve b.previous_hash b.previous_hash),
  forgotten c.waiting_blocks (get_pending_blocks_for_download c b.previous_hash) b.hash q,
)

-- Let `rank` fall along the waiting map, which then has no cycle, and let the rank of the block's
-- parent be at most the number of waiting blocks. Then `ResolveFloodedBlock` returns, and when the
-- parent of the block has been added, a block with its hash is sent, nothing is left in the queue of
-- the parent, and the hash no longer waits.
pub flooded_then_added :
    (rank : Bytes → ℕ) (c : ChainResolver) (b : Block)
    → Descends c.waiting_blocks rank
    → rank b.previous_hash ≤ length c.waiting_blocks
    → (r : ChainResolver × List Bytes) × (resolve_flooded_block c b ≡ some r)
      × (contains (resolve_added_block r.0 b.previous_hash).1 b.hash ≡ true)
      × (has (resolve_added_block r.0 b.previous_hash).0.blocks_to_resolve b.previous_hash ≡ false)
      × (get (resolve_added_block r.0 b.previous_hash).0.waiting_blocks b.hash ≡ none)
unfolding resolve_flooded_block
flooded_then_added rank c b d le =
    elim (Bool-cases (has_pending_download_for_hash c b.previous_hash)) [
      | inl pending ↦
          let (sent, empty, gone) = sent_on_arrival (enqueue c b) b (enqueue-IsQueued c b) in
          ((enqueue c b, []), rw (pending, resolve_flooded_block), sent, empty, gone)
      | inr free ↦
          let ((c', h), found) = find_returns rank b c d le in
          let (r, run, queued) = resolve_found-IsQueued b c' h in
          let (sent, empty, gone) = sent_on_arrival r.0 b queued in
          (r, rw (free, resolve_flooded_block, found) run, sent, empty, gone)
    ]
