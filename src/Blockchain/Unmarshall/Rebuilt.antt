-- ===== src/Blockchain/Unmarshall/Rebuilt.antt =====
-- The tree that `UnmarshallBlockchain` rebuilds from the blocks of a valid tree.
use miner.Prelude.{
  ℕ, ◌≤◌, ◌≡◌, refl, Option, none, some, List, [], ◌∷◌, get_elem?, length, length-map, ◌∙◌, sym, ap,
  subst, get_elem?-some, lt-length_of_get_elem?, IsDistinct,
}
use miner.Blockchain.Validation.Balances.{spent, earned}
use miner.Blockchain.Validation.Survivors.{ids, chain_ops}
use miner.Prelude.Bytes.{Bytes}
use miner.Prelude.GoMap.{get}
use miner.Prelude.Entries.{member_of_get_elem?}
use miner.Prelude.Perms.{IsRange, length-perm}
use miner.Operation.{Order}
use miner.Block.{Block}
use miner.Blockchain.{Node, Blockchain}
use miner.Blockchain.Walk.{IsChain}
use miner.Blockchain.Shape.{IsValid}
use miner.Blockchain.Soundness.{IsSound, IsChain-unique}
use miner.Blockchain.Queries.{get_blocks}
use miner.Blockchain.Unmarshall.Linked.{node_of, block_at}
use miner.Blockchain.Unmarshall.Returns.{Holds}
use miner.Blockchain.Unmarshall.Sync.{IsNamed, entry_of_collect, collect-hashes, listed_entry}

module _ (range : Order ℕ) (bc : Blockchain) (perm : IsRange range) (v : IsValid bc)
    (h : IsNamed bc) (bc' : Blockchain) (held : Holds (get_blocks range bc) bc') where
  -- Every node of the new tree stands for one of the old tree.
  original :
      (a' : ℕ) (n' : Node)
      → get_elem? bc'.nodes a' ≡ some n'
      → (a : ℕ) × (n : Node) × (get_elem? bc.nodes a ≡ some n) × (n.block ≡ n'.block)
  unfolding get_blocks
  original a' n' at =
      let here = block_at (get_blocks range bc) bc'.nodes a' n' held.contents at in
      let (k, a, n, _, found, is) =
        entry_of_collect bc v (range bc.m) n'.block
          (member_of_get_elem? (get_blocks range bc) a' n'.block here) in
      (a, n, found, is)

  -- Nodes of the two trees with the same hash have the same block.
  twin :
      (p p' : ℕ) (q q' : Node)
      → get_elem? bc.nodes p ≡ some q
      → get_elem? bc'.nodes p' ≡ some q'
      → q'.block.hash ≡ q.block.hash
      → q'.block ≡ q.block
  twin p p' q q' at at' e =
      let (a, n, found, is) = original p' q' at' in
      let there = v.listed a n found in
      let there' = v.listed p q at in
      let hashes_agree : n.block.hash ≡ q.block.hash = ap (λ (b : Block). b.hash) is ∙ e in
      let addresses_agree : some a ≡ some p = sym there ∙ ap (get bc.m) hashes_agree ∙ there' in
      let same : a ≡ p = cc in
      let nodes_agree : some n ≡ some q = sym found ∙ ap (get_elem? bc.nodes) same ∙ at in
      sym is ∙ cc

  -- Addresses in the two trees that stand for each other.
  abbrev Twins : Option ℕ → Option ℕ → Type 0
  Twins none none = Unit {0}
  Twins none (some a') = ⊥
  Twins (some a) none = ⊥
  Twins (some a) (some a') =
      (n n' : Node) × (get_elem? bc.nodes a ≡ some n)
      × (get_elem? bc'.nodes a' ≡ some n')
      × (n'.block ≡ n.block)

  no_name : (p' : ℕ) (q' : Node) → get_elem? bc'.nodes p' ≡ some q' → ¬ (q'.block.hash ≡ [])
  no_name p' q' at' e =
      let (a, n, found, is) = original p' q' at' in
      h.named a n found (ap (λ (b : Block). b.hash) is ∙ e)

  genesis_nameless :
      (a : ℕ) (n : Node)
      → get_elem? bc.nodes a ≡ some n
      → n.parent ≡ none
      → n.block.previous_hash ≡ []
  genesis_nameless a n at orphan =
      h.origin n (ap (get_elem? bc.nodes) (sym (v.tree.orphan a n at orphan)) ∙ at)

  parents-Twins :
      (a a' : ℕ) (n n' : Node) (p p' : Option ℕ)
      → get_elem? bc.nodes a ≡ some n
      → get_elem? bc'.nodes a' ≡ some n'
      → n'.block ≡ n.block
      → n.parent ≡ p
      → n'.parent ≡ p'
      → Twins p p'
  parents-Twins a a' n n' none none at at' same up up' = tt
  parents-Twins a a' n n' none (some p') at at' same up up' =
      let (q', found, is, _) = held.above a' p' n' at' up' in
      let hash : q'.block.hash ≡ n.block.previous_hash =
        is ∙ ap (λ (b : Block). b.previous_hash) same in
      absurd (no_name p' q' found (hash ∙ genesis_nameless a n at up))
  parents-Twins a a' n n' (some p) none at at' same up up' =
      let (q, found, is, _) = v.linked a p n at up in
      let empty : n.block.previous_hash ≡ [] =
        ap (λ (b : Block). b.previous_hash) (sym same) ∙ held.lost a' n' at' up' in
      absurd (h.named p q found (is ∙ empty))
  parents-Twins a a' n n' (some p) (some p') at at' same up up' =
      let (q, found, is, _) = v.linked a p n at up in
      let (q', found', is', _) = held.above a' p' n' at' up' in
      let hash : q'.block.hash ≡ q.block.hash =
        is' ∙ ap (λ (b : Block). b.previous_hash) same ∙ sym is in
      (q, q', found, found', twin p p' q q' found found' hash)

  -- The chain of a node is the same in both trees.
  IsChain-copied :
      (bs : List Block) (p p' : Option ℕ)
      → Twins p p'
      → IsChain bc.nodes p bs
      → IsChain bc'.nodes p' bs
  IsChain-copied [] none none t c = tt
  IsChain-copied (b ∷ bs) none none t c = absurd c
  IsChain-copied bs none (some a') t c = absurd t
  IsChain-copied bs (some a) none t c = absurd t
  IsChain-copied [] (some a) (some a') t c = absurd c
  IsChain-copied (b ∷ bs) (some a) (some a') (n, n', at, at', same) (m, e, is, c) =
      let nodes_agree : n ≡ m = cc in
      (
        n',
        at',
        same ∙ ap (λ (x : Node). x.block) nodes_agree ∙ is,
        IsChain-copied bs n.parent n'.parent
            (parents-Twins a a' n n' n.parent n'.parent at at' same refl refl)
            (subst (λ (x : Node). IsChain bc.nodes x.parent bs) (sym nodes_agree) c),
      )

  -- The chain of a node of the new tree is one of the old tree.
  IsChain-from :
      (a' : ℕ) (n' : Node)
      → get_elem? bc'.nodes a' ≡ some n'
      → (a : ℕ) × (bs : List Block) × IsChain bc.nodes (some a) bs
        × (length bs ≤ length bc.nodes)
        × IsChain bc'.nodes (some a') bs
  IsChain-from a' n' at' =
      let (a, n, at, is) = original a' n' at' in
      let (bs, c, short) = v.grounded a (lt-length_of_get_elem? bc.nodes a n at) in
      (a, bs, c, short, IsChain-copied bs (some a) (some a') (n, n', at, at', sym is) c)

  as_many : length bc'.nodes ≡ length bc.nodes
  unfolding get_blocks
  as_many =
      sym (length-map (λ (n : Node). n.block) bc'.nodes)
      ∙ ap length held.contents
      ∙ sym (length-map (λ (b : Block). b.hash) (get_blocks range bc))
      ∙ ap length (collect-hashes bc v (range bc.m) (listed_entry range bc perm v h))
      ∙ length-map (λ (e : Bytes × ℕ). e.0) (range bc.m)
      ∙ length-perm (perm bc.m)
      ∙ v.sized

  -- It is valid.
  pub Holds-IsValid : IsValid bc'
  Holds-IsValid = record {
    tree = held.linked;
    mapped = λ k a e.
        let (b, at, is) = held.mapped k a e in
        let (n, found, own) =
          node_of (get_blocks range bc) bc'.nodes a held.contents
            (lt-length_of_get_elem? (get_blocks range bc) a b at) in
        let same : n.block ≡ b = cc in (n, found, ap (λ (x : Block). x.hash) same ∙ is);
    listed = λ a n at.
        held.listed a n.block (block_at (get_blocks range bc) bc'.nodes a n held.contents at);
    linked = held.above;
    grounded = λ a lt.
        let (n, at) = get_elem?-some bc'.nodes a lt in
        let (_, bs, _, short, c) = IsChain-from a n at in
        (bs, c, subst (λ l. length bs ≤ l) (sym as_many) short);
    sized = held.sized;
    distinct = held.distinct;
  }

  -- It is sound if the old tree is, under the settings of the miner that rebuilds it.
  pub Holds-IsSound : IsSound (record bc { config = bc'.config }) → IsSound bc'
  Holds-IsSound s = record {
    solvent = λ miner a' bs c.
        let (a, cs, old, same) = source a' bs c in
        subst (λ l. spent bc'.config miner l ≤ earned bc'.config miner l) same
          (s.solvent miner a cs old);
    unique = λ a' bs c.
        let (a, cs, old, same) = source a' bs c in
        subst (λ l. IsDistinct (ids (chain_ops l))) same (s.unique a cs old);
  }
    where
      source :
          (a' : ℕ) (bs : List Block)
          → IsChain bc'.nodes (some a') bs
          → (a : ℕ) × (cs : List Block) × IsChain bc.nodes (some a) cs × (cs ≡ bs)
      source a' [] c = absurd c
      source a' (b ∷ bs) (n', at', is, c) =
          let (a, cs, old, _, new) = IsChain-from a' n' at' in
          (a, cs, old, IsChain-unique bc'.nodes (some a') cs (b ∷ bs) new (n', at', is, c))
