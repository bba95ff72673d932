-- ===== src/Blockchain/Unmarshall/Loop.antt =====
-- The loop over `nodeMap`, from node to node.
use miner.Prelude.{
  ℕ, ◌<◌, ◌≡◌, refl, ◌⊎◌, inl, inr, some, List, [], ◌∷◌, length, get_elem?, In, IsDistinct, subst,
  lt-length_of_get_elem?, ◌∙◌, sym, ap, List-cases,
}
use miner.Prelude.Bytes.{Bytes}
use miner.Prelude.GoMap.{GoMap, get}
use miner.Block.{Block}
use miner.Blockchain.Unmarshall.{Linking, hang, hang_on, link_entry, link_node, link_all}
use miner.Blockchain.Unmarshall.Allocated.{addresses}
use miner.Blockchain.Unmarshall.Linked.{Inv, node_of, root-Inv, hang-Inv}

pub some_inj : {A : Type 0} {x y : A} → some x ≡ some y → x ≡ y
some_inj e = cc

module _ (bs : List Block) (m : GoMap ℕ)
    (parents : (a : ℕ) (b : Block)
      → get_elem? bs a ≡ some b
      → (b.previous_hash ≡ [])
        ⊎ ((p : ℕ) × (get m b.previous_hash ≡ some p)
            × (q : Block) × (get_elem? bs p ≡ some q)
            × (q.hash ≡ b.previous_hash))) where
  pub link_node-Inv :
      (done : List ℕ) (l : Linking) (a : ℕ)
      → Inv bs done l
      → ¬ In a done
      → a < length bs
      → (l' : Linking) × (link_node m l a ≡ some l') × Inv bs (a ∷ done) l'
  unfolding link_node
  link_node-Inv done l a i fresh lt =
      let (n, at, own) = node_of bs l.nodes a i.blocks lt in
      elim (List-cases n.block.previous_hash) [
        | inl empty ↦ (
          record l { genesis = some a },
          rw (at, link_node, empty),
          root-Inv bs done l i a n at fresh empty,
        )
        | inr (x, h, prev) ↦ elim (parents a n.block own) [
          | inl empty ↦ absurd (cc (sym empty ∙ prev))
          | inr (p, found, b, place, is) ↦
              let (q, at_p, own_p) =
                node_of bs l.nodes p i.blocks (lt-length_of_get_elem? bs p b place) in
              let named : q.block.hash ≡ n.block.previous_hash =
                ap (λ x. x.hash) (some_inj (sym own_p ∙ place)) ∙ is in
              let found' : get m (x ∷ h) ≡ some p = rw (← prev) found in
              (
                record l { nodes = hang l.nodes a n p },
                rw (at, link_node, prev, link_entry, found', hang_on),
                hang-Inv bs done l i a n at fresh p q at_p x h prev named,
              )
        ]
      ]

  pub link_all-Inv :
      (es : GoMap ℕ) (done : List ℕ) (l : Linking)
      → Inv bs done l
      → IsDistinct (addresses es)
      → ((k : Bytes) (a : ℕ) → In (k, a) es → a < length bs)
      → ((a : ℕ) → In a (addresses es) → ¬ In a done)
      → (l' : Linking) × (done' : List ℕ) × (link_all m l es ≡ some l')
        × Inv bs done' l'
        × ((a : ℕ) → In a done ⊎ In a (addresses es) → In a done')
  unfolding link_all
  link_all-Inv [] done l i d inside fresh =
      (l, done, refl, i, λ a h. elim h [ inl old ↦ old | inr z ↦ absurd z ])
  link_all-Inv ((k, a) ∷ es) done l i d inside fresh =
      let (l', run, i') = link_node-Inv done l a i (fresh a (inl refl)) (inside k a (inl refl)) in
      let (l'', done', rest, i'', all) =
        link_all-Inv es (a ∷ done) l' i' d.1 (λ k' a' h. inside k' a' (inr h))
          (λ a' h past. elim past [
            | inl is ↦ d.0 (subst (λ t. In t (addresses es)) is h)
            | inr old ↦ fresh a' (inr h) old
          ]) in
      (
        l'',
        done',
        rw (link_all, run) rest,
        i'',
        λ x h. elim h [
          | inl old ↦ all x (inl (inr old))
          | inr e ↦ elim e [ inl is ↦ all x (inl (inl is)) | inr later ↦ all x (inr later) ]
        ],
      )
