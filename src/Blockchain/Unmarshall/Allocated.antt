-- ===== src/Blockchain/Unmarshall/Allocated.antt =====
-- The heap after every block has been allocated, when no hash occurs twice.
use mathlib.Core.Logic.{∥∥₁_elim}
use mathlib.Core.HLevel.{⊥_prop}
use native.Mathlib.Bridge.{le_prop}
use mathlib.Core.List.{Perm}
use mathlib.Core.List.Permᴰ
use mathlib.Core.List.Perm
use miner.Prelude.{
  ℕ, zero, suc, ◌<◌, ◌≡◌, refl, ◌⊎◌, inl, inr, none, some, List, [], ◌∷◌, ◌++◌, map, foldl, length,
  get_elem?, arith, In, IsDistinct, In-map, In-map_cases, ℕ_discrete, get_elem?-some,
  get_elem?-append_left, get_elem?-append_last, lt-length_of_get_elem?, length-map, length-append,
  ◌∙◌, sym, ap, map-append, append-nil, append_assoc,
}
use miner.Prelude.Bytes.{Bytes, dec_bytes}
use miner.Prelude.GoMap.{GoMap, get, get-put, keys, put-IsDistinct, length-put}
use miner.Prelude.Entries.{get_of_In, member_of_get}
use miner.Prelude.Perms.{In-permᴰ, In-dec, IsDistinct-perm}
use miner.Block.{Block}
use miner.Blockchain.{Node, new_node}
use miner.Blockchain.Unmarshall.{Heap, allocate}
use miner.Blockchain.Unmarshall.Hang.{blocks_of}

abbrev pub hashes : List Block → List Bytes
hashes = map (λ b. b.hash)

get_elem?-snoc_cases :
    {A : Type 0} (xs : List A) (x v : A) (i : ℕ)
    → get_elem? (xs ++ x ∷ []) i ≡ some v
    → (get_elem? xs i ≡ some v) ⊎ ((i ≡ length xs) × (v ≡ x))
get_elem?-snoc_cases [] x v zero h = inr (refl, ground arith)
get_elem?-snoc_cases [] x v (suc i) h = cc
get_elem?-snoc_cases (y ∷ xs) x v zero h = inl h
get_elem?-snoc_cases (y ∷ xs) x v (suc i) h = elim (get_elem?-snoc_cases xs x v i h) [
  | inl old ↦ inl old
  | inr (e, is) ↦ inr (ap suc e, is)
]

-- The heap of the blocks `bs`, each under its hash, and nothing linked yet.
pub record Fresh (bs : List Block) (h : Heap) : Type 0 where
  pub blocks : blocks_of h.nodes ≡ bs
  pub parentless : (a : ℕ) (n : Node) → get_elem? h.nodes a ≡ some n → n.parent ≡ none
  pub childless : (a : ℕ) (n : Node) → get_elem? h.nodes a ≡ some n → n.children ≡ []
  pub mapped :
      (k : Bytes) (a : ℕ)
      → get h.node_map k ≡ some a
      → (b : Block) × (get_elem? bs a ≡ some b) × (b.hash ≡ k)
  pub listed : (a : ℕ) (b : Block) → get_elem? bs a ≡ some b → get h.node_map b.hash ≡ some a
  pub distinct : IsDistinct (keys h.node_map)
  pub sized : length h.node_map ≡ length h.nodes

allocate-Fresh :
    (bs : List Block) (h : Heap) (b : Block)
    → Fresh bs h
    → get h.node_map b.hash ≡ none
    → Fresh (bs ++ b ∷ []) (allocate h b)
unfolding allocate
allocate-Fresh bs h b f new = record {
  blocks =
      map-append (λ (n : Node). n.block) h.nodes (new_node b none ∷ [])
      ∙ ap (λ l. l ++ b ∷ []) f.blocks;
  parentless = λ a n at. elim (get_elem?-snoc_cases h.nodes (new_node b none) n a at) [
    | inl old ↦ f.parentless a n old
    | inr (e, is) ↦ rw is refl
  ];
  childless = λ a n at. elim (get_elem?-snoc_cases h.nodes (new_node b none) n a at) [
    | inl old ↦ f.childless a n old
    | inr (e, is) ↦ rw is refl
  ];
  mapped = λ k a e. elim (dec_bytes b.hash k) [
    | yes same ↦ (
      b,
      get_elem?-append_last bs b a
          (ground (arith, get-put h.node_map b.hash k (length h.nodes), size)),
      same,
    )
    | no other ↦
        let (c, at, is) =
          f.mapped k a (ground (arith, get-put h.node_map b.hash k (length h.nodes))) in
        (c, get_elem?-append_left bs (b ∷ []) a (lt-length_of_get_elem? bs a c at) ∙ at, is)
  ];
  listed = λ a c at. elim (get_elem?-snoc_cases bs b c a at) [
    | inl old ↦
        let e = f.listed a c old in
        ground (arith, get-put h.node_map b.hash c.hash (length h.nodes))
    | inr (e, is) ↦ ground (arith, get-put h.node_map b.hash c.hash (length h.nodes), size)
  ];
  distinct = put-IsDistinct h.node_map b.hash (length h.nodes) f.distinct;
  sized = omega (
    arith,
    length-put h.node_map b.hash (length h.nodes) new,
    length-append h.nodes (new_node b none ∷ []),
    f.sized,
  );
}
  where
    size : length h.nodes ≡ length bs
    size = sym (length-map (λ (n : Node). n.block) h.nodes) ∙ ap length f.blocks

allocate_all-Fresh :
    (done bs : List Block) (h : Heap)
    → Fresh done h
    → IsDistinct (hashes bs)
    → ((k : Bytes) → In k (hashes bs) → get h.node_map k ≡ none)
    → Fresh (done ++ bs) (foldl allocate h bs)
unfolding allocate
allocate_all-Fresh done [] h f d new = rw append-nil f
allocate_all-Fresh done (b ∷ bs) h f d new = rw (append_assoc done (b ∷ []) bs) at (
    allocate_all-Fresh (done ++ b ∷ []) bs (allocate h b)
      (allocate-Fresh done h b f (new b.hash (inl refl))) d.1
      λ k m. elim (dec_bytes b.hash k) [
        | yes same ↦ absurd (d.0 (rw same m))
        | no other ↦
            let old = new k (inr m) in ground (arith, get-put h.node_map b.hash k (length h.nodes))
      ])

pub allocated :
    (bs : List Block)
    → IsDistinct (hashes bs)
    → Fresh bs (foldl allocate (record { nodes = []; node_map = [] }) bs)
unfolding get
allocated bs d =
    allocate_all-Fresh [] bs (record { nodes = []; node_map = [] })
      (record {
        blocks = refl;
        parentless = λ a n h. cc;
        childless = λ a n h. cc;
        mapped = λ k a h. cc;
        listed = λ a b h. cc;
        distinct = tt;
        sized = refl;
      })
      d (λ k m. refl)

abbrev pub addresses : GoMap ℕ → List ℕ
addresses = map (λ e. e.1)

-- What is known of the entries in the order in which a loop visits them.
pub record Visits (bs : List Block) (es : GoMap ℕ) : Type 0 where
  pub once : IsDistinct (addresses es)
  pub inside : (k : Bytes) (a : ℕ) → In (k, a) es → a < length bs
  pub every : (a : ℕ) → a < length bs → In a (addresses es)

module _ (bs : List Block) (m es : GoMap ℕ) (perm : Perm es m) (d : IsDistinct (keys m))
    (mapped : (k : Bytes) (a : ℕ)
      → get m k ≡ some a
      → (b : Block) × (get_elem? bs a ≡ some b) × (b.hash ≡ k)) where
  values-IsDistinct :
      (t : GoMap ℕ)
      → IsDistinct (keys t)
      → ((k : Bytes) (a : ℕ) → In (k, a) t → In (k, a) m)
      → IsDistinct (addresses t)
  values-IsDistinct [] d' sub = tt
  values-IsDistinct ((k, a) ∷ t) d' sub = (
    λ i.
        let ((k', a'), deep, is) = In-map_cases (λ (e : Bytes × ℕ). e.1) a t i in
        let (b, at, h) = mapped k a (get_of_In m k a d (sub k a (inl refl))) in
        let (b', at', h') = mapped k' a' (get_of_In m k' a' d (sub k' a' (inr deep))) in
        let keys_agree : k ≡ k' = ground arith in
        d'.0 (rw keys_agree (In-map (λ (e : Bytes × ℕ). e.0) (k', a') t deep)),
    values-IsDistinct t d'.1 (λ k' a' i. sub k' a' (inr i)),
  )

  inside_m : (k : Bytes) (a : ℕ) → In (k, a) m → a < length bs
  inside_m k a i =
      let (b, at, _) = mapped k a (get_of_In m k a d i) in lt-length_of_get_elem? bs a b at

  pub perm-Visits :
      ((a : ℕ) (b : Block) → get_elem? bs a ≡ some b → get m b.hash ≡ some a) → Visits bs es
  perm-Visits listed = record {
    once =
        IsDistinct-perm (addresses es) (addresses m) (Perm.map (λ (e : Bytes × ℕ). e.1) perm)
          (values-IsDistinct m d (λ k a i. i));
    inside = λ k a i. ∥∥₁_elim perm le_prop (λ r. inside_m k a (In-permᴰ (k, a) r i));
    every = λ a lt. elim (In-dec ℕ_discrete a (addresses es)) [
      | yes i ↦ i
      | no out ↦ absurd (
          ∥∥₁_elim perm ⊥_prop (λ r.
            let (b, at) = get_elem?-some bs a lt in
            let i = member_of_get m b.hash a (listed a b at) in
            out (
              In-permᴰ a (Permᴰ.map (λ (e : Bytes × ℕ). e.1) (Permᴰ.symm r))
                (In-map (λ (e : Bytes × ℕ). e.1) (b.hash, a) m i))))
    ];
  }
