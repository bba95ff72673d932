-- ===== src/Operation/Filter/Batch.antt =====
-- What `FilterInvalidOperations` keeps of a batch.
use miner.Prelude.{
  ◌≡◌, ◌⊎◌, inl, inr, Bool, true, false, List, [], ◌∷◌, ◌++◌, map, foldl, arith, In, IsDistinct,
  append-nil, append_assoc, map-append, IsDistinct-snoc, In-append_left, In-append_right,
  In-append_cases, if◌then◌else◌,
}
use miner.Prelude.Bytes.{Bytes}
use miner.Prelude.GoMap.{has, get, get-put}
use miner.Operation.{Operation, is_create}
use miner.Operation.Filter.{
  Filtering, filter_step, unfiltered, is_earlier, Sort, filter_invalid_operations,
}

-- What an operation claims: a file name if it creates, else its ID.
pub data Subject : Type 0 where
  file : Bytes → Subject
  identity : Bytes → Subject

unfoldable pub subject : Operation → Subject
subject o = if is_create o.op then file o.filename else identity o.operation_id

pub seen : Filtering → Subject → Bool
seen s (file f) = has s.create_fnames f
seen s (identity i) = has s.op_ids i

seen-filter_step_old :
    (s : Filtering) (o : Operation) (k : Subject)
    → seen s k ≡ true
    → seen (filter_step s o) k ≡ true
unfolding seen filter_step
seen-filter_step_old s o (file f) h = ground (arith, get-put s.create_fnames o.filename f tt)
seen-filter_step_old s o (identity i) h = ground (arith, get-put s.op_ids o.operation_id i tt)

seen-filter_step_new : (s : Filtering) (o : Operation) → seen (filter_step s o) (subject o) ≡ true
unfolding seen filter_step subject
seen-filter_step_new s o = ground (
  arith,
  get-put s.create_fnames o.filename o.filename tt,
  get-put s.op_ids o.operation_id o.operation_id tt,
)

seen-filter_step_cases :
    (s : Filtering) (o : Operation) (k : Subject)
    → seen (filter_step s o) k ≡ true
    → (seen s k ≡ true) ⊎ (k ≡ subject o)
unfolding seen filter_step subject
seen-filter_step_cases s o (file f) h = ground (arith, get-put s.create_fnames o.filename f tt)
seen-filter_step_cases s o (identity i) h = ground (arith, get-put s.op_ids o.operation_id i tt)

-- A round keeps the operation or drops it, by whether its subject was seen.
pub filter_step_cases :
    (s : Filtering) (o : Operation)
    → ((seen s (subject o) ≡ false) × ((filter_step s o).valid_ops ≡ s.valid_ops ++ o ∷ []))
      ⊎ ((seen s (subject o) ≡ true) × ((filter_step s o).valid_ops ≡ s.valid_ops))
unfolding seen filter_step subject
filter_step_cases s o = ground arith

-- `processed` holds the operations that the loop has gone through.
pub record Tracks (processed : List Operation) (s : Filtering) : Type 0 where
  pub sound : (o : Operation) → In o s.valid_ops → In o processed
  pub covered : (o : Operation) → In o processed → seen s (subject o) ≡ true
  pub known : (k : Subject) → seen s k ≡ true → In k (map subject s.valid_ops)
  pub distinct : IsDistinct (map subject s.valid_ops)
  pub claimed : (k : Subject) → In k (map subject s.valid_ops) → seen s k ≡ true

module _ (p : List Operation) (s : Filtering) (o : Operation) (t : Tracks p s) where
  covered_step : (o' : Operation) → In o' (p ++ o ∷ []) → seen (filter_step s o) (subject o') ≡ true
  covered_step o' h = elim (In-append_cases o' p (o ∷ []) h) [
    | inl old ↦ seen-filter_step_old s o (subject o') (t.covered o' old)
    | inr new ↦ elim new [ inl e ↦ rw e (seen-filter_step_new s o) | inr z ↦ absurd z ]
  ]

  kept_step :
      seen s (subject o) ≡ false
      → (filter_step s o).valid_ops ≡ s.valid_ops ++ o ∷ []
      → Tracks (p ++ o ∷ []) (filter_step s o)
  kept_step new e = record {
    sound = λ o' h. elim (In-append_cases o' s.valid_ops (o ∷ []) (rw e at h)) [
      | inl old ↦ In-append_left o' p (o ∷ []) (t.sound o' old)
      | inr last ↦ In-append_right o' p (o ∷ []) last
    ];
    covered = covered_step;
    known = λ k h.
        rw (e, map-append)
          (elim (seen-filter_step_cases s o k h) [
            | inl old ↦ In-append_left k (map subject s.valid_ops) (subject o ∷ []) (t.known k old)
            | inr is ↦ In-append_right k (map subject s.valid_ops) (subject o ∷ []) (inl is)
          ]);
    distinct =
        rw (e, map-append)
          (IsDistinct-snoc _ (subject o) t.distinct (λ h. cc (new, t.claimed (subject o) h)));
    claimed = λ k h.
        elim (In-append_cases k (map subject s.valid_ops) (subject o ∷ [])
          (rw (e, map-append) at h)) [
            | inl old ↦ seen-filter_step_old s o k (t.claimed k old)
            | inr last ↦ elim last [ inl is ↦ rw is (seen-filter_step_new s o) | inr z ↦ absurd z ]
          ];
  }

  dropped_step :
      seen s (subject o) ≡ true
      → (filter_step s o).valid_ops ≡ s.valid_ops
      → Tracks (p ++ o ∷ []) (filter_step s o)
  dropped_step old e = record {
    sound = λ o' h. In-append_left o' p (o ∷ []) (t.sound o' (rw e at h));
    covered = covered_step;
    known = λ k h. rw e (elim (seen-filter_step_cases s o k h) [
      | inl h' ↦ t.known k h'
      | inr is ↦ t.known k (rw is old)
    ]);
    distinct = rw e t.distinct;
    claimed = λ k h. seen-filter_step_old s o k (t.claimed k (rw e at h));
  }

  pub Tracks-filter_step : Tracks (p ++ o ∷ []) (filter_step s o)
  Tracks-filter_step = elim (filter_step_cases s o) [
    | inl (new, e) ↦ kept_step new e
    | inr (old, e) ↦ dropped_step old e
  ]

pub Tracks-foldl :
    (p : List Operation) (s : Filtering) (os : List Operation)
    → Tracks p s
    → Tracks (p ++ os) (foldl filter_step s os)
Tracks-foldl p s [] t = rw append-nil t
Tracks-foldl p s (o ∷ os) t =
    rw (append_assoc p (o ∷ []) os) at
      (Tracks-foldl (p ++ o ∷ []) (filter_step s o) os (Tracks-filter_step p s o t))

pub Tracks-unfiltered : (os : List Operation) → Tracks os (foldl filter_step unfiltered os)
unfolding seen get
Tracks-unfiltered os = Tracks-foldl [] unfiltered os (record {
  sound = λ o h. h;
  covered = λ o h. absurd h;
  known = λ k h. none_seen k h;
  distinct = tt;
  claimed = λ k h. absurd h;
})
  where
    none_seen : (k : Subject) → seen unfiltered k ≡ true → ⊥
    none_seen (file f) h = cc
    none_seen (identity i) h = cc

module _ (sort : Sort) (ops : List Operation) where
  -- Whatever order the sort leaves, no two operations that `FilterInvalidOperations` returns share a
  -- subject: it returns one create per file name and one other operation per ID.
  pub filter-IsDistinct : IsDistinct (map subject (filter_invalid_operations sort ops))
  unfolding filter_invalid_operations
  filter-IsDistinct = (Tracks-unfiltered (sort is_earlier ops)).distinct

  -- Every operation that is returned is one of the sorted batch.
  pub filter_sound :
      (o : Operation) → In o (filter_invalid_operations sort ops) → In o (sort is_earlier ops)
  unfolding filter_invalid_operations
  filter_sound o = (Tracks-unfiltered (sort is_earlier ops)).sound o

  -- Every operation of the sorted batch has its subject among those of the operations returned: a
  -- create's file name is created, and any other operation's ID is kept.
  pub filter_covers :
      (o : Operation)
      → In o (sort is_earlier ops)
      → In (subject o) (map subject (filter_invalid_operations sort ops))
  unfolding filter_invalid_operations
  filter_covers o h =
      let t = Tracks-unfiltered (sort is_earlier ops) in t.known (subject o) (t.covered o h)
