-- ===== src/P2p/Dialing/Covers.antt =====
-- Which peers have been dialled when `startMinerRPC` returns.
use miner.Prelude.{
  ℕ, zero, suc, ◌+◌, ◌≤◌, ◌≡◌, refl, inl, inr, Bool, true, false, List, [], ◌∷◌, ◌++◌, length, ltb,
  arith, In, IsDistinct, Bool-cases, length-map, length-append, In-append_left, In-append_right,
  In-append_cases, sym, subst, ◌∙◌, if◌then◌else◌,
}
use miner.Prelude.Bytes.{Bytes, dec_bytes}
use miner.Prelude.GoMap.{put, has, keys, put-IsDistinct}
use miner.Prelude.Perms.{In-dec}
use miner.Prelude.Pigeonhole.{IsDistinct-length}
use miner.Operation.{Order}
use miner.P2p.Manager.{Turn, goes, blocks, panics, spins, synchronize}
use miner.P2p.Dialing.{
  Dialing, Answer, unreachable, answers, Dialled, going, finished, waits, when_synchronized,
  take_over, dial_addr, dial_round, dial_all,
}
use miner.Prelude.GoSet.{In-keys_has, has-put}
use miner.P2p.Dialing.Met.{HasSynced, AllMet, dial_all-AllMet}

-- Each dialled address is a configured one, and listed once.
pub record Inv (addrs : List Bytes) (d : Dialing) : Type 0 where
  pub distinct : IsDistinct (keys d.dialed_peers)
  pub configured : (a : Bytes) → In a (keys d.dialed_peers) → In a addrs

-- What holds of a result: the invariant, and at the end as many dialled as configured.
abbrev Good : List Bytes → Dialled → Type 0
Good addrs (going d) = Inv addrs d
Good addrs (finished d) = Inv addrs d × (length addrs ≤ length d.dialed_peers)
Good addrs waits = Unit {0}

when_synchronized-Good :
    (addrs : List Bytes) (d : Dialing) (addr id : Bytes) (t : Turn)
    → Inv addrs d
    → In addr addrs
    → Good addrs (when_synchronized d addr id t)
when_synchronized-Good addrs d addr id (goes m []) v i = tt
when_synchronized-Good addrs d addr id (goes m (s ∷ ss)) v i = record {
  distinct = put-IsDistinct d.dialed_peers addr tt v.distinct;
  configured = λ a h.
      elim ((has-put d.dialed_peers addr a).0 ((In-keys_has (put d.dialed_peers addr tt) a).0 h)) [
        | inl old ↦ v.configured a ((In-keys_has d.dialed_peers a).1 old)
        | inr e ↦ subst (λ x. In x addrs) (sym e) i
      ];
}
when_synchronized-Good addrs d addr id blocks v i = tt
when_synchronized-Good addrs d addr id panics v i = tt
when_synchronized-Good addrs d addr id spins v i = tt

Good-if :
    (addrs : List Bytes) (t : Bool) (x y : Dialled)
    → Good addrs x
    → Good addrs y
    → Good addrs (if t then x else y)
Good-if addrs true x y h k = h
Good-if addrs false x y h k = k

module _ (range : Order ℕ) (addrs : List Bytes) where
  take_over-Good :
      (d : Dialing) (addr : Bytes) (answer : Answer)
      → Inv addrs d
      → In addr addrs
      → Good addrs (take_over range d addr answer)
  unfolding take_over
  take_over-Good d addr unreachable v i = v
  take_over-Good d addr (answers r) v i =
      when_synchronized-Good addrs d addr r.miner_id (synchronize range d.manager r.blockchain) v i

  dial_addr-Good :
      (d : Dialing) (addr : Bytes) (answer : Answer)
      → Inv addrs d
      → In addr addrs
      → Good addrs (dial_addr range d addr answer)
  unfolding dial_addr
  dial_addr-Good d addr answer v i =
      Good-if addrs (has d.dialed_peers addr) _ _ v (take_over-Good d addr answer v i)

  dial_round-Good :
      (net : Bytes → Answer) (d : Dialing) (todo : List Bytes)
      → Inv addrs d
      → ((a : Bytes) → In a todo → In a addrs)
      → Good addrs (dial_round range net d todo)
  unfolding dial_round
  dial_round-Good net d [] v sub = v
  dial_round-Good net d (addr ∷ todo) v sub =
      go (dial_addr range d addr (net addr))
        (dial_addr-Good d addr (net addr) v (sub addr (inl refl)))
        (λ d' v'. dial_round-Good net d' todo v' (λ a i. sub a (inr i)))
    where
      go :
          (r : Dialled)
          → Good addrs r
          → ((d' : Dialing) → Inv addrs d' → Good addrs (dial_round range net d' todo))
          → Good addrs (elim r as (λ (x : Dialled). Dialled) [
            | going d' ↦ dial_round range net d' todo
            | finished d' ↦ finished d'
            | waits ↦ waits
          ])
      go (going d') h rest = rest d' h
      go (finished d') h rest = h
      go waits h rest = h

  dial_all-Good :
      (net : ℕ → Bytes → Answer) (fuel k : ℕ) (d : Dialing)
      → Inv addrs d
      → Good addrs (dial_all range net addrs fuel k d)
  unfolding dial_all
  dial_all-Good net zero k d v = v
  dial_all-Good net (suc fuel) k d v =
      elim (Bool-cases (ltb (length d.dialed_peers) (length addrs))) [
        | inl more ↦
            rw (more, dial_all)
              (go (dial_round range (net k) d addrs) (dial_round-Good (net k) d addrs v (λ a i. i))
                (λ d'. dial_all-Good net fuel (k + 1) d'))
        | inr done ↦ rw (done, dial_all) (v, ground arith)
      ]
    where
      go :
          (r : Dialled)
          → Good addrs r
          → ((d' : Dialing) → Inv addrs d' → Good addrs (dial_all range net addrs fuel (k + 1) d'))
          → Good addrs (elim r as (λ (x : Dialled). Dialled) [
            | going d' ↦ dial_all range net addrs fuel (k + 1) d'
            | finished d' ↦ finished d'
            | waits ↦ waits
          ])
      go (going d') h rest = rest d' h
      go (finished d') h rest = h
      go waits h rest = h

  -- Counting: every configured address is in the map at the end.
  dial_all-covers :
      (net : ℕ → Bytes → Answer) (fuel : ℕ) (d d' : Dialing) (addr : Bytes)
      → Inv addrs d
      → dial_all range net addrs fuel 0 d ≡ finished d'
      → In addr addrs
      → has d'.dialed_peers addr ≡ true
  dial_all-covers net fuel d d' addr v run i =
      let (inv, enough) = subst (Good addrs) run (dial_all-Good net fuel 0 d v) in
      elim (In-dec dec_bytes addr (keys d'.dialed_peers)) [
        | yes m ↦ (In-keys_has d'.dialed_peers addr).0 m
        | no out ↦
            let most =
              IsDistinct-length (addr ∷ keys d'.dialed_peers) addrs (out, inv.distinct)
                (λ a h. elim h [
                  | inl e ↦ subst (λ x. In x addrs) (sym e) i
                  | inr later ↦ inv.configured a later
                ]) in
            absurd (
              omega
                (arith, enough, most, length-map (λ (e : Bytes × Unit {0}). e.0) d'.dialed_peers))
      ]

-- Let each address that is dialled at the beginning be configured and listed once, as is so when
-- there is none. When `startMinerRPC` returns, each configured address that was not dialled at the
-- beginning has answered in some round, and `UnmarshallBlockchain` has made a tree of its blocks.
pub dial_all-HasSynced :
    (range : Order ℕ) (addrs : List Bytes) (net : ℕ → Bytes → Answer) (fuel : ℕ) (d d' : Dialing)
    (addr : Bytes)
    → Inv addrs d
    → dial_all range net addrs fuel 0 d ≡ finished d'
    → In addr addrs
    → has d.dialed_peers addr ≡ false
    → HasSynced range net addr
dial_all-HasSynced range addrs net fuel d d' addr v run i new =
    let met =
      subst (AllMet range net d) run (dial_all-AllMet range net d addrs fuel 0 d (λ a h. inl h)) in
    elim (met addr (dial_all-covers range addrs net fuel d d' addr v run i)) [
      | inl old ↦ absurd (cc (sym new ∙ old))
      | inr synced ↦ synced
    ]

-- Let each address that is dialled at the beginning be configured and listed once, as is so when
-- there is none. If an address is configured twice, `startMinerRPC` never returns, whatever the
-- peers answer and however many rounds it makes.
pub dial_all_repeats :
    (range : Order ℕ) (before rest : List Bytes) (addr : Bytes) (net : ℕ → Bytes → Answer)
    (fuel : ℕ) (d d' : Dialing)
    → In addr rest
    → Inv (before ++ addr ∷ rest) d
    → ¬ (dial_all range net (before ++ addr ∷ rest) fuel 0 d ≡ finished d')
dial_all_repeats range before rest addr net fuel d d' twice v run =
    let addrs = before ++ addr ∷ rest in
    let (inv, enough) = subst (Good addrs) run (dial_all-Good range addrs net fuel 0 d v) in
    let most = IsDistinct-length (keys d'.dialed_peers) (before ++ rest) inv.distinct (λ a h.
      elim (In-append_cases a before (addr ∷ rest) (inv.configured a h)) [
        | inl early ↦ In-append_left a before rest early
        | inr late ↦ elim late [
          | inl e ↦ In-append_right a before rest (subst (λ x. In x rest) (sym e) twice)
          | inr later ↦ In-append_right a before rest later
        ]
      ]) in
    omega (
      arith,
      enough,
      most,
      length-map (λ (e : Bytes × Unit {0}). e.0) d'.dialed_peers,
      length-append before (addr ∷ rest),
      length-append before rest,
    )
