-- ===== src/P2p/Dialing/Met.antt =====
-- A dialled address has been synchronised with.
use miner.Prelude.{
  ℕ, zero, suc, ◌+◌, ◌≡◌, refl, ◌⊎◌, inl, inr, true, List, [], ◌∷◌, length, ltb, Bool-cases, sym,
  subst,
}
use miner.Prelude.Bytes.{Bytes}
use miner.Prelude.GoMap.{has}
use miner.Prelude.GoSet.{has-put}
use miner.Operation.{Order}
use miner.Blockchain.{Blockchain}
use miner.Blockchain.Unmarshall.{Unmarshalled, tree, failed, searching, unmarshall_blockchain}
use miner.P2p.Manager.{after_unmarshall, synchronize}
use miner.P2p.Dialing.{
  NewPeerResponse, Dialing, Answer, unreachable, answers, Dialled, going, finished, waits,
  when_synchronized, take_over, dial_addr, dial_round, dial_all,
}

module _ (range : Order ℕ) (net : ℕ → Bytes → Answer) where
  -- In some round the address answered with blocks that make a tree.
  pub record HasSynced (addr : Bytes) : Type 0 where
    pub round : ℕ
    pub response : NewPeerResponse
    pub bc : Blockchain
    pub answered : net round addr ≡ answers response
    pub taken_over : unmarshall_blockchain range response.blockchain ≡ tree bc

  -- Each dialled address was dialled at the beginning, or has been synchronised with.
  abbrev pub Met : Dialing → Dialing → Type 0
  Met d0 d =
      (a : Bytes) → has d.dialed_peers a ≡ true → (has d0.dialed_peers a ≡ true) ⊎ HasSynced a

  abbrev pub AllMet : Dialing → Dialled → Type 0
  AllMet d0 (going d) = Met d0 d
  AllMet d0 (finished d) = Met d0 d
  AllMet d0 waits = Unit {0}

  module _ (d0 : Dialing) where
    synchronized-AllMet :
        (d : Dialing) (addr : Bytes) (k : ℕ) (r : NewPeerResponse) (u : Unmarshalled)
        → net k addr ≡ answers r
        → unmarshall_blockchain range r.blockchain ≡ u
        → Met d0 d
        → AllMet d0 (when_synchronized d addr r.miner_id (after_unmarshall d.manager u))
    unfolding after_unmarshall
    synchronized-AllMet d addr k r (tree bc) e e' h = λ a i.
        elim ((has-put d.dialed_peers addr a).0 i) [
          | inl old ↦ h a old
          | inr is ↦ inr (
              subst HasSynced (sym is)
                (record { round = k; response = r; bc = bc; answered = e; taken_over = e' }))
        ]
    synchronized-AllMet d addr k r (failed error) e e' h = tt
    synchronized-AllMet d addr k r searching e e' h = tt

    take_over-AllMet :
        (d : Dialing) (addr : Bytes) (k : ℕ) (answer : Answer)
        → net k addr ≡ answer
        → Met d0 d
        → AllMet d0 (take_over range d addr answer)
    unfolding take_over synchronize
    take_over-AllMet d addr k unreachable e h = h
    take_over-AllMet d addr k (answers r) e h =
        synchronized-AllMet d addr k r (unmarshall_blockchain range r.blockchain) e refl h

    dial_addr-AllMet :
        (d : Dialing) (addr : Bytes) (k : ℕ)
        → Met d0 d
        → AllMet d0 (dial_addr range d addr (net k addr))
    unfolding dial_addr
    dial_addr-AllMet d addr k h = elim (Bool-cases (has d.dialed_peers addr)) [
      | inl known ↦ rw known h
      | inr new ↦ rw new (take_over-AllMet d addr k (net k addr) refl h)
    ]

    -- What follows a step that goes on.
    after :
        (r : Dialled) (next : Dialing → Dialled)
        → AllMet d0 r
        → ((d' : Dialing) → Met d0 d' → AllMet d0 (next d'))
        → AllMet d0 (elim r as (λ (x : Dialled). Dialled) [
          | going d' ↦ next d'
          | finished d' ↦ finished d'
          | waits ↦ waits
        ])
    after (going d') next h rest = rest d' h
    after (finished d') next h rest = h
    after waits next h rest = h

    dial_round-AllMet :
        (k : ℕ) (d : Dialing) (todo : List Bytes)
        → Met d0 d
        → AllMet d0 (dial_round range (net k) d todo)
    unfolding dial_round
    dial_round-AllMet k d [] h = h
    dial_round-AllMet k d (addr ∷ todo) h =
        after (dial_addr range d addr (net k addr)) (λ d'. dial_round range (net k) d' todo)
          (dial_addr-AllMet d addr k h) (λ d' h'. dial_round-AllMet k d' todo h')

    pub dial_all-AllMet :
        (addrs : List Bytes) (fuel k : ℕ) (d : Dialing)
        → Met d0 d
        → AllMet d0 (dial_all range net addrs fuel k d)
    unfolding dial_all
    dial_all-AllMet addrs zero k d h = h
    dial_all-AllMet addrs (suc fuel) k d h =
        elim (Bool-cases (ltb (length d.dialed_peers) (length addrs))) [
          | inl more ↦
              rw (more, dial_all)
                (after (dial_round range (net k) d addrs)
                  (λ d'. dial_all range net addrs fuel (k + 1) d') (dial_round-AllMet k d addrs h)
                  (λ d' h'. dial_all-AllMet addrs fuel (k + 1) d' h'))
          | inr done ↦ rw (done, dial_all) h
        ]
