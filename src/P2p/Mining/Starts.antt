-- ===== src/P2p/Mining/Starts.antt =====
-- How often a worker is started.
use miner.Prelude.{
  ℕ, suc, ◌+◌, ◌≤◌, ◌≡◌, refl, true, List, [], ◌∷◌, ◌++◌, arith, append-nil, if◌then◌else◌,
}
use miner.Prelude.Int.{pos}
use miner.P2p.Mining.{
  Mining, Message, mine, stop_mining, stop, finished, Deed, starts, halts, adds, Turn, goes,
  returns, panics, on_mine, on_finished, take_message, mining_loop,
}

abbrev pub num_starts : List Deed → ℕ
num_starts [] = 0
num_starts (starts ∷ deeds) = suc (num_starts deeds)
num_starts (halts ∷ deeds) = num_starts deeds
num_starts (adds b ∷ deeds) = num_starts deeds

abbrev pub num_adds : List Deed → ℕ
num_adds [] = 0
num_adds (starts ∷ deeds) = num_adds deeds
num_adds (halts ∷ deeds) = num_adds deeds
num_adds (adds b ∷ deeds) = suc (num_adds deeds)

abbrev pub busy : Mining → ℕ
busy m = if m.is_mining then 1 else 0

num_starts-append : (xs ys : List Deed) → num_starts (xs ++ ys) ≡ num_starts xs + num_starts ys
num_starts-append [] ys = omega arith
num_starts-append (starts ∷ xs) ys = omega (arith, num_starts-append xs ys)
num_starts-append (halts ∷ xs) ys = num_starts-append xs ys
num_starts-append (adds b ∷ xs) ys = num_starts-append xs ys

num_adds-append : (xs ys : List Deed) → num_adds (xs ++ ys) ≡ num_adds xs + num_adds ys
num_adds-append [] ys = omega arith
num_adds-append (starts ∷ xs) ys = num_adds-append xs ys
num_adds-append (halts ∷ xs) ys = num_adds-append xs ys
num_adds-append (adds b ∷ xs) ys = omega (arith, num_adds-append xs ys)

-- A worker is started only when none is busy, and then one is.
take_message-busy :
    (m m' : Mining) (e : Message) (more : List Deed)
    → take_message m e ≡ goes m' more
    → num_starts more + busy m ≤ num_adds more + busy m'
unfolding take_message
take_message-busy m m' mine more e = ground arith
take_message-busy m m' (finished b) more e = ground arith
take_message-busy m m' stop_mining more e = ground arith
take_message-busy m m' stop more e = ground arith

-- Count a miner that is marked as mining as one. If at the beginning workers have been started
-- at most as often as blocks have been handed over plus that one, then this still holds after
-- any messages, as long as the loop goes on.
pub mining_loop-starts :
    (m m' : Mining) (messages : List Message) (deeds done : List Deed)
    → num_starts deeds ≤ num_adds deeds + busy m
    → mining_loop m deeds messages ≡ goes m' done
    → num_starts done ≤ num_adds done + busy m'
unfolding mining_loop
mining_loop-starts m m' [] deeds done h e = ground arith
mining_loop-starts m m' (x ∷ messages) deeds done h e =
    go (take_message m x) refl (λ m1 more. mining_loop-starts m1 m' messages (deeds ++ more) done)
  where
    go :
        (r : Turn)
        → take_message m x ≡ r
        → ((m1 : Mining) (more : List Deed)
            → num_starts (deeds ++ more) ≤ num_adds (deeds ++ more) + busy m1
            → mining_loop m1 (deeds ++ more) messages ≡ goes m' done
            → num_starts done ≤ num_adds done + busy m')
        → num_starts done ≤ num_adds done + busy m'
    go (goes m1 more) step rest =
        rest m1 more
          (omega (
            arith,
            h,
            take_message-busy m m1 x more step,
            num_starts-append deeds more,
            num_adds-append deeds more,
          ))
          (rw (step, mining_loop) at e)
    go returns step rest = absurd (cc (rw (step, mining_loop) at e))
    go panics step rest = absurd (cc (rw (step, mining_loop) at e))

-- A request to mine, or a block that was mined with the first nonce.
abbrev pub Fruitless : Message → Type 0
Fruitless mine = Unit {0}
Fruitless (finished b) = b.nonce ≡ pos 0
Fruitless stop_mining = ⊥
Fruitless stop = ⊥

abbrev pub AllFruitless : List Message → Type 0
AllFruitless [] = Unit {0}
AllFruitless (x ∷ xs) = Fruitless x × AllFruitless xs

take_message-Fruitless :
    (m : Mining) (x : Message) → m.is_mining ≡ true → Fruitless x → take_message m x ≡ goes m []
unfolding take_message
take_message-Fruitless m mine on h = rw (on, on_mine)
take_message-Fruitless m (finished b) on h = rw (h, on_finished) refl
take_message-Fruitless m stop_mining on h = absurd h
take_message-Fruitless m stop on h = absurd h

-- Let a miner be marked as mining. As long as only requests to mine and blocks with the nonce 0 come,
-- which `Validate` may well accept, no worker is started again and no block is added.
pub mining_loop_wedged :
    (m : Mining) (messages : List Message) (deeds : List Deed)
    → m.is_mining ≡ true
    → AllFruitless messages
    → mining_loop m deeds messages ≡ goes m deeds
unfolding mining_loop
mining_loop_wedged m [] deeds on h = refl
mining_loop_wedged m (x ∷ messages) deeds on (hx, h) =
    rw (take_message-Fruitless m x on hx, mining_loop, append-nil)
      (mining_loop_wedged m messages deeds on h)
