-- ===== src/Gossip/Search/Budget.antt =====
-- A search budget is shared out completely and evenly.
use dsignal.Base.{
  ℕ, zero, suc, ◌+◌, ◌-◌, ◌*◌, ◌/◌, ◌%◌, ◌^◌, ◌≤◌, ◌<◌, ◌≡◌, ◌≢◌, sym, ◌⊎◌, inl, inr, refl, true,
  false, List, [], ◌∷◌, ◌++◌, arith, length, ltb, ◌==◌, ◌&&◌, if◌then◌else◌, Bool-cases, lt→ltb, ap,
  ◌∙◌,
}
use mathlib.Core.Path.{subst}
use native.Mathlib.Nat.{mod-lt, div-add-mod}
use dsignal.Gossip.Packet.{Addr}
use dsignal.Gossip.Peers.{
  contains, difference_string, Distinct, difference-append, length-difference, difference-Distinct,
  contains-get_or,
}
use dsignal.Gossip.Search.{
  get_random_peer, forward_loop, forward_search_request_with_budget, spend_one,
  process_search_request_forwards,
}

unfoldable pub total : List (Addr × ℕ) → ℕ
total [] = 0
total ((p, b) ∷ sent) = b + total sent

-- Every request has a budget of `each` or one more, and not 0.
abbrev pub AllFair : ℕ → List (Addr × ℕ) → Type 0
AllFair each [] = Unit
AllFair each ((p, b) ∷ sent) = ((b ≡ each) ⊎ (b ≡ each + 1)) × (0 < b) × AllFair each sent

-- The peers with one peer less.
fewer :
    (draw : ℕ) (peers chosen : List Addr) (a : Addr) (available : List Addr)
    → a ∷ available ≡ difference_string peers chosen
    → Distinct peers
    → (let p = get_random_peer draw (a ∷ available) in
        length (difference_string peers (chosen ++ (p ∷ []))) ≡ length available)
fewer draw peers chosen a available e d =
    let p = get_random_peer draw (a ∷ available) in
    let d' : Distinct (a ∷ available) =
      subst Distinct (sym e) (difference-Distinct peers chosen d) in
    let i : draw % suc (length available) < suc (length available) = mod-lt draw (omega arith) in
    let there : contains p (a ∷ available) ≡ true =
      contains-get_or (a ∷ available) (draw % suc (length available)) [] i in
    rw (difference-append peers chosen p, ← e)
      (omega (arith, length-difference p (a ∷ available) d' there))

-- One round: `rest` has shared out the budget of the other peers.
round-total :
    (p : Addr) (rest : List (Addr × ℕ)) (each share n : ℕ)
    → total rest ≡ each * n + (share - 1)
    → total (
        if share == 0 && each == 0
        then []
        else if ltb 0 share
        then (p, each + 1) ∷ rest
        else (p, each) ∷ rest)
      ≡ each * suc n + share
unfolding total
round-total p rest each share n h =
    let step : each * suc n ≡ each * n + each = omega arith in
    elim (Bool-cases (share == 0)) [
      | inl none_left ↦ elim (Bool-cases (each == 0)) [
        | inl zero_each ↦
            let e : each ≡ 0 = ground arith in rw (none_left, zero_each, e) (ground arith)
        | inr some_each ↦ rw (none_left, some_each) (ground arith)
      ]
      | inr some_left ↦ rw some_left (ground arith)
    ]

round-AllFair :
    (p : Addr) (rest : List (Addr × ℕ)) (each share : ℕ)
    → AllFair each rest
    → AllFair each (
        if share == 0 && each == 0
        then []
        else if ltb 0 share
        then (p, each + 1) ∷ rest
        else (p, each) ∷ rest)
round-AllFair p rest each share h = elim (Bool-cases (share == 0)) [
  | inl none_left ↦ elim (Bool-cases (each == 0)) [
    | inl zero_each ↦ rw (none_left, zero_each) tt
    | inr some_each ↦
        let l : ltb 0 share ≡ false = ground arith in
        rw (none_left, some_each, l) (inl refl, ground arith, h)
  ]
  | inr some_left ↦
      let l : ltb 0 share ≡ true = ground arith in rw (some_left, l) (inr refl, omega arith, h)
]

spend_one_lem : (budget : ℕ) → spend_one budget ≡ (budget + (2 ^ 64 - 1)) % 2 ^ 64
unfolding spend_one
spend_one_lem budget = refl

module _ (draws : ℕ → ℕ) (peers : List Addr) (distinct : Distinct peers) (each : ℕ) where
  loop-total :
      (fuel : ℕ) (chosen available : List Addr) (share : ℕ)
      → available ≡ difference_string peers chosen
      → length available ≤ fuel
      → share ≤ length available
      → total (forward_loop fuel draws peers chosen available each share)
        ≡ each * length available + share
  unfolding forward_loop total
  loop-total zero chosen [] share e enough le = omega arith
  loop-total zero chosen (a ∷ available) share e enough le = absurd (omega arith)
  loop-total (suc fuel) chosen [] share e enough le = omega arith
  loop-total (suc fuel) chosen (a ∷ available) share e enough le =
      let p = get_random_peer (draws fuel) (a ∷ available) in
      let chosen' = chosen ++ (p ∷ []) in
      let less : length (difference_string peers chosen') ≡ length available =
        fewer (draws fuel) peers chosen a available e distinct in
      let rest_sum : total (
            forward_loop fuel draws peers chosen' (difference_string peers chosen') each
              (share - 1))
          ≡ each * length available + (share - 1) =
        loop-total fuel chosen' (difference_string peers chosen') (share - 1) refl (omega arith)
          (omega arith)
        ∙ ap (λ (t : ℕ). each * t + (share - 1)) less in
      round-total p
        (forward_loop fuel draws peers chosen' (difference_string peers chosen') each (share - 1))
        each share (length available) rest_sum

  loop-AllFair :
      (fuel : ℕ) (chosen available : List Addr) (share : ℕ)
      → AllFair each (forward_loop fuel draws peers chosen available each share)
  unfolding forward_loop
  loop-AllFair zero chosen available share = tt
  loop-AllFair (suc fuel) chosen [] share = tt
  loop-AllFair (suc fuel) chosen (a ∷ available) share =
      let p = get_random_peer (draws fuel) (a ∷ available) in
      let chosen' = chosen ++ (p ∷ []) in
      round-AllFair p
        (forward_loop fuel draws peers chosen' (difference_string peers chosen') each (share - 1))
        each share (loop-AllFair fuel chosen' (difference_string peers chosen') (share - 1))

length-difference-le :
    (peers list2 : List Addr) → length (difference_string peers list2) ≤ length peers
unfolding difference_string
length-difference-le [] list2 = omega arith
length-difference-le (p ∷ peers) list2 = ground (arith, length-difference-le peers list2)

length-pos : (peers : List Addr) → peers ≢ [] → 0 < length peers
length-pos [] h = absurd (h refl)
length-pos (p ∷ peers) h = omega arith

-- The requests that a budget is forwarded by carry exactly that budget together, no two of them
-- differ by more than one, and none has budget 0. The peers are distinct, and one of them is not
-- the sender.
pub forward_search_request_with_budget_shares :
    (draws : ℕ → ℕ) (peers : List Addr) (sender : Addr) (budget : ℕ)
    → Distinct peers
    → difference_string peers (sender ∷ []) ≢ []
    → (let sent = forward_search_request_with_budget draws peers sender budget in
        let each = budget / length (difference_string peers (sender ∷ [])) in
        (total sent ≡ budget) × AllFair each sent)
unfolding forward_search_request_with_budget total
forward_search_request_with_budget_shares draws peers sender budget d some =
    let available = difference_string peers (sender ∷ []) in
    let n = length available in
    let pos : 0 < n = length-pos available some in
    let n_pos : ltb 0 n ≡ true = lt→ltb 0 n pos in
    elim (Bool-cases (ltb 0 budget)) [
      | inr no_budget ↦ let e : budget ≡ 0 = ground arith in rw (no_budget, e) (refl, tt)
      | inl has_budget ↦
          rw (has_budget, n_pos)
            (
              loop-total draws peers d (budget / n) (length peers) (sender ∷ []) available
                    (budget % n) refl (length-difference-le peers (sender ∷ []))
                    (let lt : budget % n < n = mod-lt budget pos in omega arith)
                  ∙ ground (arith, div-add-mod budget n),
              loop-AllFair draws peers d (budget / n) (length peers) (sender ∷ []) available
                  (budget % n),
            )
    ]

-- A node whose peers are distinct and include one that is not the sender passes a search request on: it
-- spends one unit of the budget and shares out the rest. A request with budget 0 becomes the largest
-- budget that there is.
pub process_search_request_forwards-total :
    (draws : ℕ → ℕ) (peers : List Addr) (sender : Addr) (budget : ℕ)
    → Distinct peers
    → difference_string peers (sender ∷ []) ≢ []
    → budget < 2 ^ 64
    → (let sent = process_search_request_forwards draws peers sender budget in
        (0 < budget → total sent + 1 ≡ budget) × (budget ≡ 0 → total sent ≡ 2 ^ 64 - 1))
unfolding process_search_request_forwards
process_search_request_forwards-total draws peers sender budget d some small =
    let shares : total (forward_search_request_with_budget draws peers sender (spend_one budget))
        ≡ spend_one budget =
      (forward_search_request_with_budget_shares draws peers sender (spend_one budget) d some).0 in
    (
      λ pos. omega (arith, shares, spend_one_lem budget),
      λ z. omega (arith, shares, spend_one_lem budget),
    )
