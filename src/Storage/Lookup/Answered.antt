-- ===== src/Storage/Lookup/Answered.antt =====
-- The nodes that `NodeLookUp` returns have answered requests, the closest first.
use dsignal.Base.{
  ℕ, zero, suc, ◌+◌, ◌≡◌, ◌⊎◌, ◌∙◌, inl, inr, refl, sym, ap, Bool, true, false, ◌||◌, Option, none,
  some, List, [], ◌∷◌, ◌++◌, Bytes, GoString, bytes_dec, length, take, drop, if◌then◌else◌, ite,
  ◌==◌, Bool-cases, Option-cases, arith,
}
use dsignal.Base.Encode.{hex_encode}
use dsignal.Storage.Bytes.{d_store_id_size}
use dsignal.Storage.Table.{RoutingEntry, distance, find_k_closest}
use dsignal.Storage.Message.{MessageAddrPair}
use dsignal.Storage.Node.{DStore}
use dsignal.Storage.Lookup.{
  Contact, Search, Network, is_known, closer, insert_contact, sort_contacts, start_search,
  contacts_of, new_contact, contact_closest, mark_responded, add_contact, improves, learn,
  learn_all, Next, settled, remove_at, ask_at, next_contact, take_out, mark_at,
}
use dsignal.Storage.Lookup.Nodes.{
  LookedUp, nodes, panicked, out_of_fuel, take_node_replies, entries, settle, approach,
  node_look_up,
}
use dsignal.Storage.Lookup.Settled.{IsSorted, AllAnswered, sort_contacts-IsSorted, take-IsSorted}
use dsignal.Storage.Lookup.Measure.{next_contact_cases, NextCases}

-- One of the replies that came.
abbrev pub Came : MessageAddrPair → List (Option MessageAddrPair) → Type 0
Came pair [] = ⊥
Came pair (reply ∷ replies) = (reply ≡ some pair) ⊎ Came pair replies

-- A request to the node alone was answered, or a message under its id came in answer to those sent at once.
abbrev pub HasAnswered : Network → RoutingEntry → Type 0
HasAnswered net re =
    ((k : ℕ) × (pair : MessageAddrPair) × (net.answer k re.address ≡ some pair))
    ⊎ ((k : ℕ) × (asked : List GoString) × (pair : MessageAddrPair) × Came pair
          (net.arrivals k asked)
        × (hex_encode pair.message.source_id ≡ hex_encode re.id))

abbrev pub AllHaveAnswered : Network → List RoutingEntry → Type 0
AllHaveAnswered net [] = Unit
AllHaveAnswered net (re ∷ res) = HasAnswered net re × AllHaveAnswered net res

-- No node is closer to the id than the one before it.
abbrev pub IsNear : Bytes → List RoutingEntry → Type 0
IsNear id [] = Unit
IsNear id (re ∷ []) = Unit
IsNear id (re ∷ next ∷ res) =
    (closer (distance id next) (distance id re) ≡ false) × IsNear id (next ∷ res)

abbrev pub Good : Network → Bytes → LookedUp → Type 0
Good net id (nodes res) = AllHaveAnswered net res × IsNear id res
Good net id panicked = Unit
Good net id out_of_fuel = Unit

module _ (net : Network) (id : Bytes) where
  -- The distance of a contact is that of its node, and if it is marked, the node has answered.
  abbrev Honest : Contact → Type 0
  Honest c = (c.dist ≡ distance id c.entry) × (c.responded ≡ true → HasAnswered net c.entry)

  abbrev AllHonest : List Contact → Type 0
  AllHonest [] = Unit
  AllHonest (c ∷ cs) = Honest c × AllHonest cs

  append-AllHonest : (cs ds : List Contact) → AllHonest cs → AllHonest ds → AllHonest (cs ++ ds)
  append-AllHonest [] ds h g = g
  append-AllHonest (c ∷ cs) ds (one, h) g = (one, append-AllHonest cs ds h g)

  take-AllHonest : (n : ℕ) (cs : List Contact) → AllHonest cs → AllHonest (take n cs)
  take-AllHonest zero cs h = tt
  take-AllHonest (suc n) [] h = tt
  take-AllHonest (suc n) (c ∷ cs) (one, h) = (one, take-AllHonest n cs h)

  drop-AllHonest : (n : ℕ) (cs : List Contact) → AllHonest cs → AllHonest (drop n cs)
  drop-AllHonest zero cs h = h
  drop-AllHonest (suc n) [] h = tt
  drop-AllHonest (suc n) (c ∷ cs) (one, h) = drop-AllHonest n cs h

  insert-AllHonest :
      (c : Contact) (cs : List Contact) → Honest c → AllHonest cs → AllHonest (insert_contact c cs)
  unfolding insert_contact
  insert-AllHonest c [] one h = (one, tt)
  insert-AllHonest c (x ∷ cs) one (two, h) = elim (Bool-cases (closer x.dist c.dist)) [
    | inl before ↦ rw before (two, insert-AllHonest c cs one h)
    | inr after ↦ rw after (one, (two, h))
  ]

  sort-AllHonest : (cs : List Contact) → AllHonest cs → AllHonest (sort_contacts cs)
  unfolding sort_contacts
  sort-AllHonest [] h = tt
  sort-AllHonest (c ∷ cs) (one, h) = insert-AllHonest c (sort_contacts cs) one (sort-AllHonest cs h)

  new-AllHonest : (res : List RoutingEntry) → AllHonest (contacts_of id res)
  new-AllHonest [] = tt
  new-AllHonest (re ∷ res) = ((refl, λ e. cc), new-AllHonest res)

  closest-AllHonest :
      (alpha : ℕ) (cs : List Contact) → AllHonest cs → AllHonest (contact_closest alpha cs).0
  unfolding contact_closest
  closest-AllHonest zero cs h = h
  closest-AllHonest (suc alpha) [] h = tt
  closest-AllHonest (suc alpha) (c ∷ cs) (one, h) = elim (Bool-cases c.contacted) [
    | inl asked ↦ rw (contact_closest, asked) (one, closest-AllHonest (suc alpha) cs h)
    | inr new ↦ rw (contact_closest, new) (one, closest-AllHonest alpha cs h)
  ]

  -- A reply came under the key.
  Replied : GoString → Type 0
  Replied key =
      (k : ℕ) × (asked : List GoString) × (pair : MessageAddrPair) × Came pair
        (net.arrivals k asked)
      × (hex_encode pair.message.source_id ≡ key)

  mark-AllHonest :
      (key : GoString) (cs : List Contact)
      → Replied key
      → AllHonest cs
      → AllHonest (mark_responded key cs)
  unfolding mark_responded Replied
  mark-AllHonest key [] replied h = tt
  mark-AllHonest key (c ∷ cs) replied (one, h) = (
    elim (bytes_dec (hex_encode c.entry.id) key)
        as (λ d. Honest (ite d (record c { responded = true }) c)) [
          | yes e ↦
              let (k, asked, pair, came, same) = replied in
              (one.0, λ b. inr (k, asked, pair, came, same ∙ sym e))
          | no ne ↦ one
        ],
    mark-AllHonest key cs replied h,
  )

  add-AllHonest :
      (re : RoutingEntry) (s : Search)
      → AllHonest s.entry_list
      → AllHonest (add_contact id re s).entry_list
  unfolding add_contact
  add-AllHonest re s h =
      append-AllHonest s.entry_list (new_contact id re ∷ []) h ((refl, λ e. cc), tt)

  unless-AllHonest :
      (b : Bool) (s t : Search)
      → AllHonest s.entry_list
      → AllHonest t.entry_list
      → AllHonest (if b then s else t).entry_list
  unless-AllHonest true s t h g = h
  unless-AllHonest false s t h g = g

  learn_all-AllHonest :
      (res : List RoutingEntry) (s : Search)
      → AllHonest s.entry_list
      → AllHonest (learn_all id res s).entry_list
  unfolding learn_all
  learn_all-AllHonest [] s h = h
  learn_all-AllHonest (re ∷ res) s h =
      learn_all-AllHonest res
        (if is_known (hex_encode re.id) s.entry_map then s else add_contact id re s)
        (unless-AllHonest (is_known (hex_encode re.id) s.entry_map) s (add_contact id re s) h
          (add-AllHonest re s h))

  -- Of a search that goes on.
  abbrev Holds : Option (Search × Bool) → Type 0
  Holds none = Unit
  Holds (some (s, updated)) = AllHonest s.entry_list

  learn-Holds :
      (r : ℕ) (res : List RoutingEntry) (s : Search) (updated : Bool)
      → AllHonest s.entry_list
      → Holds (learn id r res s updated)
  unfolding learn
  learn-Holds r [] s updated h = h
  learn-Holds r (re ∷ res) s updated h =
      elim (Bool-cases (is_known (hex_encode re.id) s.entry_map)) [
        | inl old ↦ rw (old, learn) (learn-Holds r res s updated h)
        | inr new ↦ elim (Option-cases (improves r (distance id re) s.entry_list)) [
          | inl out ↦ rw (new, learn) (rw out tt)
          | inr (better, e) ↦
              rw (new, learn)
                (rw e (
                  learn-Holds r res (add_contact id re s) (updated || better)
                    (add-AllHonest re s h)))
        ]
      ]

  replies-Holds :
      (r k : ℕ) (asked : List GoString) (replies : List (Option MessageAddrPair)) (s : Search)
      (updated : Bool)
      → ((pair : MessageAddrPair) → Came pair replies → Came pair (net.arrivals k asked))
      → AllHonest s.entry_list
      → Holds (take_node_replies id r replies s updated)
  unfolding take_node_replies Replied
  replies-Holds r k asked [] s updated each h = h
  replies-Holds r k asked (none ∷ replies) s updated each h =
      replies-Holds r k asked replies s updated (λ pair came. each pair (inr came)) h
  replies-Holds r k asked (some pair ∷ replies) s updated each h =
      let key = hex_encode pair.message.source_id in
      let later = λ (other : MessageAddrPair) (came : Came other replies). each other (inr came) in
      elim (Bool-cases (is_known key s.entry_map)) [
        | inr other ↦
            rw (other, take_node_replies) (replies-Holds r k asked replies s updated later h)
        | inl ours ↦ elim (Option-cases pair.message.find_node_reply) [
          | inl no_nodes ↦ rw (ours, take_node_replies) (rw no_nodes tt)
          | inr (found, e) ↦
              let marked : Search = record s { entry_list = mark_responded key s.entry_list } in
              let good =
                mark-AllHonest key s.entry_list (k, asked, pair, each pair (inl refl), refl) h in
              let learnt = learn-Holds r found marked updated good in
              elim (Option-cases (learn id r found marked updated)) [
                | inl out ↦ rw (ours, take_node_replies) (rw e (rw out tt))
                | inr ((s', updated'), e') ↦
                    rw (ours, take_node_replies)
                      (rw e (
                        rw e'
                          (replies-Holds r k asked replies s' updated' later (rw e' at learnt))))
              ]
        ]
      ]

  late-AllHonest : (i : ℕ) (cs : List Contact) → AllHonest cs → AllHonest (mark_at i false cs)
  unfolding mark_at
  late-AllHonest i [] h = tt
  late-AllHonest zero (c ∷ cs) ((near, answered), h) =
      ((near, λ b. answered (or_false c.responded b)), h)
    where
      or_false : (b : Bool) → (b || false) ≡ true → b ≡ true
      or_false true e = refl
      or_false false e = e
  late-AllHonest (suc i) (c ∷ cs) (one, h) = (one, late-AllHonest i cs h)

  index_of : Next → ℕ
  index_of settled = 0
  index_of (remove_at k) = k
  index_of (ask_at k address) = k

  address_of : Next → GoString
  address_of settled = []
  address_of (remove_at k) = []
  address_of (ask_at k address) = address

  mark_here :
      (c : Contact) (cs : List Contact) (j : ℕ)
      → HasAnswered net c.entry
      → j ≡ 0
      → AllHonest (c ∷ cs)
      → AllHonest (mark_at j true (c ∷ cs))
  unfolding mark_at
  mark_here c cs zero known z ((near, answered), h) = ((near, λ b. known), h)
  mark_here c cs (suc j) known z h = absurd (omega arith)

  mark_done :
      (c : Contact) (cs : List Contact) (j : ℕ)
      → c.responded ≡ true
      → ((j' : ℕ) → j ≡ suc j' → AllHonest (mark_at j' true cs))
      → AllHonest (c ∷ cs)
      → AllHonest (mark_at j true (c ∷ cs))
  unfolding mark_at
  mark_done c cs zero done ih ((near, answered), h) = ((near, λ b. answered done), h)
  mark_done c cs (suc j) done ih (one, h) = (one, ih j refl)

  -- The contact that is asked answers.
  asked-AllHonest :
      (r : ℕ) (cs : List Contact) (start i k : ℕ) (address : GoString) (pair : MessageAddrPair)
      → next_contact r cs start ≡ ask_at i address
      → net.answer k address ≡ some pair
      → (j : ℕ) → i ≡ j + start
      → AllHonest cs
      → AllHonest (mark_at j true cs)
  unfolding next_contact mark_at index_of address_of
  asked-AllHonest zero cs start i k address pair e hit j at h = cc
  asked-AllHonest (suc r) [] start i k address pair e hit j at h = tt
  asked-AllHonest (suc r) (c ∷ cs) start i k address pair e hit j at h =
      elim (Bool-cases c.contacted) [
        | inr new ↦
            let here : ask_at start c.entry.address ≡ ask_at i address =
              rw (new, next_contact) at e in
            let place : start ≡ i = ap index_of here in
            let known : HasAnswered net c.entry =
              inl (k, pair, ap (net.answer k) (ap address_of here) ∙ hit) in
            mark_here c cs j known (omega (arith, place, at)) h
        | inl old ↦ elim (Bool-cases c.responded) [
          | inr silent ↦
              let none_asked : remove_at start ≡ ask_at i address =
                rw (old, silent, next_contact) at e in
              absurd (cc)
          | inl done ↦
              let rest : next_contact r cs (suc start) ≡ ask_at i address =
                rw (old, done, next_contact) at e in
              mark_done c cs j done
                (λ j' next.
                  asked-AllHonest r cs (suc start) i k address pair rest hit j'
                    (omega (arith, at, next)) h.1)
                h
        ]
      ]

  entries-Good :
      (cs : List Contact)
      → AllHonest cs
      → AllAnswered cs
      → IsSorted cs
      → AllHaveAnswered net (entries cs) × IsNear id (entries cs)
  entries-Good [] h a s = (tt, tt)
  entries-Good (c ∷ []) ((near, answered), h) (asked, done, a) s = ((answered done, tt), tt)
  entries-Good (c ∷ d ∷ cs) ((near, answered), (two, h)) (asked, done, a) (order, s) =
      let (rest, order') = entries-Good (d ∷ cs) (two, h) a s in
      (
        (answered done, rest),
        (
          ap (λ x. closer x (distance id c.entry)) (sym two.0)
              ∙ ap (closer d.dist) (sym near)
              ∙ order,
          order',
        ),
      )

  settle_step-Good :
      (r fuel : ℕ) (s : Search) (next : Next)
      → next_contact r s.entry_list 0 ≡ next
      → NextCases r s.entry_list 0 next
      → AllHonest s.entry_list
      → IsSorted s.entry_list
      → ((s' : Search)
          → AllHonest s'.entry_list
          → IsSorted s'.entry_list
          → Good net id (settle net id r fuel s'))
      → Good net id (settle net id r (suc fuel) s)
  unfolding settle
  settle_step-Good r fuel s settled e answered h sorted ih =
      rw (settle, e)
        (entries-Good (take r s.entry_list) (take-AllHonest r s.entry_list h) answered
          (take-IsSorted r s.entry_list sorted))
  settle_step-Good r fuel s (remove_at i) e cases h sorted ih =
      let cs = take_out i s.entry_list in
      let good =
        append-AllHonest (take i s.entry_list) (drop (suc i) s.entry_list)
          (take-AllHonest i s.entry_list h) (drop-AllHonest (suc i) s.entry_list h) in
      rw (settle, e)
        (ih (record s { entry_list = sort_contacts cs }) (sort-AllHonest cs good)
          (sort_contacts-IsSorted cs))
  settle_step-Good r fuel s (ask_at i address) e (j, at, less) h sorted ih =
      elim (Option-cases (net.answer fuel address)) [
        | inl late ↦
            let cs = mark_at i false s.entry_list in
            rw (settle, e)
              (rw late (
                ih (record s { entry_list = sort_contacts cs })
                  (sort-AllHonest cs (late-AllHonest i s.entry_list h))
                  (sort_contacts-IsSorted cs)))
        | inr (pair, hit) ↦
            let cs = mark_at i true s.entry_list in
            let good =
              asked-AllHonest r s.entry_list 0 i fuel address pair e hit i (omega arith) h in
            elim (Option-cases pair.message.find_node_reply) [
              | inl no_nodes ↦ rw (settle, e) (rw hit (rw no_nodes tt))
              | inr (found, e') ↦
                  let s' = learn_all id found (record s { entry_list = cs }) in
                  rw (settle, e)
                    (rw hit (
                      rw e' (
                        ih (record s' { entry_list = sort_contacts s'.entry_list })
                          (sort-AllHonest s'.entry_list
                            (learn_all-AllHonest found (record s { entry_list = cs }) good))
                          (sort_contacts-IsSorted s'.entry_list))))
            ]
      ]

  settle-Good :
      (r fuel : ℕ) (s : Search)
      → AllHonest s.entry_list
      → IsSorted s.entry_list
      → Good net id (settle net id r fuel s)
  unfolding settle
  settle-Good r zero s h sorted = tt
  settle-Good r (suc fuel) s h sorted =
      settle_step-Good r fuel s (next_contact r s.entry_list 0) refl
        (next_contact_cases r s.entry_list 0) h sorted (settle-Good r fuel)

  approach-Good :
      (r concurrency fuel : ℕ) (s : Search)
      → AllHonest s.entry_list
      → Good net id (approach net id r concurrency fuel s)
  unfolding approach
  approach-Good r concurrency zero s h = tt
  approach-Good r concurrency (suc fuel) s h =
      let cs = (contact_closest concurrency s.entry_list).0 in
      let asked = (contact_closest concurrency s.entry_list).1 in
      let holds =
        replies-Holds r fuel asked (net.arrivals fuel asked) (record s { entry_list = cs }) false
          (λ pair came. came) (closest-AllHonest concurrency s.entry_list h) in
      elim (Option-cases
        (take_node_replies id r (net.arrivals fuel asked) (record s { entry_list = cs }) false)) [
          | inl out ↦ rw (approach, out) tt
          | inr ((s', updated), e) ↦
              let good = sort-AllHonest s'.entry_list (rw e at holds) in
              let sorted : Search = record s' { entry_list = sort_contacts s'.entry_list } in
              elim (Bool-cases updated) [
                | inl more ↦
                    rw (approach, e) (rw more (approach-Good r concurrency fuel sorted good))
                | inr over ↦
                    rw (approach, e)
                      (rw over
                        (settle-Good r fuel sorted good (sort_contacts-IsSorted s'.entry_list)))
              ]
        ]

pub node_look_up-Good :
    (net : Network) (fuel : ℕ) (id : Bytes) (ds : DStore)
    → Good net id (node_look_up net fuel id ds)
unfolding node_look_up
node_look_up-Good net fuel id ds = elim (Bool-cases (length id == d_store_id_size)) [
  | inr other ↦ rw (node_look_up, other) (tt, tt)
  | inl whole ↦
      let known = find_k_closest id ds.replication_param ds.routing_table in
      rw (node_look_up, whole)
        (approach-Good net id ds.replication_param ds.concurrency_param fuel (start_search id known)
          (sort-AllHonest net id (contacts_of id known) (new-AllHonest net id known)))
]
