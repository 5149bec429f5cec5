-- ===== src/Storage/Lookup/Returns.antt =====
-- `NodeLookUp` on a network whose answers name nodes of a finite list: it comes to an end.
use mathlib.Core.Path.{subst}
use dsignal.Base.{
  ◌≢◌, ℕ, zero, suc, ◌+◌, ◌*◌, ◌≤◌, ◌<◌, ◌≡◌, refl, ap, Bool, true, false, Option, none, some, List,
  [], ◌∷◌, Bytes, GoString, length, length-take, take, ◌==◌, Bool-cases, Option-cases, inl, inr,
  arith,
}
use dsignal.Base.Encode.{hex_encode}
use dsignal.Storage.Bytes.{d_store_id_size}
use dsignal.Storage.Table.{RoutingEntry, find_k_closest}
use dsignal.Storage.Message.{MessageAddrPair}
use dsignal.Storage.Node.{DStore}
use dsignal.Storage.Lookup.{
  Contact, Search, Network, is_known, sort_contacts, start_search, contact_closest, mark_responded,
  learn_all, Next, settled, remove_at, ask_at, next_contact, take_out, mark_at,
}
use dsignal.Storage.Lookup.Nodes.{
  LookedUp, nodes, take_node_replies, entries, settle, approach, node_look_up,
}
use dsignal.Storage.Lookup.Settled.{IsSorted, AllAnswered, sort_contacts-IsSorted, take-IsSorted}
use dsignal.Storage.Lookup.Answered.{AllHaveAnswered, IsNear, Good, node_look_up-Good}
use dsignal.Storage.Lookup.Measure.{
  cost, measure, measure-set_list, measure-start_search, bit, cost-sort_contacts,
  cost-mark_responded, cost-contact_closest, AllFrom, learn_lem, learn_all_lem, NextCases,
  next_contact_cases,
}

-- An answer to a request for nodes, with nodes of the list only, or none in time.
abbrev pub IsAnswer : List GoString → Option MessageAddrPair → Type 0
IsAnswer all none = Unit
IsAnswer all (some pair) =
    (found : List RoutingEntry) × (pair.message.find_node_reply ≡ some found) × AllFrom all found

abbrev pub AllAnswers : List GoString → List (Option MessageAddrPair) → Type 0
AllAnswers all [] = Unit
AllAnswers all (reply ∷ replies) = IsAnswer all reply × AllAnswers all replies

pub record Answers (all : List GoString) (net : Network) : Type 0 where
  pub at_once : (k : ℕ) (asked : List GoString) → AllAnswers all (net.arrivals k asked)
  pub single : (k : ℕ) (address : GoString) → IsAnswer all (net.answer k address)

-- A look-up stops with the nodes of contacts, not too many.
abbrev Stops : ℕ → LookedUp → Type 0
Stops replication r =
    (cs : List Contact) × (r ≡ nodes (entries cs))
    × AllAnswered cs
    × IsSorted cs
    × (length cs ≤ replication)

-- What a look-up comes to: nodes that have all answered, no closer one after another, and not too many.
abbrev pub Returns : Network → Bytes → ℕ → LookedUp → Type 0
Returns net id replication r =
    (res : List RoutingEntry) × (r ≡ nodes res)
    × AllHaveAnswered net res
    × IsNear id res
    × (length res ≤ replication)

length-entries : (cs : List Contact) → length (entries cs) ≡ length cs
length-entries [] = refl
length-entries (c ∷ cs) = ap suc (length-entries cs)

module _ (all : List GoString) (net : Network) (answers : Answers all net) (id : Bytes)
    (r : ℕ) where
  take_node_replies_lem :
      (replies : List (Option MessageAddrPair)) (s : Search) (updated : Bool)
      → AllAnswers all replies
      → (s' : Search) × (updated' : Bool) × (take_node_replies id (suc r) replies s updated
          ≡ some (s', updated'))
        × (measure all s' + bit updated' ≤ measure all s + bit updated)
  unfolding take_node_replies
  take_node_replies_lem [] s updated good = (s, updated, refl, omega arith)
  take_node_replies_lem (none ∷ replies) s updated (one, good) =
      take_node_replies_lem replies s updated good
  take_node_replies_lem (some pair ∷ replies) s updated ((found, e, from), good) =
      let key = hex_encode pair.message.source_id in
      elim (Bool-cases (is_known key s.entry_map)) [
        | inr other ↦ rw (other, take_node_replies) (take_node_replies_lem replies s updated good)
        | inl ours ↦
            let marked : Search = record s { entry_list = mark_responded key s.entry_list } in
            let (s1, u1, e1, less1) = learn_lem all id r found marked updated from in
            let (s2, u2, e2, less2) = take_node_replies_lem replies s1 u1 good in
            (
              s2,
              u2,
              rw (ours, take_node_replies) (rw e (rw e1 e2)),
              omega (
                arith,
                less1,
                less2,
                measure-set_list all s (mark_responded key s.entry_list),
                cost-mark_responded key s.entry_list,
              ),
            )
      ]

  sorted_measure :
      (s : Search)
      → measure all (record s { entry_list = sort_contacts s.entry_list }) ≡ measure all s
  sorted_measure s =
      omega (
        arith,
        measure-set_list all s (sort_contacts s.entry_list),
        cost-sort_contacts s.entry_list,
      )

  sorted_lt :
      (s : Search) (fuel : ℕ)
      → measure all s < fuel
      → measure all (record s { entry_list = sort_contacts s.entry_list }) < fuel
  sorted_lt s fuel h = omega (arith, sorted_measure s)

  settle_step :
      (fuel : ℕ) (s : Search) (next : Next)
      → next_contact (suc r) s.entry_list 0 ≡ next
      → NextCases (suc r) s.entry_list 0 next
      → measure all s < suc fuel
      → IsSorted s.entry_list
      → ((s' : Search)
          → measure all s' < fuel
          → IsSorted s'.entry_list
          → Stops (suc r) (settle net id (suc r) fuel s'))
      → Stops (suc r) (settle net id (suc r) (suc fuel) s)
  unfolding settle
  settle_step fuel s settled e answered h sorted ih = (
    take (suc r) s.entry_list,
    rw (settle, e) refl,
    answered,
    take-IsSorted (suc r) s.entry_list sorted,
    omega (arith, length-take (suc r) s.entry_list),
  )
  settle_step fuel s (remove_at i) e (j, at, less) h sorted ih =
      let at' : j ≡ i = omega arith in
      let cs = take_out i s.entry_list in
      let less' : cost cs < cost s.entry_list = rw at' at less in
      rw (settle, e)
        (ih (record s { entry_list = sort_contacts cs })
          (sorted_lt (record s { entry_list = cs }) fuel
            (omega (arith, measure-set_list all s cs, less')))
          (sort_contacts-IsSorted cs))
  settle_step fuel s (ask_at i address) e (j, at, less) h sorted ih =
      let at' : j ≡ i = omega arith in
      let less' : (b : Bool) → cost (mark_at i b s.entry_list) < cost s.entry_list =
        rw at' at less in
      elim (Option-cases (net.answer fuel address)) [
        | inl late ↦
            let cs = mark_at i false s.entry_list in
            rw (settle, e)
              (rw late (
                ih (record s { entry_list = sort_contacts cs })
                  (sorted_lt (record s { entry_list = cs }) fuel
                    (omega (arith, measure-set_list all s cs, less' false)))
                  (sort_contacts-IsSorted cs)))
        | inr (pair, hit) ↦
            let (found, e', from) = rw hit at (answers.single fuel address) in
            let cs = mark_at i true s.entry_list in
            let s' = learn_all id found (record s { entry_list = cs }) in
            rw (settle, e)
              (rw hit (
                rw e' (
                  ih (record s' { entry_list = sort_contacts s'.entry_list })
                    (sorted_lt s' fuel (
                      omega (
                        arith,
                        learn_all_lem all id found (record s { entry_list = cs }) from,
                        measure-set_list all s cs,
                        less' true,
                      )))
                    (sort_contacts-IsSorted s'.entry_list))))
      ]

  settle_lem :
      (fuel : ℕ) (s : Search)
      → measure all s < fuel
      → IsSorted s.entry_list
      → Stops (suc r) (settle net id (suc r) fuel s)
  settle_lem zero s h sorted = absurd (omega arith)
  settle_lem (suc fuel) s h sorted =
      settle_step fuel s (next_contact (suc r) s.entry_list 0) refl
        (next_contact_cases (suc r) s.entry_list 0) h sorted (settle_lem fuel)

  approach_lem :
      (concurrency fuel : ℕ) (s : Search)
      → suc (measure all s) < fuel
      → Stops (suc r) (approach net id (suc r) concurrency fuel s)
  unfolding approach
  approach_lem concurrency zero s h = absurd (omega arith)
  approach_lem concurrency (suc fuel) s h =
      let cs = (contact_closest concurrency s.entry_list).0 in
      let asked = (contact_closest concurrency s.entry_list).1 in
      let (s', updated, e, less) =
        take_node_replies_lem (net.arrivals fuel asked) (record s { entry_list = cs }) false
          (answers.at_once fuel asked) in
      let smaller : measure all s' + bit updated ≤ measure all s =
        omega
          (arith, less, measure-set_list all s cs, cost-contact_closest concurrency s.entry_list) in
      elim (Bool-cases updated) [
        | inl more ↦
            rw (approach, e)
              (rw more (
                approach_lem concurrency fuel
                  (record s' { entry_list = sort_contacts s'.entry_list })
                  (omega (arith, sorted_measure s', smaller, ap bit more))))
        | inr over ↦
            rw (approach, e)
              (rw over (
                settle_lem fuel (record s' { entry_list = sort_contacts s'.entry_list })
                  (sorted_lt s' fuel (omega (arith, smaller)))
                  (sort_contacts-IsSorted s'.entry_list)))
      ]

approach_any :
    (all : List GoString) (net : Network) (answers : Answers all net) (id : Bytes)
    (replication concurrency fuel : ℕ) (s : Search)
    → 0 < replication
    → suc (measure all s) < fuel
    → Stops replication (approach net id replication concurrency fuel s)
approach_any all net answers id zero concurrency fuel s some_nodes h = absurd (omega arith)
approach_any all net answers id (suc r) concurrency fuel s some_nodes h =
    approach_lem all net answers id r concurrency fuel s h

-- The rounds that are enough: two, three for each node of the list, and two for each that is known at first.
abbrev pub enough : List GoString → Bytes → DStore → ℕ
enough all id ds =
    2 + 3 * length all + 2 * length (find_k_closest id ds.replication_param ds.routing_table)

node_look_up-Stops :
    (all : List GoString) (net : Network) (id : Bytes) (ds : DStore) (fuel : ℕ)
    → Answers all net
    → 0 < ds.replication_param
    → enough all id ds ≤ fuel
    → Stops ds.replication_param (node_look_up net fuel id ds)
unfolding node_look_up
node_look_up-Stops all net id ds fuel answers some_nodes h =
    elim (Bool-cases (length id == d_store_id_size)) [
      | inr other ↦ rw (node_look_up, other) ([], refl, tt, tt, omega arith)
      | inl whole ↦
          let known = find_k_closest id ds.replication_param ds.routing_table in
          rw (node_look_up, whole)
            (approach_any all net answers id ds.replication_param ds.concurrency_param fuel
              (start_search id known) some_nodes
              (omega (arith, measure-start_search all id known, h)))
    ]

-- On a network that answers every request for nodes in time or not at all, with nodes of a finite list
-- only, `NodeLookUp` returns: within two rounds, three for each node of the list and two for each that it
-- knows at first, with at most as many nodes as the replication parameter (at least one) says. Each of
-- these nodes has answered: a request to it alone, or there is an answer under its id among those that came
-- in some round of requests sent at once. None is closer to the id than the one before it. For an id of
-- another length there are none.
pub node_look_up-Returns :
    (all : List GoString) (net : Network) (id : Bytes) (ds : DStore) (fuel : ℕ)
    → Answers all net
    → 0 < ds.replication_param
    → enough all id ds ≤ fuel
    → Returns net id ds.replication_param (node_look_up net fuel id ds)
      × (length id ≢ d_store_id_size → node_look_up net fuel id ds ≡ nodes [])
unfolding node_look_up
node_look_up-Returns all net id ds fuel answers some_nodes h =
    let (cs, e, answered, sorted, few) =
      node_look_up-Stops all net id ds fuel answers some_nodes h in
    let (known, near) = subst (Good net id) e (node_look_up-Good net fuel id ds) in
    (
      (entries cs, e, known, near, omega (arith, few, length-entries cs)),
      λ other.
          let no : (length id == d_store_id_size) ≡ false = ground (arith, other) in
          rw (node_look_up, no) refl,
    )
