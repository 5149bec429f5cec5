-- ===== src/Storage/Lookup/Measure.antt =====
-- What is left to do of a look-up: the nodes that are not known yet count three, a contact that was not
-- asked two, and one that has not answered one.
use dsignal.Base.{
  ℕ, zero, suc, ◌+◌, ◌*◌, ◌≤◌, ◌<◌, ◌≡◌, ◌∙◌, refl, sym, ap, Bool, true, false, some, List, [], ◌∷◌,
  ◌++◌, ◌||◌, Bytes, GoString, bytes_dec, if_pos, length, get_elem?, take, ltb, if◌then◌else◌,
  Bool-cases, inl, inr, arith,
}
use dsignal.Base.Encode.{hex_encode}
use dsignal.Storage.Table.{RoutingEntry, distance}
use dsignal.Storage.Lookup.{
  Contact, Search, is_known, closer, contacts_of, start_search, insert_contact, sort_contacts,
  new_contact, contact_closest, mark_responded, add_contact, improves, learn, learn_all, Next,
  settled, remove_at, ask_at, next_contact, take_out, mark_at,
}
use dsignal.Storage.Lookup.Settled.{AllAnswered}

pub unknown : List GoString → List GoString → ℕ
unknown [] keys = 0
unknown (u ∷ all) keys = let rest = unknown all keys in if is_known u keys then rest else suc rest

pub cost_of : Contact → ℕ
cost_of c = if c.contacted then (if c.responded then 0 else 1) else 2

pub cost : List Contact → ℕ
cost [] = 0
cost (c ∷ cs) = cost_of c + cost cs

pub measure : List GoString → Search → ℕ
measure all s = 3 * unknown all s.entry_map + cost s.entry_list

-- An answer raises the flag by at most what the measure falls.
abbrev pub bit : Bool → ℕ
bit true = 1
bit false = 0

bit_or_le : (a b : Bool) → bit (a || b) ≤ bit a + 1
bit_or_le true b = omega arith
bit_or_le false true = omega arith
bit_or_le false false = omega arith

unknown-cons-le :
    (all keys : List GoString) (k : GoString) → unknown all (k ∷ keys) ≤ unknown all keys
unfolding unknown is_known
unknown-cons-le [] keys k = omega arith
unknown-cons-le (u ∷ all) keys k = ground (arith, unknown-cons-le all keys k)

unknown-cons-lt :
    (all keys : List GoString) (k : GoString)
    → is_known k all ≡ true
    → is_known k keys ≡ false
    → unknown all (k ∷ keys) < unknown all keys
unfolding unknown is_known
unknown-cons-lt [] keys k there new = cc
unknown-cons-lt (u ∷ all) keys k there new = elim (bytes_dec u k) [
  | yes e ↦ rw (if_pos (bytes_dec k u) (sym e)) (
      rw (ap (λ (x : GoString). is_known x keys) e ∙ new)
        (omega (arith, unknown-cons-le all keys k)))
  | no ne ↦ ground (arith, unknown-cons-lt all keys k)
]

cost-append : (cs ds : List Contact) → cost (cs ++ ds) ≡ cost cs + cost ds
unfolding cost
cost-append [] ds = omega arith
cost-append (c ∷ cs) ds = omega (arith, cost-append cs ds)

cost-insert_contact :
    (c : Contact) (cs : List Contact) → cost (insert_contact c cs) ≡ cost_of c + cost cs
unfolding cost insert_contact
cost-insert_contact c [] = refl
cost-insert_contact c (x ∷ cs) = ground (arith, cost-insert_contact c cs)

pub cost-sort_contacts : (cs : List Contact) → cost (sort_contacts cs) ≡ cost cs
unfolding cost sort_contacts
cost-sort_contacts [] = refl
cost-sort_contacts (c ∷ cs) =
    omega (arith, cost-insert_contact c (sort_contacts cs), cost-sort_contacts cs)

pub cost-mark_responded :
    (key : GoString) (cs : List Contact) → cost (mark_responded key cs) ≤ cost cs
unfolding cost cost_of mark_responded
cost-mark_responded key [] = omega arith
cost-mark_responded key (c ∷ cs) = ground (arith, cost-mark_responded key cs)

pub cost-contact_closest :
    (alpha : ℕ) (cs : List Contact) → cost (contact_closest alpha cs).0 ≤ cost cs
unfolding cost cost_of contact_closest
cost-contact_closest zero cs = omega arith
cost-contact_closest (suc alpha) [] = omega arith
cost-contact_closest (suc alpha) (c ∷ cs) =
    ground (arith, cost-contact_closest (suc alpha) cs, cost-contact_closest alpha cs)

get_elem?-some :
    (i : ℕ) (cs : List Contact) → i < length cs → (c : Contact) × (get_elem? cs i ≡ some c)
get_elem?-some i [] h = absurd (omega arith)
get_elem?-some zero (c ∷ cs) h = (c, refl)
get_elem?-some (suc i) (c ∷ cs) h = get_elem?-some i cs (omega arith)

improves-some :
    (r : ℕ) (dist : Bytes) (cs : List Contact) → (b : Bool) × (improves (suc r) dist cs ≡ some b)
unfolding improves
improves-some r dist cs = elim (Bool-cases (ltb (length cs) (suc r))) [
  | inl few ↦ (true, rw few refl)
  | inr many ↦
      let (c, hit) = get_elem?-some r cs (ground arith) in
      (closer dist c.dist, rw many (rw hit refl))
]

-- The next step of the second phase, with what it takes from the measure.
abbrev pub NextCases : ℕ → List Contact → ℕ → Next → Type 0
NextCases r cs k settled = AllAnswered (take r cs)
NextCases r cs k (remove_at i) = (j : ℕ) × (i ≡ j + k) × (cost (take_out j cs) < cost cs)
NextCases r cs k (ask_at i a) =
    (j : ℕ) × (i ≡ j + k) × ((b : Bool) → cost (mark_at j b cs) < cost cs)

shift_cases :
    (r : ℕ) (c : Contact) (cs : List Contact) (k : ℕ) (next : Next)
    → c.contacted ≡ true
    → c.responded ≡ true
    → NextCases r cs (suc k) next
    → NextCases (suc r) (c ∷ cs) k next
unfolding cost cost_of mark_at
shift_cases r c cs k settled p q ih = (p, q, ih)
shift_cases r c cs k (remove_at i) p q (j, at, less) = (suc j, omega arith, omega arith)
shift_cases r c cs k (ask_at i a) p q (j, at, less) =
    (suc j, omega arith, λ b. omega (arith, less b))

abbrev contact : Bytes → RoutingEntry → Bool → Bool → Contact
contact dist re asked answered = record {
  dist = dist;
  entry = re;
  contacted = asked;
  responded = answered;
}

next_cases :
    (r : ℕ) (dist : Bytes) (re : RoutingEntry) (asked answered : Bool) (cs : List Contact) (k : ℕ)
    → NextCases r cs (suc k) (next_contact r cs (suc k))
    → NextCases
        (suc r)
        (contact dist re asked answered ∷ cs)
        k
        (next_contact (suc r) (contact dist re asked answered ∷ cs) k)
unfolding next_contact cost cost_of mark_at
next_cases r dist re false answered cs k ih = (0, omega arith, λ b. ground arith)
next_cases r dist re true false cs k ih = (0, omega arith, omega arith)
next_cases r dist re true true cs k ih =
    shift_cases r (contact dist re true true) cs k (next_contact r cs (suc k)) refl refl ih

pub next_contact_cases :
    (r : ℕ) (cs : List Contact) (k : ℕ) → NextCases r cs k (next_contact r cs k)
unfolding next_contact
next_contact_cases zero cs k = tt
next_contact_cases (suc r) [] k = tt
next_contact_cases (suc r) (c ∷ cs) k =
    next_cases r c.dist c.entry c.contacted c.responded cs k (next_contact_cases r cs (suc k))

module _ (all : List GoString) where
  -- All ids are among those of the list.
  abbrev pub AllFrom : List RoutingEntry → Type 0
  AllFrom [] = Unit
  AllFrom (re ∷ nodes) = (is_known (hex_encode re.id) all ≡ true) × AllFrom nodes

  pub measure-set_list :
      (s : Search) (cs : List Contact)
      → measure all (record s { entry_list = cs }) + cost s.entry_list ≡ measure all s + cost cs
  unfolding measure
  measure-set_list s cs = omega arith

  measure-add_contact :
      (id : Bytes) (re : RoutingEntry) (s : Search)
      → is_known (hex_encode re.id) all ≡ true
      → is_known (hex_encode re.id) s.entry_map ≡ false
      → measure all (add_contact id re s) < measure all s
  unfolding measure add_contact cost cost_of
  measure-add_contact id re s there new = omega (
    arith,
    unknown-cons-lt all s.entry_map (hex_encode re.id) there new,
    cost-append s.entry_list (new_contact id re ∷ []),
  )

  pub learn_lem :
      (id : Bytes) (r : ℕ) (nodes : List RoutingEntry) (s : Search) (updated : Bool)
      → AllFrom nodes
      → (s' : Search) × (updated' : Bool) × (learn id (suc r) nodes s updated ≡ some (s', updated'))
        × (measure all s' + bit updated' ≤ measure all s + bit updated)
  unfolding learn
  learn_lem id r [] s updated from = (s, updated, refl, omega arith)
  learn_lem id r (re ∷ nodes) s updated (there, from) =
      elim (Bool-cases (is_known (hex_encode re.id) s.entry_map)) [
        | inl old ↦ rw (old, learn) (learn_lem id r nodes s updated from)
        | inr new ↦
            let (better, e) = improves-some r (distance id re) s.entry_list in
            let (s', updated', e', less) =
              learn_lem id r nodes (add_contact id re s) (updated || better) from in
            (
              s',
              updated',
              rw (new, learn) (rw e e'),
              omega (arith, less, bit_or_le updated better, measure-add_contact id re s there new),
            )
      ]

  pub learn_all_lem :
      (id : Bytes) (nodes : List RoutingEntry) (s : Search)
      → AllFrom nodes
      → measure all (learn_all id nodes s) ≤ measure all s
  unfolding learn_all
  learn_all_lem id [] s from = omega arith
  learn_all_lem id (re ∷ nodes) s (there, from) =
      elim (Bool-cases (is_known (hex_encode re.id) s.entry_map)) [
        | inl old ↦ rw old (learn_all_lem id nodes s from)
        | inr new ↦ rw new (
            omega (
              arith,
              learn_all_lem id nodes (add_contact id re s) from,
              measure-add_contact id re s there new,
            ))
      ]

unknown-le-length : (all keys : List GoString) → unknown all keys ≤ length all
unfolding unknown
unknown-le-length [] keys = omega arith
unknown-le-length (u ∷ all) keys = ground (arith, unknown-le-length all keys)

cost-contacts_of :
    (id : Bytes) (nodes : List RoutingEntry) → cost (contacts_of id nodes) ≡ 2 * length nodes
unfolding cost cost_of
cost-contacts_of id [] = omega arith
cost-contacts_of id (re ∷ nodes) = omega (arith, cost-contacts_of id nodes)

pub measure-start_search :
    (all : List GoString) (id : Bytes) (nodes : List RoutingEntry)
    → measure all (start_search id nodes) ≤ 3 * length all + 2 * length nodes
unfolding measure
measure-start_search all id nodes = omega (
  arith,
  unknown-le-length all (start_search id nodes).entry_map,
  cost-sort_contacts (contacts_of id nodes),
  cost-contacts_of id nodes,
)
