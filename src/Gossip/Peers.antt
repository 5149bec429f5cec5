-- ===== src/Gossip/Peers.antt =====
-- gossiper/peers.go and `DifferenceString` of helpers/generalhelpers.go: lists of addresses.
use dsignal.Base.{
  ℕ, Bool, true, false, Option, none, some, List, [], ◌∷◌, ◌++◌, bytes_dec, ite, ◌≡◌, ◌≢◌, refl,
  arith, if_pos, if_neg, length, ◌+◌, suc, zero, ◌<◌, Bool-cases, inl, inr, ◌∙◌, get_or,
}
use dsignal.Gossip.Packet.{Addr}

-- Whether an address is among the list; the code asks a map or walks the list.
unfoldable pub contains : Addr → List Addr → Bool
contains a [] = false
contains a (b ∷ bs) = ite (bytes_dec b a) true (contains a bs)

unfoldable pub difference_string : List Addr → List Addr → List Addr
difference_string [] list2 = []
difference_string (x ∷ list1) list2 =
    let rest = difference_string list1 list2 in
    elim (contains x list2) [ true ↦ rest | false ↦ x ∷ rest ]

-- `AddPeer`: not itself, and no address twice.
unfoldable pub add_peer : Addr → Addr → List Addr → List Addr
unfolding contains
add_peer own peer peers =
    ite (bytes_dec peer own) peers
      (elim (contains peer peers) [ true ↦ peers | false ↦ peers ++ (peer ∷ []) ])

unfoldable pub get_peer_from_string : Addr → List Addr → Option Addr
get_peer_from_string addr [] = none
get_peer_from_string addr (p ∷ peers) =
    ite (bytes_dec p addr) (some p) (get_peer_from_string addr peers)

abbrev pub Distinct : List Addr → Type 0
Distinct [] = Unit
Distinct (p ∷ peers) = (contains p peers ≡ false) × Distinct peers

contains-append :
    (a b : Addr) (bs : List Addr)
    → contains a (bs ++ (b ∷ [])) ≡ ite (bytes_dec b a) true (contains a bs)
unfolding contains
contains-append a b [] = refl
contains-append a b (c ∷ bs) = ground (arith, contains-append a b bs)

append-Distinct :
    (p : Addr) (peers : List Addr)
    → contains p peers ≡ false
    → Distinct peers
    → Distinct (peers ++ (p ∷ []))
unfolding contains
append-Distinct p [] h d = (refl, tt)
append-Distinct p (q ∷ peers) h (out, d) =
    (ground (arith, contains-append q p peers), append-Distinct p peers (ground arith) d)

-- The peers stay distinct, the node itself never becomes its own peer, and every other address
-- that is added is known from then on.
pub add_peer-Distinct :
    (own peer : Addr) (peers : List Addr)
    → Distinct peers
    → contains own peers ≡ false
    → Distinct (add_peer own peer peers)
      × (contains own (add_peer own peer peers) ≡ false)
      × (peer ≢ own → contains peer (add_peer own peer peers) ≡ true)
unfolding add_peer
add_peer-Distinct own peer peers d out = elim (bytes_dec peer own) [
  | yes e ↦ rw (if_pos (bytes_dec peer own) e) (d, out, λ ne. absurd (ne e))
  | no ne ↦ rw (if_neg (bytes_dec peer own) ne) (elim (Bool-cases (contains peer peers)) [
    | inl old ↦ rw old (d, out, λ _. old)
    | inr new ↦ rw new (
      append-Distinct peer peers new d,
      contains-append own peer peers ∙ ground arith,
      λ _. contains-append peer peer peers ∙ ground arith,
    )
  ])
]

pub difference-append :
    (peers chosen : List Addr) (p : Addr)
    → difference_string peers (chosen ++ (p ∷ []))
      ≡ difference_string (difference_string peers chosen) (p ∷ [])
unfolding difference_string contains
difference-append [] chosen p = refl
difference-append (q ∷ peers) chosen p =
    ground (arith, contains-append q p chosen, difference-append peers chosen p)

difference_absent :
    (p : Addr) (peers : List Addr)
    → contains p peers ≡ false
    → difference_string peers (p ∷ []) ≡ peers
unfolding difference_string contains
difference_absent p [] h = refl
difference_absent p (q ∷ peers) h = ground (arith, difference_absent p peers)

pub length-difference :
    (p : Addr) (peers : List Addr)
    → Distinct peers
    → contains p peers ≡ true
    → length (difference_string peers (p ∷ [])) + 1 ≡ length peers
unfolding difference_string contains
length-difference p [] d h = cc
length-difference p (q ∷ peers) (out, d) h = elim (bytes_dec q p) [
  | yes e ↦ ground (arith, difference_absent p peers (rw (← e) out))
  | no ne ↦ ground (arith, length-difference p peers d)
]

pub contains-difference :
    (a : Addr) (peers list2 : List Addr)
    → contains a peers ≡ false
    → contains a (difference_string peers list2) ≡ false
unfolding difference_string contains
contains-difference a [] list2 h = refl
contains-difference a (q ∷ peers) list2 h = ground (arith, contains-difference a peers list2)

pub difference-Distinct :
    (peers list2 : List Addr) → Distinct peers → Distinct (difference_string peers list2)
unfolding difference_string
difference-Distinct [] list2 d = tt
difference-Distinct (q ∷ peers) list2 (out, d) = elim (Bool-cases (contains q list2)) [
  | inl there ↦ rw (there, difference_string) (difference-Distinct peers list2 d)
  | inr new ↦
      rw (new, difference_string)
        (contains-difference q peers list2 out, difference-Distinct peers list2 d)
]

pub contains-get_or :
    (peers : List Addr) (i : ℕ) (a : Addr)
    → i < length peers
    → contains (get_or peers i a) peers ≡ true
unfolding contains
contains-get_or [] i a h = elim h [ ]
contains-get_or (p ∷ peers) zero a h = ground arith
contains-get_or (p ∷ peers) (suc i) a h = ground (arith, contains-get_or peers i a (omega arith))
