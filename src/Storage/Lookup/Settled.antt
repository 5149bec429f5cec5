-- ===== src/Storage/Lookup/Settled.antt =====
-- The order of the contacts, and when the second phase is over.
use dsignal.Base.{
  ℕ, zero, suc, ◌≡◌, true, false, List, [], ◌∷◌, Bytes, length, take, Bool-cases, inl, inr, arith,
}
use Prim.Native.Nat.{Ordering}
use dsignal.Storage.Bytes.{compare_loop, compare_bytes}
use dsignal.Storage.Lookup.{Contact, closer, insert_contact, sort_contacts}

loop_asym :
    (n : ℕ) (a b : Bytes) → compare_loop n a b ≡ Ordering.lt → compare_loop n b a ≡ Ordering.gt
unfolding compare_loop
loop_asym zero a b h = cc
loop_asym (suc n) a b h = ground (arith, loop_asym n a b)

pub closer_asym : (a b : Bytes) → closer a b ≡ true → closer b a ≡ false
unfolding closer compare_bytes
closer_asym a b h = ground (arith, loop_asym (length a) a b)

-- No contact is closer than the one before it.
abbrev pub IsSorted : List Contact → Type 0
IsSorted [] = Unit
IsSorted (c ∷ []) = Unit
IsSorted (c ∷ d ∷ cs) = (closer d.dist c.dist ≡ false) × IsSorted (d ∷ cs)

IsSorted-cons :
    (c x : Contact) (xs : List Contact)
    → closer x.dist c.dist ≡ false
    → IsSorted (x ∷ xs)
    → IsSorted (c ∷ x ∷ xs)
IsSorted-cons c x xs h s = (h, s)

tail-IsSorted : (x : Contact) (xs : List Contact) → IsSorted (x ∷ xs) → IsSorted xs
tail-IsSorted x [] s = tt
tail-IsSorted x (y ∷ xs) (h, s) = s

insert_after :
    (c x : Contact) (xs : List Contact)
    → closer x.dist c.dist ≡ true
    → IsSorted (x ∷ xs)
    → IsSorted (insert_contact c xs)
    → IsSorted (x ∷ insert_contact c xs)
unfolding insert_contact
insert_after c x [] h s rest = (closer_asym x.dist c.dist h, tt)
insert_after c x (y ∷ xs) h (near, s) rest = elim (Bool-cases (closer y.dist c.dist)) [
  | inl before ↦ rw before (near, rw before at rest)
  | inr after ↦ rw after (closer_asym x.dist c.dist h, rw after at rest)
]

insert_contact-IsSorted :
    (c : Contact) (xs : List Contact) → IsSorted xs → IsSorted (insert_contact c xs)
unfolding insert_contact
insert_contact-IsSorted c [] s = tt
insert_contact-IsSorted c (x ∷ xs) s = elim (Bool-cases (closer x.dist c.dist)) [
  | inl before ↦
      rw before (insert_after c x xs before s (insert_contact-IsSorted c xs (tail-IsSorted x xs s)))
  | inr after ↦ rw after (after, s)
]

pub sort_contacts-IsSorted : (cs : List Contact) → IsSorted (sort_contacts cs)
unfolding sort_contacts
sort_contacts-IsSorted [] = tt
sort_contacts-IsSorted (c ∷ cs) =
    insert_contact-IsSorted c (sort_contacts cs) (sort_contacts-IsSorted cs)

pub take-IsSorted : (n : ℕ) (cs : List Contact) → IsSorted cs → IsSorted (take n cs)
take-IsSorted zero cs s = tt
take-IsSorted (suc n) [] s = tt
take-IsSorted (suc zero) (c ∷ cs) s = tt
take-IsSorted (suc (suc n)) (c ∷ []) s = tt
take-IsSorted (suc (suc n)) (c ∷ d ∷ cs) (h, s) = (h, take-IsSorted (suc n) (d ∷ cs) s)

-- All were asked, and answered.
abbrev pub AllAnswered : List Contact → Type 0
AllAnswered [] = Unit
AllAnswered (c ∷ cs) = (c.contacted ≡ true) × (c.responded ≡ true) × AllAnswered cs
