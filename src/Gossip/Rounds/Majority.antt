-- ===== src/Gossip/Rounds/Majority.antt =====
-- The confirmations of the rounds that a node has passed, and what saving one does to them.
use dsignal.Base.{
  ℕ, ◌/◌, ◌<◌, ◌≤◌, ◌≡◌, ◌∙◌, refl, Bool, true, false, GoString, bytes_dec, ℕ_discrete, length,
  if◌then◌else◌, ite, leb, arith, if_pos, if_neg,
}
use dsignal.Base.Dict.{Dict, insert, lookup-insert, DistinctKeys, insert-DistinctKeys}
use dsignal.Gossip.Packet.{TlcMessage}
use dsignal.Gossip.Chain.{BlockchainHandler, TlcMessages}
use dsignal.Gossip.Tlc.{messages_in, save_in, save_confirmation}

-- Every round that the handler has passed is confirmed by different peers, more than half of so
-- many; in every round each peer is counted once.
pub record Confirmed (size : ℕ) (h : BlockchainHandler) : Type 0 where
  pub distinct : (round : ℕ) → DistinctKeys bytes_dec (messages_in round h.confirmations)
  pub passed :
      (round : ℕ) → round < h.my_time → size / 2 < length (messages_in round h.confirmations)

pub messages_in-save_in :
    (round r : ℕ) (origin : GoString) (tlc : TlcMessage) (rounds : Dict ℕ TlcMessages)
    → messages_in r (save_in round origin tlc rounds)
      ≡ ite
          (ℕ_discrete round r)
          (insert bytes_dec origin tlc (messages_in round rounds))
          (messages_in r rounds)
messages_in-save_in round r origin tlc rounds = ground (
  arith,
  lookup-insert ℕ_discrete round r (insert bytes_dec origin tlc (messages_in round rounds)) rounds,
)

pub if_ind :
    {A : Type 0} (P : A → Type 0) (b : Bool) (x y : A)
    → (b ≡ true → P x)
    → (b ≡ false → P y)
    → P (if b then x else y)
if_ind P true x y p q = p refl
if_ind P false x y p q = q refl

saved-Confirmed :
    (size round : ℕ) (origin : GoString) (tlc : TlcMessage) (h : BlockchainHandler)
    → h.my_time ≤ round
    → Confirmed size h
    → Confirmed size (record h { confirmations = save_in round origin tlc h.confirmations })
saved-Confirmed size round origin tlc h le c = record {
  distinct = λ r. elim (ℕ_discrete round r) [
    | yes e ↦
        rw
          (messages_in-save_in round r origin tlc h.confirmations
            ∙ if_pos (ℕ_discrete round r) e _ _)
          (insert-DistinctKeys bytes_dec origin tlc (messages_in round h.confirmations)
            (c.distinct round))
    | no ne ↦
        rw
          (messages_in-save_in round r origin tlc h.confirmations
            ∙ if_neg (ℕ_discrete round r) ne _ _)
          (c.distinct r)
  ];
  passed = λ r lt.
      rw
        (messages_in-save_in round r origin tlc h.confirmations
          ∙ if_neg (ℕ_discrete round r) (λ (e : round ≡ r). absurd (omega arith)) _ _)
        (c.passed r lt);
}

pub save_confirmation-Confirmed :
    (size round : ℕ) (origin : GoString) (tlc : TlcMessage) (h : BlockchainHandler)
    → Confirmed size h
    → Confirmed size (save_confirmation round origin tlc h)
unfolding save_confirmation
save_confirmation-Confirmed size round origin tlc h c =
    if_ind (Confirmed size) (leb h.my_time round)
      (record h { confirmations = save_in round origin tlc h.confirmations }) h
      (λ e. saved-Confirmed size round origin tlc h (ground arith) c) (λ e. c)

-- Handlers with the same round and the same confirmations.
pub record Same (h h' : BlockchainHandler) : Type 0 where
  pub time : h'.my_time ≡ h.my_time
  pub kept : h'.confirmations ≡ h.confirmations

pub Same-Confirmed :
    (size : ℕ) (h h' : BlockchainHandler) → Same h h' → Confirmed size h → Confirmed size h'
Same-Confirmed size h h' same c = record {
  distinct = λ r. rw same.kept (c.distinct r);
  passed = λ r lt. rw same.kept (c.passed r (omega (arith, same.time)));
}
