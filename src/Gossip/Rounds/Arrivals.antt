-- ===== src/Gossip/Rounds/Arrivals.antt =====
-- A packet that arrives in a round keeps the round and the confirmations of the rounds before it.
use mathlib.Core.Path.{subst}
use dsignal.Base.{
  sym, ap, inl, inr, ◌⊎◌, true, GoString, bytes_dec, ℕ_discrete, leb, if_pos, if_neg, ℕ, ◌≡◌, ◌∙◌,
  refl, Bool, ◌&&◌, ◌||◌, Option, none, some, List, [], some_injective, arith,
}
use dsignal.Base.Dict.{lookup, insert, lookup-insert, lookup-insert_ne}
use dsignal.Gossip.Packet.{TlcMessage, ExtendedGossipPacket, is_set}
use dsignal.Gossip.Chain.{BlockchainHandler}
use dsignal.Gossip.Tlc.{
  Modes, TlcNode, RoundAction, save_confirmation, save_message_seen, get_message_original_round,
  messages_in, check_for_causal_property, acknowledge, take_confirmation, both_parts,
  handle_tlc_message,
}
use dsignal.Gossip.Rounds.Majority.{
  Confirmed, Same, if_ind, messages_in-save_in, save_confirmation-Confirmed, Same-Confirmed,
}

-- A message that is among the confirmations afterwards was there, or is the one that was saved.
pub record Saves (tlc : TlcMessage) (h h' : BlockchainHandler) : Type 0 where
  pub source :
      (round : ℕ) (origin : GoString) (m : TlcMessage)
      → lookup bytes_dec origin (messages_in round h'.confirmations) ≡ some m
      → (lookup bytes_dec origin (messages_in round h.confirmations) ≡ some m)
        ⊎ (tlc.origin ≡ origin) × (tlc ≡ m) × (is_set tlc.confirmed ≡ true)

Same-Saves :
    (tlc : TlcMessage) (h h' : BlockchainHandler)
    → h'.confirmations ≡ h.confirmations
    → Saves tlc h h'
Same-Saves tlc h h' same = record {
  source = λ round origin m e.
      inl (ap (λ c. lookup bytes_dec origin (messages_in round c)) (sym same) ∙ e);
}

pub saved_source :
    (round r : ℕ) (origin : GoString) (tlc m : TlcMessage) (h : BlockchainHandler)
    → lookup bytes_dec origin
        (messages_in r (save_confirmation round tlc.origin tlc h).confirmations)
      ≡ some m
    → (lookup bytes_dec origin (messages_in r h.confirmations) ≡ some m)
      ⊎ (tlc.origin ≡ origin) × (tlc ≡ m)
unfolding save_confirmation
saved_source round r origin tlc m h =
    let kept = messages_in r h.confirmations in
    let P = λ (h' : BlockchainHandler).
      lookup bytes_dec origin (messages_in r h'.confirmations) ≡ some m
      → (lookup bytes_dec origin kept ≡ some m) ⊎ (tlc.origin ≡ origin) × (tlc ≡ m) in
    let now = messages_in-save_in round r tlc.origin tlc h.confirmations in
    if_ind P (leb h.my_time round) _ h
      (λ later e. elim (ℕ_discrete round r) [
        | yes same ↦
            let here : messages_in round h.confirmations ≡ kept =
              ap (λ n. messages_in n h.confirmations) same in
            let e' : lookup bytes_dec origin (insert bytes_dec tlc.origin tlc kept) ≡ some m =
              ap (λ c. lookup bytes_dec origin (insert bytes_dec tlc.origin tlc c)) (sym here)
              ∙ sym (ap (lookup bytes_dec origin) (now ∙ if_pos (ℕ_discrete round r) same _ _))
              ∙ e in
            elim (bytes_dec tlc.origin origin) [
              | yes own ↦ inr (
                own,
                some_injective (
                    sym (
                      lookup-insert bytes_dec tlc.origin origin tlc kept
                      ∙ if_pos (bytes_dec tlc.origin origin) own _ _)
                    ∙ e'),
              )
              | no other ↦
                  inl (sym (lookup-insert_ne bytes_dec tlc.origin origin tlc kept other) ∙ e')
            ]
        | no other ↦
            inl
              (sym (ap (lookup bytes_dec origin) (now ∙ if_neg (ℕ_discrete round r) other _ _)) ∙ e)
      ])
      (λ past e. inl e)

-- What a packet that arrives keeps.
pub record Keeps (size : ℕ) (h h' : BlockchainHandler) : Type 0 where
  pub time : h'.my_time ≡ h.my_time
  pub confirmed : Confirmed size h → Confirmed size h'

Keeps-trans :
    {size : ℕ} {a b c : BlockchainHandler} → Keeps size a b → Keeps size b c → Keeps size a c
Keeps-trans f g = record { time = g.time ∙ f.time; confirmed = λ x. g.confirmed (f.confirmed x) }

Same-Keeps : (size : ℕ) (h h' : BlockchainHandler) → Same h h' → Keeps size h h'
Same-Keeps size h h' same = record { time = same.time; confirmed = Same-Confirmed size h h' same }

pub some_case :
    {A B : Type 0} (o : Option A) (f : A → B) (b : B)
    → elim o [ none ↦ none | some a ↦ some (f a) ] ≡ some b
    → (a : A) × (o ≡ some a) × (f a ≡ b)
some_case none f b e = cc
some_case {A} {B} (some a) f b e = (a, refl, some_injective e)

module _ (size : ℕ) (modes : Modes) (ext : ExtendedGossipPacket) (tlc : TlcMessage) where
  original-Same :
      (h : BlockchainHandler)
      → Same h (get_message_original_round tlc.origin tlc.id tlc.confirmed h).0
  unfolding get_message_original_round
  original-Same h = record { time = refl; kept = refl }

  acknowledge-Same :
      (round : ℕ) (s : TlcNode) (allowed : Bool) (h : BlockchainHandler)
      → Same h (acknowledge modes tlc round s.node allowed h).0
  unfolding acknowledge save_message_seen
  acknowledge-Same round s allowed h = record { time = ground arith; kept = ground arith }

  causal-Same :
      (s : TlcNode) (h : BlockchainHandler)
      → Same h
          (check_for_causal_property tlc.origin tlc.vector_clock.want tlc.confirmed ext.sender_addr
            s.node h).0
  unfolding check_for_causal_property
  causal-Same s h = record { time = ground arith; kept = ground arith }

  save_confirmation-Keeps :
      (round : ℕ) (h : BlockchainHandler) → Keeps size h (save_confirmation round tlc.origin tlc h)
  unfolding save_confirmation
  save_confirmation-Keeps round h = record {
    time = ground arith;
    confirmed = save_confirmation-Confirmed size round tlc.origin tlc h;
  }

  take_confirmation-Keeps :
      (round : ℕ) (s : TlcNode) (h : BlockchainHandler)
      → Keeps size h (take_confirmation modes ext tlc round s.node h).0
  unfolding take_confirmation
  take_confirmation-Keeps round s h =
      let checked =
        check_for_causal_property tlc.origin tlc.vector_clock.want tlc.confirmed ext.sender_addr
          s.node h in
      let P = λ (r : BlockchainHandler × List RoundAction). Keeps size h r.0 in
      let recorded = Same-Keeps size h checked.0 (causal-Same s h) in
      if_ind P ((modes.hw3ex3_mode || modes.hw3ex4_mode) && is_set tlc.confirmed) _ (h, [])
        (λ e.
          if_ind P checked.1 _ _
            (λ e. Keeps-trans recorded (save_confirmation-Keeps round checked.0)) (λ e. recorded))
        (λ e. Same-Keeps size h h (record { time = refl; kept = refl }))

  take_confirmation-Saves :
      (round : ℕ) (s : TlcNode) (h : BlockchainHandler)
      → Saves tlc h (take_confirmation modes ext tlc round s.node h).0
  unfolding take_confirmation
  take_confirmation-Saves round s h =
      let checked =
        check_for_causal_property tlc.origin tlc.vector_clock.want tlc.confirmed ext.sender_addr
          s.node h in
      let P = λ (r : BlockchainHandler × List RoundAction). Saves tlc h r.0 in
      let recorded = causal-Same s h in
      if_ind P ((modes.hw3ex3_mode || modes.hw3ex4_mode) && is_set tlc.confirmed) _ (h, [])
        (λ set.
          if_ind P checked.1 _ _
            (λ e. record {
              source = λ r origin m found.
                  elim (saved_source round r origin tlc m checked.0 found) [
                    | inl old ↦ inl (
                        ap (λ c. lookup bytes_dec origin (messages_in r c)) (sym recorded.kept)
                        ∙ old)
                    | inr (own, same) ↦ inr (own, same, ground (arith, set))
                  ];
            })
            (λ e. Same-Saves tlc h checked.0 recorded.kept))
        (λ e. Same-Saves tlc h h refl)

  -- Of a packet that arrives, at most its own message is saved as a confirmation, if it confirms one.
  pub handle_tlc_message-Saves :
      (s s' : TlcNode) (sent : List RoundAction)
      → handle_tlc_message modes ext tlc s ≡ some (s', sent)
      → Saves tlc s.chain s'.chain
  unfolding handle_tlc_message both_parts
  handle_tlc_message-Saves s s' sent e =
      let start = get_message_original_round tlc.origin tlc.id tlc.confirmed s.chain in
      let (allowed, ended, same) =
        some_case _ (both_parts modes ext tlc start.1 start.0 s) (s', sent) e in
      let middle = acknowledge modes tlc start.1 s.node allowed start.0 in
      let kept : middle.0.confirmations ≡ s.chain.confirmations =
        (acknowledge-Same start.1 s allowed start.0).kept ∙ (original-Same s.chain).kept in
      let saves = take_confirmation-Saves start.1 s middle.0 in
      subst (λ (r : TlcNode × List RoundAction). Saves tlc s.chain r.0.chain) same
        (record {
          source = λ r origin m found. elim (saves.source r origin m found) [
            | inl old ↦ inl (ap (λ c. lookup bytes_dec origin (messages_in r c)) (sym kept) ∙ old)
            | inr new ↦ inr new
          ];
        })

  pub handle_tlc_message-Keeps :
      (s s' : TlcNode) (sent : List RoundAction)
      → handle_tlc_message modes ext tlc s ≡ some (s', sent)
      → Keeps size s.chain s'.chain × (s'.peers_size ≡ s.peers_size)
  unfolding handle_tlc_message both_parts
  handle_tlc_message-Keeps s s' sent e =
      let start = get_message_original_round tlc.origin tlc.id tlc.confirmed s.chain in
      let (allowed, ended, same) =
        some_case _ (both_parts modes ext tlc start.1 start.0 s) (s', sent) e in
      let first = Same-Keeps size s.chain start.0 (original-Same s.chain) in
      let middle = acknowledge modes tlc start.1 s.node allowed start.0 in
      let second = Same-Keeps size start.0 middle.0 (acknowledge-Same start.1 s allowed start.0) in
      let third = take_confirmation-Keeps start.1 s middle.0 in
      let P = λ (r : TlcNode × List RoundAction).
        Keeps size s.chain r.0.chain × (r.0.peers_size ≡ s.peers_size) in
      subst P same (Keeps-trans (Keeps-trans first second) third, refl)
