-- ===== src/Gossip/Chain/Decision.antt =====
-- What `checkIfConsensusReached` decides, and what becomes of a node whose round ends without a
-- decision.
use mathlib.Core.Path.{subst}
use dsignal.Base.{
  ℕ, ◌≡◌, ◌≢◌, ◌∙◌, refl, sym, ap, Bool, true, false, Option, none, some, [], ◌∷◌, Bytes, bytes_dec,
  ℕ_discrete, ite, if_neg, arith, Bool-cases, if◌then◌else◌, ◌⊎◌, inl, inr, ◌↔◌, some_injective,
}
use dsignal.Base.Dict.{lookup}
use dsignal.Base.Float.{GoFloat, nan, neg_inf, negative, nonneg, pos_inf, float_lt, float_ge}
use dsignal.Gossip.Packet.{BlockPublish, TlcMessage}
use dsignal.Gossip.Chain.{
  BlockchainHandler, TlcMessages, zero_hash, no_message, highest_from, get_tlc_with_highest_fitness,
  is_tx_block_valid, block_hash, beaten, reconfirmed, check_if_consensus_reached, no_consensus,
}
use dsignal.Gossip.Chain.History.{WellChained, is_committed, is_zero_hash, is_tx_block_valid_lem}

-- One of the messages has the property.
abbrev pub AnyMessage : (TlcMessage → Type 0) → TlcMessages → Type 0
AnyMessage P [] = ⊥
AnyMessage P ((origin, m) ∷ ms) = P m ⊎ AnyMessage P ms

abbrev pub AllMessages : (TlcMessage → Type 0) → TlcMessages → Type 0
AllMessages P [] = Unit
AllMessages P ((origin, m) ∷ ms) = P m × AllMessages P ms

lt_nan : (a : GoFloat) → float_lt a nan ≡ false
lt_nan nan = refl
lt_nan neg_inf = refl
lt_nan (negative m) = refl
lt_nan (nonneg m) = refl
lt_nan pos_inf = refl

lt_neg_inf : (a : GoFloat) → float_lt a neg_inf ≡ false
lt_neg_inf nan = refl
lt_neg_inf neg_inf = refl
lt_neg_inf (negative m) = refl
lt_neg_inf (nonneg m) = refl
lt_neg_inf pos_inf = refl

float_lt_trans : (a b c : GoFloat) → float_lt a b ≡ true → float_lt b c ≡ true → float_lt a c ≡ true
float_lt_trans nan b c e f = cc
float_lt_trans pos_inf b c e f = cc
float_lt_trans a b nan e f = absurd (ground (arith, lt_nan b))
float_lt_trans a b neg_inf e f = absurd (ground (arith, lt_neg_inf b))
float_lt_trans neg_inf b (negative k) e f = refl
float_lt_trans neg_inf b (nonneg k) e f = refl
float_lt_trans neg_inf b pos_inf e f = refl
float_lt_trans (negative m) b (nonneg k) e f = refl
float_lt_trans (negative m) b pos_inf e f = refl
float_lt_trans (nonneg m) b pos_inf e f = refl
float_lt_trans (negative m) (negative n) (negative k) e f = ground arith
float_lt_trans (negative m) nan (negative k) e f = cc
float_lt_trans (negative m) neg_inf (negative k) e f = cc
float_lt_trans (negative m) (nonneg n) (negative k) e f = cc
float_lt_trans (negative m) pos_inf (negative k) e f = cc
float_lt_trans (nonneg m) (nonneg n) (nonneg k) e f = ground arith
float_lt_trans (nonneg m) nan (nonneg k) e f = cc
float_lt_trans (nonneg m) neg_inf (nonneg k) e f = cc
float_lt_trans (nonneg m) (negative n) (nonneg k) e f = cc
float_lt_trans (nonneg m) pos_inf (nonneg k) e f = cc
float_lt_trans (nonneg m) nan (negative k) e f = cc
float_lt_trans (nonneg m) neg_inf (negative k) e f = cc
float_lt_trans (nonneg m) (negative n) (negative k) e f = cc
float_lt_trans (nonneg m) (nonneg n) (negative k) e f = cc
float_lt_trans (nonneg m) pos_inf (negative k) e f = cc

irrefl : (a : GoFloat) → float_lt a a ≡ false
irrefl nan = refl
irrefl neg_inf = refl
irrefl (negative m) = ground arith
irrefl (nonneg m) = ground arith
irrefl pos_inf = refl

better : TlcMessage → TlcMessage → TlcMessage
better best m = if float_lt best.fitness m.fitness then m else best

better-least :
    (w best m : TlcMessage)
    → float_lt best.fitness w.fitness ≡ false
    → float_lt (better best m).fitness w.fitness ≡ false
unfolding better
better-least w best m e = ground (arith, float_lt_trans best.fitness m.fitness w.fitness)

better-new : (best m : TlcMessage) → float_lt (better best m).fitness m.fitness ≡ false
unfolding better
better-new best m = ground (arith, irrefl m.fitness)

-- No message of the list is better than the best from a start, nor is the start.
highest_from-least :
    (w best : TlcMessage) (ms : TlcMessages)
    → float_lt best.fitness w.fitness ≡ false
    → float_lt (highest_from best ms).fitness w.fitness ≡ false
unfolding better
highest_from-least w best [] e = e
highest_from-least w best ((origin, m) ∷ ms) e =
    highest_from-least w (better best m) ms (better-least w best m e)

highest_from-all :
    (best : TlcMessage) (ms : TlcMessages)
    → AllMessages (λ m. float_lt (highest_from best ms).fitness m.fitness ≡ false) ms
unfolding better
highest_from-all best [] = tt
highest_from-all best ((origin, m) ∷ ms) = (
  highest_from-least m (better best m) ms (better-new best m),
  highest_from-all (better best m) ms,
)

-- The best is one of the messages, or the start where no message is better than that.
highest_from-among :
    (best x : TlcMessage) (ms : TlcMessages)
    → highest_from best ms ≡ x
    → AnyMessage (λ c. c ≡ x) ms
      ⊎ (x ≡ best) × AllMessages (λ c. float_lt best.fitness c.fitness ≡ false) ms
unfolding better
highest_from-among best x [] e = inr (sym e, tt)
highest_from-among best x ((origin, m) ∷ ms) e =
    elim (Bool-cases (float_lt best.fitness m.fitness)) [
      | inl more ↦
          let e' : highest_from m ms ≡ x =
            ap (λ b. highest_from (if b then m else best) ms) (sym more) ∙ e in
          elim (highest_from-among m x ms e') [
            | inl found ↦ inl (inr found)
            | inr (same, none_better) ↦ inl (inl (sym same))
          ]
      | inr less ↦
          let e' : highest_from best ms ≡ x =
            ap (λ b. highest_from (if b then m else best) ms) (sym less) ∙ e in
          elim (highest_from-among best x ms e') [
            | inl found ↦ inl (inr found)
            | inr (same, none_better) ↦ inr (same, (less, none_better))
          ]
    ]

-- The loops as conditions.
module _ {Q R : Type 0} where
  guard_elim :
      (b : Bool) (d : Dec Q) (rest : Bool)
      → (rest ≡ false → R)
      → (if b then ite d rest true else rest) ≡ false
      → ((b ≡ false) ⊎ Q) × R
  guard_elim false d rest to e = (inl refl, to e)
  guard_elim true (yes q) rest to e = (inr q, to e)
  guard_elim true (no n) rest to e = cc

  guard_intro :
      (b : Bool) (d : Dec Q) (rest : Bool)
      → (R → rest ≡ false)
      → ((b ≡ false) ⊎ Q) × R
      → (if b then ite d rest true else rest) ≡ false
  guard_intro false d rest from (c, r) = from r
  guard_intro true (yes q) rest from (c, r) = from r
  guard_intro true (no n) rest from (inl e, r) = cc
  guard_intro true (no n) rest from (inr q, r) = absurd (n q)

  or_elim : (d : Dec Q) (rest : Bool) → (rest ≡ true → R) → ite d true rest ≡ true → Q ⊎ R
  or_elim (yes q) rest to e = inl q
  or_elim (no n) rest to e = inr (to e)

  or_intro : (d : Dec Q) (rest : Bool) → (R → rest ≡ true) → Q ⊎ R → ite d true rest ≡ true
  or_intro (yes q) rest from c = refl
  or_intro (no n) rest from (inl q) = absurd (n q)
  or_intro (no n) rest from (inr r) = from r

module _ (sha256 : Bytes → Bytes) where
  abbrev pub SameBlock : TlcMessage → TlcMessage → Type 0
  SameBlock m c = block_hash sha256 c.tx_block ≡ block_hash sha256 m.tx_block

  -- A message with less fitness, or of the same block.
  abbrev pub Yields : TlcMessage → TlcMessage → Type 0
  Yields m saw = (float_ge saw.fitness m.fitness ≡ false) ⊎ SameBlock m saw

  beaten-Yields :
      (m : TlcMessage) (seen : TlcMessages)
      → beaten sha256 m seen ≡ false ↔ AllMessages (Yields m) seen
  unfolding beaten
  beaten-Yields m [] = (λ e. tt, λ e. refl)
  beaten-Yields m ((origin, saw) ∷ seen) =
      let (to, from) = beaten-Yields m seen in
      let d = bytes_dec (block_hash sha256 saw.tx_block) (block_hash sha256 m.tx_block) in
      let b = float_ge saw.fitness m.fitness in
      (guard_elim b d (beaten sha256 m seen) to, guard_intro b d (beaten sha256 m seen) from)

  reconfirmed-SameBlock :
      (m : TlcMessage) (ms : TlcMessages)
      → reconfirmed sha256 m ms ≡ true ↔ AnyMessage (SameBlock m) ms
  unfolding reconfirmed
  reconfirmed-SameBlock m [] = (λ e. cc, λ e. absurd e)
  reconfirmed-SameBlock m ((origin, c) ∷ ms) =
      let (to, from) = reconfirmed-SameBlock m ms in
      let d = bytes_dec (block_hash sha256 c.tx_block) (block_hash sha256 m.tx_block) in
      (or_elim d (reconfirmed sha256 m ms) to, or_intro d (reconfirmed sha256 m ms) from)

  verdict : Bool → Bool → TlcMessage → Option TlcMessage
  verdict x y best = if x then none else if y then some best else none

  verdict_elim :
      (x y : Bool) (best m : TlcMessage)
      → verdict x y best ≡ some m
      → (best ≡ m) × (x ≡ false) × (y ≡ true)
  unfolding verdict
  verdict_elim true y best m e = cc
  verdict_elim false false best m e = cc
  verdict_elim false true best m e = (some_injective e, refl, refl)

  -- The message that a round decides for, by the messages confirmed in it, those seen in it, and
  -- those confirmed in the next.
  pub record Decided (round_s seen round_s1 : TlcMessages) (m : TlcMessage) : Type 0 where
    pub best : get_tlc_with_highest_fitness round_s ≡ m
    pub unbeaten : AllMessages (Yields m) seen
    pub witnessed : AnyMessage (SameBlock m) round_s1

  -- In a round with a message seen, the check decides for a message just if it is the fittest one
  -- confirmed in the round, every message seen in the round has less fitness or the same block, and
  -- a message with the same block is confirmed in the next round. No message confirmed in the round
  -- is fitter than the fittest one, which is itself one of those confirmed, or the zero message where
  -- none of them has a fitness above 0.
  pub check_if_consensus_reached-Decided :
      (h : BlockchainHandler) (round_s seen round_s1 : TlcMessages) (round : ℕ) (m : TlcMessage)
      → lookup ℕ_discrete round h.message_seen ≡ some seen
      → (check_if_consensus_reached sha256 h round_s round_s1 round ≡ some (some m)
          ↔ Decided round_s seen round_s1 m)
        × AllMessages
            (λ c. float_lt (get_tlc_with_highest_fitness round_s).fitness c.fitness ≡ false)
            round_s
        × (AnyMessage (λ c. c ≡ get_tlc_with_highest_fitness round_s) round_s
            ⊎ (get_tlc_with_highest_fitness round_s ≡ no_message)
              × AllMessages (λ c. float_lt (nonneg 0) c.fitness ≡ false) round_s)
  unfolding check_if_consensus_reached verdict
  check_if_consensus_reached-Decided h round_s seen round_s1 round m loaded =
      let best = highest_from no_message round_s in
      let result : check_if_consensus_reached sha256 h round_s round_s1 round
          ≡ some (verdict (beaten sha256 best seen) (reconfirmed sha256 best round_s1) best) =
        rw (check_if_consensus_reached, loaded) refl in
      let (unbeaten, beaten') = beaten-Yields best seen in
      let (witnessed, witnessed') = reconfirmed-SameBlock best round_s1 in
      (
        (
          λ e.
              let (same, x, y) = verdict_elim _ _ best m (some_injective (sym result ∙ e)) in
              record {
                best = same;
                unbeaten = subst (λ c. AllMessages (Yields c) seen) same (unbeaten x);
                witnessed = subst (λ c. AnyMessage (SameBlock c) round_s1) same (witnessed y);
              },
          λ d.
              let x = beaten' (subst (λ c. AllMessages (Yields c) seen) (sym d.best) d.unbeaten) in
              let y =
                witnessed'
                  (subst (λ c. AnyMessage (SameBlock c) round_s1) (sym d.best) d.witnessed) in
              result ∙ rw (verdict, x, y) (ap (λ (c : TlcMessage). some (some c)) d.best),
        ),
        highest_from-all no_message round_s,
        highest_from-among no_message best round_s refl,
      )

  -- No block of a node that has the hash of an uncommitted block, other than the zero hash, as the
  -- hash for its next block is valid to a node with the same history; so it is after a round without
  -- a decision whose fittest message of the next round holds such a block.
  pub no_consensus_invalid :
      (h : BlockchainHandler) (highest : TlcMessage) (b : BlockPublish)
      → WellChained h
      → lookup bytes_dec (block_hash sha256 highest.tx_block) h.committed_history ≡ none
      → block_hash sha256 highest.tx_block ≢ zero_hash
      → b.prev_hash ≡ (no_consensus sha256 highest h).previous_block_hash
      → is_tx_block_valid (no_consensus sha256 highest h) b ≡ some false
  unfolding no_consensus
  no_consensus_invalid h highest b w uncommitted ne e =
      let key = block_hash sha256 highest.tx_block in
      let unknown : is_committed b.prev_hash h.committed_history ≡ false =
        rw (e, is_committed, uncommitted) refl in
      let not_zero : is_zero_hash b.prev_hash ≡ false =
        rw e (if_neg (bytes_dec key zero_hash) ne _ _) in
      is_tx_block_valid_lem (no_consensus sha256 highest h)
        (record { top = w.top; passes = w.passes; blocks = w.blocks }) b
      ∙ ground (arith, unknown, not_zero)
