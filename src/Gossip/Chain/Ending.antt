-- ===== src/Gossip/Chain/Ending.antt =====
-- What the end of a round of consensus leaves alone.
use dsignal.Base.{ℕ, ◌≡◌, some, Bytes, arith}
use dsignal.Gossip.Chain.{BlockchainHandler, TlcMessages, commit, no_consensus, qsc_end}

pub qsc_end_keeps :
    (sha256 : Bytes → Bytes) (round_s : ℕ) (c c1 : TlcMessages) (h h' : BlockchainHandler)
    → qsc_end sha256 round_s c c1 h ≡ some h'
    → (h'.my_time ≡ h.my_time) × (h'.confirmations ≡ h.confirmations)
unfolding qsc_end commit no_consensus
qsc_end_keeps sha256 round_s c c1 h h' e = ground (arith, e)
