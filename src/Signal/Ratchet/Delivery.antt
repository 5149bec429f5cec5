-- ===== src/Signal/Ratchet/Delivery.antt =====
-- Messages of one sending chain arrive in any order, and each decrypts.
use dsignal.Base.{
  ℕ, zero, suc, ◌+◌, ◌-◌, ◌^◌, ◌≤◌, ◌<◌, ◌≡◌, ◌≢◌, ◌∙◌, sym, refl, Bool, true, false, none, some,
  Bytes, bytes_dec, ℕ_discrete, dec_lt, arith, ◌==◌, if◌then◌else◌,
}
use dsignal.Base.Dict.{
  lookup, delete, lookup-insert_self, lookup-insert_ne, lookup-delete_self, lookup-delete_ne,
}
use dsignal.Signal.Elliptic.{EllipticPoint, DhPair, unmarshal}
use dsignal.Signal.Primitives.{Primitives, Laws, RatchetHeader}
use dsignal.Signal.Kdf.{kdf_ck}
use dsignal.Signal.Aead.{concat, encrypt_aead, decrypt_aead}
use dsignal.Signal.Aead.Sealed.{decrypt_aead-encrypt_aead}
use dsignal.Signal.Ratchet.{
  DRatchetState, get_key_from_ratchet, skip_one, skip_loop, skip_message_keys, receive_on_chain,
  ratchet_decrypt,
}
use dsignal.Signal.Ratchet.Steps.{
  try_hit, try_miss, same_key_lem, on_chain, decrypt_hit, decrypt_same,
}
use dsignal.Signal.Ratchet.Keys.{
  chain_key, message_key, chain_key_step, get_key_from_ratchet-injective,
}

-- One more message received.
abbrev pub mark : ℕ → (ℕ → Bool) → ℕ → Bool
mark i got j = if j == i then true else got j

mark_self : (i : ℕ) (got : ℕ → Bool) → mark i got i ≡ true
mark_self i got = ground arith

mark_ne : (i j : ℕ) (got : ℕ → Bool) → j ≢ i → mark i got j ≡ got j
mark_ne i j got ne = ground arith

-- The receiver stands on the chain that begins with `ck` and belongs to the remote key `dhr`. `got`
-- tells which of its messages were received: the keys of the others before `nr` are kept.
pub record Receives (p : Primitives) (dhr : EllipticPoint) (ck : Bytes) (got : ℕ → Bool)
    (state : DRatchetState) : Type 0 where
  pub remote : state.dhr ≡ some dhr
  pub chain : state.ckr ≡ some (chain_key p ck state.nr)
  pub in_range : state.nr ≤ 2 ^ 64
  pub before :
      (i : ℕ)
      → i < state.nr
      → lookup bytes_dec (get_key_from_ratchet p dhr i) state.mk_skipped
        ≡ (if got i then none else some (message_key p ck i))
  pub after :
      (i : ℕ)
      → state.nr ≤ i
      → i < 2 ^ 64
      → (lookup bytes_dec (get_key_from_ratchet p dhr i) state.mk_skipped ≡ none) × (got i ≡ false)

module _ (p : Primitives) (laws : Laws p) (dhr : EllipticPoint) (ck : Bytes) (got : ℕ → Bool) where
  key_ne :
      (i j : ℕ)
      → i < 2 ^ 64
      → j < 2 ^ 64
      → i ≢ j
      → get_key_from_ratchet p dhr i ≢ get_key_from_ratchet p dhr j
  key_ne i j small small' ne e = ne (get_key_from_ratchet-injective p laws dhr i j small small' e)

  skip_one-Receives :
      (state : DRatchetState)
      → state.nr < 2 ^ 64
      → Receives p dhr ck got state
      → Receives p dhr ck got (skip_one p (chain_key p ck state.nr) dhr state)
  unfolding skip_one
  skip_one-Receives state small r = record {
    remote = r.remote;
    chain = rw (chain_key_step p ck state.nr);
    in_range = omega arith;
    before = λ i lt. elim (ℕ_discrete i state.nr) [
      | yes e ↦ rw (e, lookup-insert_self, (r.after state.nr (omega arith) small).1)
      | no ne ↦
          lookup-insert_ne bytes_dec (get_key_from_ratchet p dhr state.nr)
            (get_key_from_ratchet p dhr i) (message_key p ck state.nr) state.mk_skipped
            (key_ne state.nr i small (omega arith) (λ e. ne (sym e)))
          ∙ r.before i (omega arith)
    ];
    after = λ i le lt.
        let (absent, missing) = r.after i (omega arith) lt in
        (
          lookup-insert_ne bytes_dec (get_key_from_ratchet p dhr state.nr)
                (get_key_from_ratchet p dhr i) (message_key p ck state.nr) state.mk_skipped
                (key_ne state.nr i small lt (λ e. absurd (omega arith)))
              ∙ absent,
          missing,
        );
  }

  skip_loop-Receives :
      (rounds : ℕ) (state : DRatchetState)
      → state.nr + rounds ≤ 2 ^ 64
      → Receives p dhr ck got state
      → (state' : DRatchetState) × (skip_loop p rounds state ≡ some state')
        × (state'.nr ≡ state.nr + rounds)
        × Receives p dhr ck got state'
  unfolding skip_loop skip_one
  skip_loop-Receives zero state small r = (state, refl, omega arith, r)
  skip_loop-Receives (suc rounds) state small r =
      let next = skip_one p (chain_key p ck state.nr) dhr state in
      let (state', skipped, number, r') =
        skip_loop-Receives rounds next (omega arith) (skip_one-Receives state (omega arith) r) in
      (state', rw (r.chain, r.remote) skipped, omega arith, r')

  skip_message_keys_loop :
      (until : ℕ) (state : DRatchetState) (k : Bytes)
      → state.ckr ≡ some k
      → skip_message_keys p until state ≡ skip_loop p (until - state.nr) state
  unfolding skip_message_keys
  skip_message_keys_loop until state k e = ground arith

  pub skip_message_keys-Receives :
      (until : ℕ) (state : DRatchetState)
      → state.nr ≤ until
      → until ≤ 2 ^ 64
      → Receives p dhr ck got state
      → (state' : DRatchetState) × (skip_message_keys p until state ≡ some state')
        × (state'.nr ≡ until)
        × Receives p dhr ck got state'
  skip_message_keys-Receives until state le small r =
      let (state', skipped, number, r') =
        skip_loop-Receives (until - state.nr) state (omega arith) r in
      (
        state',
        skip_message_keys_loop until state (chain_key p ck state.nr) r.chain ∙ skipped,
        omega arith,
        r',
      )

  -- One more step of the chain, the key of message `n` used.
  pub next-Receives :
      (n : ℕ) (state : DRatchetState)
      → n < 2 ^ 64
      → state.nr ≡ n
      → Receives p dhr ck got state
      → Receives p dhr ck
          (mark n got)
          (record state { ckr = some (kdf_ck p (chain_key p ck n)).0; nr = state.nr + 1 })
  next-Receives n state small e r = record {
    remote = r.remote;
    chain = rw (chain_key_step p ck state.nr, e);
    in_range = omega arith;
    before = λ i below. elim (ℕ_discrete i n) [
      | yes q ↦ rw (q, mark_self n got) (r.after n (omega arith) small).0
      | no ne ↦ rw (mark_ne n i got ne) (r.before i (omega arith))
    ];
    after = λ i le below.
        let (absent, missing) = r.after i (omega arith) below in
        (absent, mark_ne n i got (λ q. absurd (omega arith)) ∙ missing);
  }

  module _ (header : RatchetHeader) (plaintext ad : Bytes)
      (key_of_header : unmarshal p.elliptic_unmarshal header.pub_key ≡ dhr)
      (small : header.n < 2 ^ 64) (new : got header.n ≡ false) where
    opened :
        decrypt_aead p
          (message_key p ck header.n)
          (encrypt_aead p (message_key p ck header.n) plaintext (concat p ad header))
          header
        ≡ some (some plaintext)
    opened = decrypt_aead-encrypt_aead p laws (message_key p ck header.n) plaintext ad header

    -- A message whose key was skipped.
    late-Receives :
        (state : DRatchetState)
        → header.n < state.nr
        → Receives p dhr ck got state
        → Receives p dhr ck (mark header.n got) (record state {
          mk_skipped = delete bytes_dec (get_key_from_ratchet p dhr header.n) state.mk_skipped;
        })
    late-Receives state lt r = record {
      remote = r.remote;
      chain = r.chain;
      in_range = r.in_range;
      before = λ i below. elim (ℕ_discrete i header.n) [
        | yes e ↦ rw (e, lookup-delete_self) (rw (mark_self header.n got))
        | no ne ↦ rw (mark_ne header.n i got ne) (
            lookup-delete_ne bytes_dec (get_key_from_ratchet p dhr header.n)
              (get_key_from_ratchet p dhr i) state.mk_skipped
              (key_ne header.n i small (let b = r.in_range in omega arith) (λ e. ne (sym e)))
            ∙ r.before i below)
      ];
      after = λ i le below.
          let (absent, missing) = r.after i le below in
          let ne : i ≢ header.n = λ e. absurd (omega arith) in
          (
            lookup-delete_ne bytes_dec (get_key_from_ratchet p dhr header.n)
                  (get_key_from_ratchet p dhr i) state.mk_skipped
                  (key_ne header.n i small below (λ e. ne (sym e)))
                ∙ absent,
            mark_ne header.n i got ne ∙ missing,
          );
    }

    pub receive_on_chain-Receives :
        (state : DRatchetState)
        → state.nr ≤ header.n
        → Receives p dhr ck got state
        → (state' : DRatchetState) × (receive_on_chain p header
              (encrypt_aead p (message_key p ck header.n) plaintext (concat p ad header))
              state
            ≡ some (state', some plaintext))
          × Receives p dhr ck (mark header.n got) state'
    receive_on_chain-Receives state ge r =
        let cipher = encrypt_aead p (message_key p ck header.n) plaintext (concat p ad header) in
        let (state', skipped, number, r') =
          skip_message_keys-Receives header.n state ge (omega arith) r in
        let chain : state'.ckr ≡ some (chain_key p ck header.n) = r'.chain ∙ rw number in
        (
          record state' { ckr = some (kdf_ck p (chain_key p ck header.n)).0; nr = state'.nr + 1 },
          on_chain p header cipher state state' (chain_key p ck header.n) (some plaintext) skipped
              chain opened,
          next-Receives header.n state' small number r',
        )

    -- Messages of a sending chain decrypt in whatever order they arrive: one that was not received
    -- before yields its plaintext, keys of messages that it overtakes are kept, and what holds of
    -- the receiver holds again. The header names the remote key that the receiver stands on.
    pub ratchet_decrypt-Receives :
        (fresh : DhPair) (state : DRatchetState)
        → Receives p dhr ck got state
        → (state' : DRatchetState) × (ratchet_decrypt p fresh header
              (encrypt_aead p (message_key p ck header.n) plaintext (concat p ad header))
              state
            ≡ some (state', some plaintext))
          × Receives p dhr ck (mark header.n got) state'
    ratchet_decrypt-Receives fresh state r =
        let cipher = encrypt_aead p (message_key p ck header.n) plaintext (concat p ad header) in
        elim (dec_lt header.n state.nr) [
          | yes lt ↦
              let hit : lookup bytes_dec
                    (get_key_from_ratchet p (unmarshal p.elliptic_unmarshal header.pub_key)
                      header.n)
                    state.mk_skipped
                  ≡ some (message_key p ck header.n) =
                rw key_of_header (r.before header.n lt ∙ rw new) in
              let late = late-Receives state lt r in
              (
                record state {
                  mk_skipped =
                      delete bytes_dec (get_key_from_ratchet p dhr header.n) state.mk_skipped;
                },
                decrypt_hit p header cipher state fresh _ plaintext (
                    try_hit p header cipher state (message_key p ck header.n) (some plaintext) hit
                      opened
                    ∙ rw key_of_header),
                late,
              )
          | no ge ↦
              let miss : lookup bytes_dec
                    (get_key_from_ratchet p (unmarshal p.elliptic_unmarshal header.pub_key)
                      header.n)
                    state.mk_skipped
                  ≡ none =
                rw key_of_header (r.after header.n (omega arith) small).0 in
              let (state', received, r') = receive_on_chain-Receives state (omega arith) r in
              (
                state',
                decrypt_same p header cipher state fresh (try_miss p header cipher state miss)
                      (same_key_lem p header cipher state dhr r.remote key_of_header)
                    ∙ received,
                r',
              )
        ]
