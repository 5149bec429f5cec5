-- ===== src/Signal/Ratchet/Chains.antt =====
-- A ratchet that has a sending chain has one after a message is received.
use dsignal.Base.{
  ℕ, zero, suc, ◌≡◌, ◌∙◌, refl, sym, ap, ◌-◌, true, false, ◌⊎◌, inl, inr, Option-cases, bytes_dec,
  Bool, Option, none, some, Bytes, bind_case, some_injective, if◌then◌else◌,
}
use dsignal.Base.Dict.{lookup, delete}
use dsignal.Signal.Elliptic.{DhPair, unmarshal}
use dsignal.Signal.Primitives.{Primitives, RatchetHeader, RatchetCipher}
use dsignal.Signal.Kdf.{kdf_ck}
use dsignal.Signal.Aead.{decrypt_aead}
use dsignal.Signal.Ratchet.{
  get_key_from_ratchet, DRatchetState, skip_one, skip_loop, skip_message_keys, dh_ratchet, same_key,
  receive_on_chain, receive, try_skipped_message_keys, ratchet_decrypt,
}
use dsignal.Signal.Ratchet.Steps.{try_miss}

-- There is a sending chain.
abbrev pub CanSend : DRatchetState → Type 0
CanSend s = (ck : Bytes) × (s.cks ≡ some ck)

if_case : {A : Type 0} (b : Bool) (x y z : A) → (if b then x else y) ≡ z → (x ≡ z) ⊎ (y ≡ z)
if_case true x y z e = inl e
if_case false x y z e = inr e

none_branch :
    {A B : Type 0} (o : Option A) (x : B) (f : A → B)
    → o ≡ none
    → elim o [ none ↦ x | some a ↦ f a ] ≡ x
none_branch none x f e = refl
none_branch (some a) x f e = cc

some_branch :
    {A B : Type 0} (o : Option A) (x : B) (f : A → B) (a : A)
    → o ≡ some a
    → elim o [ none ↦ x | some a ↦ f a ] ≡ f a
some_branch none x f a e = cc
some_branch (some b) x f a e = ap f (some_injective e)

module _ (p : Primitives) where
  skip_loop_cks :
      (rounds : ℕ) (s s' : DRatchetState) → skip_loop p rounds s ≡ some s' → s'.cks ≡ s.cks
  unfolding skip_loop skip_one
  skip_loop_cks zero s s' e = ap (λ (r : DRatchetState). r.cks) (sym (some_injective e))
  skip_loop_cks (suc rounds) s s' e =
      let (ck, has_ck, e') = bind_case s.ckr _ s' e in
      let (dhr, has_dhr, e2) = bind_case s.dhr _ s' e' in
      skip_loop_cks rounds (skip_one p ck dhr s) s' e2

  skip_message_keys_cks :
      (until : ℕ) (s s' : DRatchetState) → skip_message_keys p until s ≡ some s' → s'.cks ≡ s.cks
  unfolding skip_message_keys
  skip_message_keys_cks until s s' e = elim (Option-cases s.ckr) [
    | inl miss ↦
        let same : some s ≡ some s' =
          sym (none_branch s.ckr (some s) (λ ck. skip_loop p (until - s.nr) s) miss) ∙ e in
        ap (λ (r : DRatchetState). r.cks) (sym (some_injective same))
    | inr (ck, hit) ↦
        skip_loop_cks (until - s.nr) s s'
          (sym (some_branch s.ckr (some s) (λ ck. skip_loop p (until - s.nr) s) ck hit) ∙ e)
  ]

  module _ (header : RatchetHeader) (cipher : RatchetCipher) (out : Option Bytes)
      (s' : DRatchetState) where
    receive_on_chain_cks :
        (s : DRatchetState) → receive_on_chain p header cipher s ≡ some (s', out) → s'.cks ≡ s.cks
    unfolding receive_on_chain
    receive_on_chain_cks s e =
        let (t, skipped, e1) = bind_case (skip_message_keys p header.n s) _ (s', out) e in
        let (ck, has_ck, e2) = bind_case t.ckr _ (s', out) e1 in
        let (text, opened, e3) =
          bind_case (decrypt_aead p (kdf_ck p ck).1 cipher header) _ (s', out) e2 in
        sym (ap (λ (r : DRatchetState × Option Bytes). r.0.cks) (some_injective e3))
        ∙ skip_message_keys_cks header.n s t skipped

    dh_ratchet-CanSend :
        (fresh : DhPair) (s : DRatchetState) → CanSend (dh_ratchet p fresh header s)
    unfolding dh_ratchet
    dh_ratchet-CanSend fresh s = (_, refl)

    receive-CanSend :
        (fresh : DhPair) (s : DRatchetState)
        → receive p fresh header cipher s ≡ some (s', out)
        → CanSend s
        → CanSend s'
    unfolding receive
    receive-CanSend fresh s e (ck, has) = elim (if_case (same_key p s header) _ _ _ e) [
      | inl on ↦ (ck, receive_on_chain_cks s on ∙ has)
      | inr off ↦
          let (t, skipped, e1) = bind_case (skip_message_keys p header.n s) _ (s', out) off in
          let (ck', has') = dh_ratchet-CanSend fresh t in
          (ck', receive_on_chain_cks (dh_ratchet p fresh header t) e1 ∙ has')
    ]

    try_cks :
        (s t : DRatchetState) (o : Option Bytes)
        → try_skipped_message_keys p header cipher s ≡ some (t, o)
        → t.cks ≡ s.cks
    unfolding try_skipped_message_keys
    try_cks s t o e =
        let key = get_key_from_ratchet p (unmarshal p.elliptic_unmarshal header.pub_key) header.n in
        let state_of = λ (r : DRatchetState × Option Bytes). r.0.cks in
        elim (Option-cases (lookup bytes_dec key s.mk_skipped)) [
          | inl miss ↦
              let same : some (s, none) ≡ some (t, o) = sym (try_miss p header cipher s miss) ∙ e in
              sym (ap state_of (some_injective same))
          | inr (mk, hit) ↦
              let opening : elim (decrypt_aead p mk cipher header) [
                | none ↦ none
                | some text ↦
                    some (record s { mk_skipped = delete bytes_dec key s.mk_skipped }, text)
              ]
                  ≡ some (t, o) =
                sym (rw (try_skipped_message_keys, hit) refl) ∙ e in
              let (text, opened, e1) =
                bind_case (decrypt_aead p mk cipher header) _ (t, o) opening in
              sym (ap state_of (some_injective e1))
        ]

    -- A side that can send can still send after any message, whether or not it is refused.
    pub ratchet_decrypt-CanSend :
        (fresh : DhPair) (s : DRatchetState)
        → ratchet_decrypt p fresh header cipher s ≡ some (s', out)
        → CanSend s
        → CanSend s'
    unfolding ratchet_decrypt
    ratchet_decrypt-CanSend fresh s e (ck, has) =
        elim (Option-cases (try_skipped_message_keys p header cipher s)) [
          | inl stuck ↦
              let nothing : Option (DRatchetState × Option Bytes) = none in
              let impossible : nothing ≡ some (s', out) =
                sym (rw (ratchet_decrypt, stuck) refl) ∙ e in
              cc
          | inr ((t, none), tried) ↦
              receive-CanSend fresh t (sym (rw (ratchet_decrypt, tried) refl) ∙ e)
                (ck, try_cks s t none tried ∙ has)
          | inr ((t, some text), tried) ↦
              let same : some (t, some text) ≡ some (s', out) =
                sym (rw (ratchet_decrypt, tried) refl) ∙ e in
              (
                ck,
                sym (ap (λ (r : DRatchetState × Option Bytes). r.0.cks) (some_injective same))
                    ∙ try_cks s t (some text) tried
                    ∙ has,
              )
        ]
