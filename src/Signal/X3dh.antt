-- ===== src/Signal/X3dh.antt =====
-- adssignal/adsX3DH.go: the three sides of the key agreement, and the ratchets that they leave in the
-- state table. Key pairs that the code generates are arguments. The outer `none` is a panic, the
-- inner one the nil that the code returns.
pub mod Texts
pub mod Agreement
use dsignal.Base.{
  ℕ, ◌==◌, Bool, Option, none, some, List, [], ◌∷◌, ◌++◌, Bytes, GoString, get_elem?, bytes_dec,
  if◌then◌else◌, ite,
}
use dsignal.Base.Dict.{Dict, insert}
use dsignal.Signal.Elliptic.{EllipticPoint, DhPair, marshal, unmarshal}
use dsignal.Signal.Primitives.{Primitives, RatchetMessage}
use dsignal.Signal.Kdf.{kdf_x3dh}
use dsignal.Signal.Ratchet.{
  DRatchetState, dh, s_initialize_ratchet, r_initialize_ratchet, ratchet_encrypt, ratchet_decrypt,
}
use dsignal.Signal.Identity.{Signatures, Ecdsa, SelfIdentity, RemoteIdentity, verify_signature}

pub record X3dhMessage : Type 0 where
  pub r_message : RatchetMessage
  pub ik : Bytes
  pub ek : Bytes
  pub opk : Option Bytes

-- `stateTable`
abbrev pub StateTable : Type 0
StateTable = Dict GoString DRatchetState

abbrev pub colon : ℕ
colon = 58

abbrev pub push : ℕ → List GoString → List GoString
push c [] = (c ∷ []) ∷ []
push c (w ∷ ws) = (c ∷ w) ∷ ws

-- `strings.Split(text, ":")`
unfoldable pub split_colon : GoString → List GoString
split_colon [] = [] ∷ []
split_colon (c ∷ text) =
    let rest = split_colon text in if c == colon then [] ∷ rest else push c rest

-- `sender:receiver`, and `:message` if there is one
abbrev pub opening : GoString → GoString → Option GoString → GoString
opening sender receiver none = sender ++ (colon ∷ receiver)
opening sender receiver (some message) = sender ++ (colon ∷ receiver) ++ (colon ∷ message)

-- The one-time key with that compressed form, the first one in the list.
unfoldable pub find_opk : Bytes → List DhPair → Option DhPair
find_opk key [] = none
find_opk key (op ∷ opks) =
    let rest = find_opk key opks in ite (bytes_dec (marshal op.pub_key) key) (some op) rest

module _ (p : Primitives) where
  open p use {elliptic_unmarshal}

  -- `SK` of the sender, from its ephemeral key pair `ek`.
  pub sender_secret : DhPair → SelfIdentity → RemoteIdentity → Option EllipticPoint → Bytes
  sender_secret ek self remote one_time =
      let dhx = dh p self.ik remote.spk ++ dh p ek remote.ik ++ dh p ek remote.spk in
      elim one_time [ none ↦ kdf_x3dh p dhx | some key ↦ kdf_x3dh p (dhx ++ dh p ek key) ]

  -- `SK` of the receiver, from the keys of the message.
  pub receiver_secret : SelfIdentity → X3dhMessage → Option DhPair → Bytes
  receiver_secret self msg one_time =
      let r_ik = unmarshal elliptic_unmarshal msg.ik in
      let r_ek = unmarshal elliptic_unmarshal msg.ek in
      let dhx = dh p self.spk r_ik ++ dh p self.ik r_ek ++ dh p self.spk r_ek in
      elim one_time [ none ↦ kdf_x3dh p dhx | some pair ↦ kdf_x3dh p (dhx ++ dh p pair r_ek) ]

  -- The sender's part after the signature: `fresh` is the key pair of `SInitializeRatchet`. The
  -- table holds a pointer to the state, which `RatchetEncrypt` changes.
  unfoldable pub send_opening :
      DhPair
      → DhPair
      → RemoteIdentity
      → Option EllipticPoint
      → GoString
      → GoString
      → SelfIdentity
      → Option GoString
      → StateTable
      → Option (StateTable × Option X3dhMessage)
  send_opening ek fresh remote one_time sender receiver self message table =
      let ad = marshal self.ik.pub_key ++ marshal remote.ik in
      let state =
        s_initialize_ratchet p fresh (sender_secret ek self remote one_time) remote.spk receiver in
      elim (ratchet_encrypt p (opening sender receiver message) sender receiver ad state) [
        | none ↦ none
        | some (state', r_message) ↦ some (
          insert bytes_dec receiver state' table,
          some (record {
            r_message = r_message;
            ik = marshal self.ik.pub_key;
            ek = marshal ek.pub_key;
            opk = elim one_time [ none ↦ none | some key ↦ some (marshal key) ];
          }),
        )
      ]

  -- A signature that does not verify leaves the table as it is.
  unfoldable pub s_initialize_x3dh :
      Signatures
      → DhPair
      → DhPair
      → RemoteIdentity
      → Option EllipticPoint
      → GoString
      → GoString
      → SelfIdentity
      → Option GoString
      → StateTable
      → Option (StateTable × Option X3dhMessage)
  s_initialize_x3dh sg ek fresh remote one_time sender receiver self message table =
      elim remote.sign [
        | none ↦ none
        | some sign ↦
            if verify_signature p sg (marshal remote.spk) sign remote.ik
            then send_opening ek fresh remote one_time sender receiver self message table
            else some (table, none)
      ]

  -- The receiver's part after the secret: the part of the text at the index is what it returns, and
  -- an index out of range a panic. `fresh` is the key pair of `DHRatchet`.
  pub accept_opening :
      ℕ
      → Bytes
      → DhPair
      → X3dhMessage
      → SelfIdentity
      → StateTable
      → Option (StateTable × Option GoString)
  accept_opening index sk fresh msg self table =
      elim (ratchet_decrypt p fresh msg.r_message.header msg.r_message.message
        (r_initialize_ratchet p sk self.spk)) [
          | none ↦ none
          | some (state, none) ↦ some (table, none)
          | some (state, some plaintext) ↦ elim (get_elem? (split_colon plaintext) 0) [
            | none ↦ none
            | some peer ↦ elim (get_elem? (split_colon plaintext) index) [
              | none ↦ none
              | some part ↦
                  some (insert bytes_dec peer (record state { peer = peer }) table, some part)
            ]
          ]
        ]

  -- The one-time key counts if the message names one and the caller has one.
  pub r_initialize_x3dh :
      DhPair
      → X3dhMessage
      → Option DhPair
      → SelfIdentity
      → StateTable
      → Option (StateTable × Option GoString)
  r_initialize_x3dh fresh msg one_time self table =
      let pair : Option DhPair = elim msg.opk [ none ↦ none | some _ ↦ one_time ] in
      accept_opening 1 (receiver_secret self msg pair) fresh msg self table

  -- The one-time key that the message names is looked up among those of the identity.
  pub i_initialize_x3dh :
      DhPair → X3dhMessage → SelfIdentity → StateTable → Option (StateTable × Option GoString)
  i_initialize_x3dh fresh msg self table =
      let pair : Option DhPair = elim msg.opk [ none ↦ none | some key ↦ find_opk key self.opk ] in
      accept_opening 2 (receiver_secret self msg pair) fresh msg self table
