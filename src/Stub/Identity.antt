-- ===== src/Stub/Identity.antt =====
-- The stub against the client's proposal.
use fabric_chaincode_rs.Prelude.{◌≡◌, refl, Option, some, Text, Bytes}
use fabric_chaincode_rs.Error.{Error, Result, ok, >>=-eq-ok}
use fabric_chaincode_rs.Protos.Messages.{
  ChaincodeInput, SignedProposal, ChannelHeader, SignatureHeader, ChaincodeProposalPayload,
}
use fabric_chaincode_rs.Protos.Codec.{Codecs, IsLossless}
use fabric_chaincode_rs.Stub.{
  ChaincodeStub, new_stub, read_proposal, get_creator, get_transient, get_tx_id, get_channel_id,
  get_args,
}

-- A client's proposal, encoded layer by layer.
unfoldable pub sign :
    Codecs
    → ChannelHeader
    → SignatureHeader
    → ChaincodeProposalPayload
    → Bytes
    → Bytes
    → SignedProposal
sign codecs channel signature payload extension sig = record {
  proposal_bytes = codecs.proposal.encode (record {
    header = codecs.header.encode (record {
      channel_header = codecs.channel_header.encode channel;
      signature_header = codecs.signature_header.encode signature;
    });
    payload = codecs.proposal_payload.encode payload;
    extension = extension;
  });
  signature = sig;
}

-- The layers decode to what was encoded.
pub record IsLosslessProposal (codecs : Codecs) : Type 0 where
  pub proposal : IsLossless codecs.proposal
  pub header : IsLossless codecs.header
  pub channel_header : IsLossless codecs.channel_header
  pub signature_header : IsLossless codecs.signature_header
  pub payload : IsLossless codecs.proposal_payload

module _ (codecs : Codecs) (channel_id tx_id : Text) (input : ChaincodeInput) where
  -- If the proposal's layers decode to what was encoded, a stub built from a client's proposal has
  -- the proposal's creator, transient map and timestamp, the transaction's arguments, and the channel
  -- and transaction of the message.
  pub new_stub-sign :
      (channel : ChannelHeader) (signature : SignatureHeader) (payload : ChaincodeProposalPayload)
      (extension sig : Bytes)
      → IsLosslessProposal codecs
      → (stub : ChaincodeStub) × (new_stub codecs channel_id tx_id input
            (some (sign codecs channel signature payload extension sig))
          ≡ ok stub)
        × (get_creator stub ≡ signature.creator)
        × (get_transient stub ≡ payload.transient_map)
        × (stub.tx_timestamp ≡ channel.timestamp)
        × (get_args stub ≡ input.args)
        × (get_tx_id stub ≡ tx_id)
        × (get_channel_id stub ≡ channel_id)
  unfolding new_stub sign get_creator get_transient get_args get_tx_id get_channel_id
  new_stub-sign channel signature payload extension sig l = (
    record {
      core = record { channel_id = channel_id; tx_id = tx_id };
      args = input.args;
      decorations = input.decorations;
      signed_proposal = some (sign codecs channel signature payload extension sig);
      creator = signature.creator;
      transient = payload.transient_map;
      tx_timestamp = channel.timestamp;
    },
    rw (l.proposal _, l.header _, l.channel_header _, l.signature_header _, l.payload _) refl,
    refl,
    refl,
    refl,
    refl,
    refl,
    refl,
  )

  abbrev ok_stub : ChaincodeStub → Result ChaincodeStub Error
  ok_stub a = ok a

  ok-core-args :
      {a b : ChaincodeStub} → ok_stub a ≡ ok_stub b → (b.core ≡ a.core) × (b.args ≡ a.args)
  ok-core-args h = (cc, cc)

  -- A stub is of the transaction that it is made for, and its arguments are the input's.
  pub new_stub-core-args :
      (proposal : Option SignedProposal) (stub : ChaincodeStub)
      → new_stub codecs channel_id tx_id input proposal ≡ ok stub
      → (stub.core ≡ record { channel_id = channel_id; tx_id = tx_id }) × (stub.args ≡ input.args)
  unfolding new_stub
  new_stub-core-args proposal stub h =
      let (fields, _, same) =
        >>=-eq-ok
          (λ fields. ok (record {
            core = record { channel_id = channel_id; tx_id = tx_id };
            args = input.args;
            decorations = input.decorations;
            signed_proposal = proposal;
            creator = fields.creator;
            transient = fields.transient;
            tx_timestamp = fields.tx_timestamp;
          }))
          (read_proposal codecs proposal) h in
      ok-core-args same
