-- ===== src/Examples/Layers.antt =====
-- The layers of a proposal, and the responses, in the concrete wire format.
use fabric_chaincode_rs.Prelude.{
  ℕ, ◌≡◌, refl, ap, ◌∙◌, Option, none, some, List, [], ◌∷◌, Text, Bytes,
}
use fabric_chaincode_rs.Prelude.Map.{Map}
use fabric_chaincode_rs.Error.{DecodeError, Result, ok}
use fabric_chaincode_rs.Protos.Messages.{
  Timestamp, PbResponse, Proposal, ChaincodeProposalPayload, Header, ChannelHeader, SignatureHeader,
}
use fabric_chaincode_rs.Examples.Packing.{
  pack, unpack, unpack-pack, malformed, int_field, int_of, int_of-int_field, Format,
}

unfoldable pub response_format : Format PbResponse
unfolding int_field int_of
response_format = record { fields = fields; parse = parse }
  where
    fields : PbResponse → List Bytes
    fields r = int_field r.status ∷ r.message ∷ r.payload ∷ []

    parse : List Bytes → Result PbResponse DecodeError
    parse (status ∷ message ∷ payload ∷ []) =
        ok (record { status = int_of status; message = message; payload = payload })
    parse _ = malformed

abbrev pub proposal_format : Format Proposal
proposal_format = record { fields = fields; parse = parse }
  where
    fields : Proposal → List Bytes
    fields p = p.header ∷ p.payload ∷ p.extension ∷ []

    parse : List Bytes → Result Proposal DecodeError
    parse (header ∷ payload ∷ extension ∷ []) =
        ok (record { header = header; payload = payload; extension = extension })
    parse _ = malformed

abbrev pub header_format : Format Header
header_format = record { fields = fields; parse = parse }
  where
    fields : Header → List Bytes
    fields h = h.channel_header ∷ h.signature_header ∷ []

    parse : List Bytes → Result Header DecodeError
    parse (channel ∷ signature ∷ []) =
        ok (record { channel_header = channel; signature_header = signature })
    parse _ = malformed

abbrev pub signature_format : Format SignatureHeader
signature_format = record { fields = fields; parse = parse }
  where
    fields : SignatureHeader → List Bytes
    fields h = h.creator ∷ h.nonce ∷ []

    parse : List Bytes → Result SignatureHeader DecodeError
    parse (creator ∷ nonce ∷ []) = ok (record { creator = creator; nonce = nonce })
    parse _ = malformed

unfoldable pub time_field : Option Timestamp → Bytes
time_field none = []
time_field (some t) = pack (int_field t.seconds ∷ int_field t.nanos ∷ [])

time_of_fields : List Bytes → Option Timestamp
time_of_fields (seconds ∷ nanos ∷ []) =
    some (record { seconds = int_of seconds; nanos = int_of nanos })
time_of_fields _ = none

unfoldable pub time_of : Bytes → Option Timestamp
unfolding time_of_fields
time_of b = time_of_fields (unpack b)

pub time_of-time_field : (t : Option Timestamp) → time_of (time_field t) ≡ t
unfolding time_of time_field
time_of-time_field none = unfold unpack in refl
time_of-time_field (some t) =
    ap time_of_fields (unpack-pack (int_field t.seconds ∷ int_field t.nanos ∷ []))
    ∙ rw (time_of_fields, int_of-int_field t.seconds, int_of-int_field t.nanos) refl

nat_of : Bytes → ℕ
nat_of (n ∷ _) = n
nat_of _ = 0

unfoldable pub channel_format : Format ChannelHeader
unfolding nat_of
channel_format = record { fields = fields; parse = parse }
  where
    fields : ChannelHeader → List Bytes
    fields h =
        int_field h.type
        ∷ int_field h.version
        ∷ time_field h.timestamp
        ∷ h.channel_id
        ∷ h.tx_id
        ∷ (h.epoch ∷ [])
        ∷ h.extension
        ∷ h.tls_cert_hash
        ∷ []

    parse : List Bytes → Result ChannelHeader DecodeError
    parse (type ∷ version ∷ time ∷ channel ∷ tx ∷ epoch ∷ extension ∷ hash ∷ []) = ok (record {
      type = int_of type;
      version = int_of version;
      timestamp = time_of time;
      channel_id = channel;
      tx_id = tx;
      epoch = nat_of epoch;
      extension = extension;
      tls_cert_hash = hash;
    })
    parse _ = malformed

unfoldable pub pair_fields : Map Text Bytes → List Bytes
pair_fields [] = []
pair_fields ((k, v) ∷ m) = k ∷ v ∷ pair_fields m

unfoldable pub pairs_of : List Bytes → Map Text Bytes
pairs_of (k ∷ v ∷ m) = (k, v) ∷ pairs_of m
pairs_of _ = []

pub pairs_of-pair_fields : (m : Map Text Bytes) → pairs_of (pair_fields m) ≡ m
unfolding pairs_of pair_fields
pairs_of-pair_fields [] = refl
pairs_of-pair_fields ((k, v) ∷ m) = ap (λ r. (k, v) ∷ r) (pairs_of-pair_fields m)

unfoldable pub payload_format : Format ChaincodeProposalPayload
unfolding pair_fields pairs_of
payload_format = record { fields = fields; parse = parse }
  where
    fields : ChaincodeProposalPayload → List Bytes
    fields p = p.input ∷ pair_fields p.transient_map

    parse : List Bytes → Result ChaincodeProposalPayload DecodeError
    parse (input ∷ pairs) = ok (record { input = input; transient_map = pairs_of pairs })
    parse _ = malformed
