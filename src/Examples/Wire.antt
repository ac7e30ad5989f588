-- ===== src/Examples/Wire.antt =====
-- The codecs of the concrete wire format, in the place of prost's.
use fabric_chaincode_rs.Prelude.{refl, Bool, true, false, List, [], ◌∷◌, Bytes, map}
use fabric_chaincode_rs.Error.{DecodeError, Result, ok}
use fabric_chaincode_rs.Protos.Messages.{ChaincodeInput, QueryResponse, Kv}
use fabric_chaincode_rs.Stub.Identity.{IsLosslessProposal}
use fabric_chaincode_rs.Protos.Codec.{Codec, Codecs, IsLossless}
use fabric_chaincode_rs.Examples.Packing.{
  pack, unpack, malformed, codec, codec-IsLossless, unused, int_of-int_field,
}
use fabric_chaincode_rs.Examples.Layers.{
  response_format, proposal_format, header_format, signature_format, time_field, time_of,
  time_of-time_field, channel_format, pairs_of-pair_fields, payload_format,
}

-- a plain input: no decorations
abbrev input_codec : Codec ChaincodeInput
input_codec = record {
  encode = λ i. pack i.args;
  decode = λ b. ok (record { args = unpack b; decorations = []; is_init = false });
}

bool_field : Bool → Bytes
bool_field true = 1 ∷ []
bool_field false = []

bool_of : Bytes → Bool
bool_of [] = false
bool_of (_ ∷ _) = true

parse_batch : List Bytes → Result QueryResponse DecodeError
unfolding bool_of
parse_batch (more ∷ id ∷ metadata ∷ results) = ok (record {
  results = map (λ b. record { result_bytes = b }) results;
  has_more = bool_of more;
  id = id;
  metadata = metadata;
})
parse_batch _ = malformed

abbrev query_response_codec : Codec QueryResponse
unfolding bool_field parse_batch
query_response_codec = record {
  encode =
      λ r. pack (bool_field r.has_more ∷ r.id ∷ r.metadata ∷ map (λ q. q.result_bytes) r.results);
  decode = λ b. parse_batch (unpack b);
}

parse_kv : List Bytes → Result Kv DecodeError
parse_kv (namespace ∷ key ∷ value ∷ []) =
    ok (record { namespace = namespace; key = key; value = value })
parse_kv _ = malformed

abbrev kv_codec : Codec Kv
unfolding parse_kv
kv_codec = record {
  encode = λ kv. pack (kv.namespace ∷ kv.key ∷ kv.value ∷ []);
  decode = λ b. parse_kv (unpack b);
}

unfoldable pub wire : Codecs
unfolding response_format channel_format payload_format query_response_codec kv_codec time_field
    time_of
wire = record {
  chaincode_id = record {
    encode = λ c. pack (c.path ∷ c.name ∷ c.version ∷ []);
    decode = λ b. malformed;
  };
  chaincode_input = input_codec;
  chaincode_spec = unused;
  response = codec response_format;
  proposal = codec proposal_format;
  proposal_payload = codec payload_format;
  header = codec header_format;
  channel_header = codec channel_format;
  signature_header = codec signature_format;
  identity = unused;
  chaincode_message = unused;
  get_state = record { encode = λ g. pack (g.collection ∷ g.key ∷ []); decode = λ b. malformed };
  put_state = record {
    encode = λ p. pack (p.collection ∷ p.key ∷ p.value ∷ []);
    decode = λ b. malformed;
  };
  del_state = record { encode = λ d. pack (d.collection ∷ d.key ∷ []); decode = λ b. malformed };
  purge_private_state = record {
    encode = λ d. pack (d.collection ∷ d.key ∷ []);
    decode = λ b. malformed;
  };
  get_state_by_range = unused;
  get_query_result = unused;
  query_metadata = unused;
  get_history_for_key = unused;
  query_state_next = record { encode = λ q. pack (q.id ∷ []); decode = λ b. malformed };
  query_state_close = record { encode = λ q. pack (q.id ∷ []); decode = λ b. malformed };
  query_response = query_response_codec;
  query_response_metadata = unused;
  kv = kv_codec;
  key_modification = unused;
}

pub wire-IsLosslessProposal : IsLosslessProposal wire
unfolding wire
wire-IsLosslessProposal = record {
  proposal = codec-IsLossless proposal_format (λ p. refl);
  header = codec-IsLossless header_format (λ h. refl);
  channel_header = codec-IsLossless channel_format (λ h.
      rw (int_of-int_field h.type, int_of-int_field h.version, time_of-time_field h.timestamp)
        refl);
  signature_header = codec-IsLossless signature_format (λ h. refl);
  payload = codec-IsLossless payload_format (λ p. rw pairs_of-pair_fields refl);
}

pub wire-IsLossless-response : IsLossless wire.response
unfolding wire
wire-IsLossless-response = codec-IsLossless response_format (λ r. rw int_of-int_field refl)
