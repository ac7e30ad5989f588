-- ===== src/Response.antt =====
-- fabric-shim/src/response.rs: the result of a transaction.
use fabric_chaincode_rs.Prelude.{Bool, [], Text, Bytes, ℤ, pos, at_least}
use fabric_chaincode_rs.Error.{Result, ok, err}
use fabric_chaincode_rs.Protos.Messages.{PbResponse}

abbrev pub ok_status : ℤ
ok_status = pos 200

abbrev pub error_status : ℤ
error_status = pos 500

pub record Response : Type 0 where
  pub status : ℤ
  pub message : Text
  pub payload : Bytes

unfoldable pub success : Bytes → Response
success payload = record { status = ok_status; message = []; payload = payload }

unfoldable pub success_empty : Response
unfolding success
success_empty = success []

unfoldable pub error : Text → Response
error message = record { status = error_status; message = message; payload = [] }

-- `status >= ERROR_THRESHOLD`
unfoldable pub is_error : Response → Bool
is_error r = at_least 400 r.status

unfoldable pub into_proto : Response → PbResponse
into_proto r = record { status = r.status; message = r.message; payload = r.payload }

unfoldable pub from_proto : PbResponse → Response
from_proto p = record { status = p.status; message = p.message; payload = p.payload }

-- `From<Result<Response, E>>`, with `E`'s `Display`
unfoldable pub from_result : {E : Type 0} → (E → Text) → Result Response E → Response
unfolding error
from_result display (ok resp) = resp
from_result display (err e) = error (display e)
