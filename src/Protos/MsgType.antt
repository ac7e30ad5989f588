-- ===== src/Protos/MsgType.antt =====
-- The `Type` enumeration of `ChaincodeMessage`, fabric-shim-protos/src/generated/protos.rs, lines
-- 460-565: its numbers, its names in the protobuf definition, and its `Debug` text.
use fabric_chaincode_rs.Prelude.{
  ◌≡◌, refl, Option, none, some, Text, str, ◌==◌, nat_Eq, list_Eq, ℤ, pos, negsuc, if◌then◌else◌,
}

pub data MsgType : Type 0 where
  undefined register registered init ready transaction completed error get_state : MsgType
  put_state del_state invoke_chaincode response get_state_by_range : MsgType
  get_query_result query_state_next query_state_close keepalive : MsgType
  get_history_for_key get_state_metadata put_state_metadata get_private_data_hash : MsgType
  purge_private_data write_batch_state get_state_multiple : MsgType

-- `self as i32`
unfoldable pub to_i32 : MsgType → ℤ
to_i32 undefined = pos 0
to_i32 register = pos 1
to_i32 registered = pos 2
to_i32 init = pos 3
to_i32 ready = pos 4
to_i32 transaction = pos 5
to_i32 completed = pos 6
to_i32 error = pos 7
to_i32 get_state = pos 8
to_i32 put_state = pos 9
to_i32 del_state = pos 10
to_i32 invoke_chaincode = pos 11
to_i32 response = pos 13
to_i32 get_state_by_range = pos 14
to_i32 get_query_result = pos 15
to_i32 query_state_next = pos 16
to_i32 query_state_close = pos 17
to_i32 keepalive = pos 18
to_i32 get_history_for_key = pos 19
to_i32 get_state_metadata = pos 20
to_i32 put_state_metadata = pos 21
to_i32 get_private_data_hash = pos 22
to_i32 purge_private_data = pos 23
to_i32 write_batch_state = pos 24
to_i32 get_state_multiple = pos 25

-- `Type::try_from(i32)`, as prost derives it
unfoldable pub try_from : ℤ → Option MsgType
try_from (pos n) =
    if n == 0
    then some undefined
    else if n == 1
    then some register
    else if n == 2
    then some registered
    else if n == 3
    then some init
    else if n == 4
    then some ready
    else if n == 5
    then some transaction
    else if n == 6
    then some completed
    else if n == 7
    then some error
    else if n == 8
    then some get_state
    else if n == 9
    then some put_state
    else if n == 10
    then some del_state
    else if n == 11
    then some invoke_chaincode
    else if n == 13
    then some response
    else if n == 14
    then some get_state_by_range
    else if n == 15
    then some get_query_result
    else if n == 16
    then some query_state_next
    else if n == 17
    then some query_state_close
    else if n == 18
    then some keepalive
    else if n == 19
    then some get_history_for_key
    else if n == 20
    then some get_state_metadata
    else if n == 21
    then some put_state_metadata
    else if n == 22
    then some get_private_data_hash
    else if n == 23
    then some purge_private_data
    else if n == 24
    then some write_batch_state
    else if n == 25
    then some get_state_multiple
    else none
try_from (negsuc n) = none

unfoldable pub as_str_name : MsgType → Text
as_str_name undefined = str "UNDEFINED"
as_str_name register = str "REGISTER"
as_str_name registered = str "REGISTERED"
as_str_name init = str "INIT"
as_str_name ready = str "READY"
as_str_name transaction = str "TRANSACTION"
as_str_name completed = str "COMPLETED"
as_str_name error = str "ERROR"
as_str_name get_state = str "GET_STATE"
as_str_name put_state = str "PUT_STATE"
as_str_name del_state = str "DEL_STATE"
as_str_name invoke_chaincode = str "INVOKE_CHAINCODE"
as_str_name response = str "RESPONSE"
as_str_name get_state_by_range = str "GET_STATE_BY_RANGE"
as_str_name get_query_result = str "GET_QUERY_RESULT"
as_str_name query_state_next = str "QUERY_STATE_NEXT"
as_str_name query_state_close = str "QUERY_STATE_CLOSE"
as_str_name keepalive = str "KEEPALIVE"
as_str_name get_history_for_key = str "GET_HISTORY_FOR_KEY"
as_str_name get_state_metadata = str "GET_STATE_METADATA"
as_str_name put_state_metadata = str "PUT_STATE_METADATA"
as_str_name get_private_data_hash = str "GET_PRIVATE_DATA_HASH"
as_str_name purge_private_data = str "PURGE_PRIVATE_DATA"
as_str_name write_batch_state = str "WRITE_BATCH_STATE"
as_str_name get_state_multiple = str "GET_STATE_MULTIPLE"

unfoldable pub from_str_name : Text → Option MsgType
from_str_name value =
    if value == str "UNDEFINED"
    then some undefined
    else if value == str "REGISTER"
    then some register
    else if value == str "REGISTERED"
    then some registered
    else if value == str "INIT"
    then some init
    else if value == str "READY"
    then some ready
    else if value == str "TRANSACTION"
    then some transaction
    else if value == str "COMPLETED"
    then some completed
    else if value == str "ERROR"
    then some error
    else if value == str "GET_STATE"
    then some get_state
    else if value == str "PUT_STATE"
    then some put_state
    else if value == str "DEL_STATE"
    then some del_state
    else if value == str "INVOKE_CHAINCODE"
    then some invoke_chaincode
    else if value == str "RESPONSE"
    then some response
    else if value == str "GET_STATE_BY_RANGE"
    then some get_state_by_range
    else if value == str "GET_QUERY_RESULT"
    then some get_query_result
    else if value == str "QUERY_STATE_NEXT"
    then some query_state_next
    else if value == str "QUERY_STATE_CLOSE"
    then some query_state_close
    else if value == str "KEEPALIVE"
    then some keepalive
    else if value == str "GET_HISTORY_FOR_KEY"
    then some get_history_for_key
    else if value == str "GET_STATE_METADATA"
    then some get_state_metadata
    else if value == str "PUT_STATE_METADATA"
    then some put_state_metadata
    else if value == str "GET_PRIVATE_DATA_HASH"
    then some get_private_data_hash
    else if value == str "PURGE_PRIVATE_DATA"
    then some purge_private_data
    else if value == str "WRITE_BATCH_STATE"
    then some write_batch_state
    else if value == str "GET_STATE_MULTIPLE"
    then some get_state_multiple
    else none

-- `{:?}`
unfoldable pub debug : MsgType → Text
debug undefined = str "Undefined"
debug register = str "Register"
debug registered = str "Registered"
debug init = str "Init"
debug ready = str "Ready"
debug transaction = str "Transaction"
debug completed = str "Completed"
debug error = str "Error"
debug get_state = str "GetState"
debug put_state = str "PutState"
debug del_state = str "DelState"
debug invoke_chaincode = str "InvokeChaincode"
debug response = str "Response"
debug get_state_by_range = str "GetStateByRange"
debug get_query_result = str "GetQueryResult"
debug query_state_next = str "QueryStateNext"
debug query_state_close = str "QueryStateClose"
debug keepalive = str "Keepalive"
debug get_history_for_key = str "GetHistoryForKey"
debug get_state_metadata = str "GetStateMetadata"
debug put_state_metadata = str "PutStateMetadata"
debug get_private_data_hash = str "GetPrivateDataHash"
debug purge_private_data = str "PurgePrivateData"
debug write_batch_state = str "WriteBatchState"
debug get_state_multiple = str "GetStateMultiple"

-- Every type is read back from its number.
pub try_from-to_i32 : (t : MsgType) → try_from (to_i32 t) ≡ some t
unfolding try_from to_i32
try_from-to_i32 undefined = refl
try_from-to_i32 register = refl
try_from-to_i32 registered = refl
try_from-to_i32 init = refl
try_from-to_i32 ready = refl
try_from-to_i32 transaction = refl
try_from-to_i32 completed = refl
try_from-to_i32 error = refl
try_from-to_i32 get_state = refl
try_from-to_i32 put_state = refl
try_from-to_i32 del_state = refl
try_from-to_i32 invoke_chaincode = refl
try_from-to_i32 response = refl
try_from-to_i32 get_state_by_range = refl
try_from-to_i32 get_query_result = refl
try_from-to_i32 query_state_next = refl
try_from-to_i32 query_state_close = refl
try_from-to_i32 keepalive = refl
try_from-to_i32 get_history_for_key = refl
try_from-to_i32 get_state_metadata = refl
try_from-to_i32 put_state_metadata = refl
try_from-to_i32 get_private_data_hash = refl
try_from-to_i32 purge_private_data = refl
try_from-to_i32 write_batch_state = refl
try_from-to_i32 get_state_multiple = refl

-- Every type is read back from its name.
pub from_str_name-as_str_name : (t : MsgType) → from_str_name (as_str_name t) ≡ some t
unfolding from_str_name as_str_name str list_Eq
from_str_name-as_str_name undefined = refl
from_str_name-as_str_name register = refl
from_str_name-as_str_name registered = refl
from_str_name-as_str_name init = refl
from_str_name-as_str_name ready = refl
from_str_name-as_str_name transaction = refl
from_str_name-as_str_name completed = refl
from_str_name-as_str_name error = refl
from_str_name-as_str_name get_state = refl
from_str_name-as_str_name put_state = refl
from_str_name-as_str_name del_state = refl
from_str_name-as_str_name invoke_chaincode = refl
from_str_name-as_str_name response = refl
from_str_name-as_str_name get_state_by_range = refl
from_str_name-as_str_name get_query_result = refl
from_str_name-as_str_name query_state_next = refl
from_str_name-as_str_name query_state_close = refl
from_str_name-as_str_name keepalive = refl
from_str_name-as_str_name get_history_for_key = refl
from_str_name-as_str_name get_state_metadata = refl
from_str_name-as_str_name put_state_metadata = refl
from_str_name-as_str_name get_private_data_hash = refl
from_str_name-as_str_name purge_private_data = refl
from_str_name-as_str_name write_batch_state = refl
from_str_name-as_str_name get_state_multiple = refl
