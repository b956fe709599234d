-- ===== src/Common/ErrorCodes.antt =====
-- servers/common/include/const.h: the error codes and the prefixes of keys.
use quick_chat.Prelude.{ℤ, pos, Bytes, codes}

abbrev pub success : ℤ
success = pos 0

abbrev pub error_json : ℤ
error_json = pos 1001

abbrev pub rpc_failed : ℤ
rpc_failed = pos 1002

abbrev pub verify_expired : ℤ
verify_expired = pos 1003

abbrev pub verify_code_err : ℤ
verify_code_err = pos 1004

abbrev pub user_exist : ℤ
user_exist = pos 1005

abbrev pub passwd_err : ℤ
passwd_err = pos 1006

abbrev pub email_not_match : ℤ
email_not_match = pos 1007

abbrev pub passwd_up_failed : ℤ
passwd_up_failed = pos 1008

abbrev pub passwd_invalid : ℤ
passwd_invalid = pos 1009

abbrev pub token_invalid : ℤ
token_invalid = pos 1010

abbrev pub uid_invalid : ℤ
uid_invalid = pos 1011

abbrev pub user_token_prefix : Bytes
user_token_prefix = codes "utoken_"

abbrev pub login_count : Bytes
login_count = codes "logincount"
