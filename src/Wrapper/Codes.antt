-- ===== src/Wrapper/Codes.antt =====
-- The result codes of include/wrapper.hpp.
use curlev.Prelude.Int.{ℤ, pos, negsuc}

abbrev pub success : ℤ
success = pos 0

abbrev pub running_code : ℤ
running_code = negsuc 0

abbrev pub error_internal_protocol_crashed : ℤ
error_internal_protocol_crashed = negsuc 9

abbrev pub error_internal_start : ℤ
error_internal_start = negsuc 10

abbrev pub error_internal_restart : ℤ
error_internal_restart = negsuc 11

abbrev pub error_authentication_format : ℤ
error_authentication_format = negsuc 19

abbrev pub error_authentication_set : ℤ
error_authentication_set = negsuc 20

abbrev pub error_certificates_format : ℤ
error_certificates_format = negsuc 21

abbrev pub error_certificates_set : ℤ
error_certificates_set = negsuc 22

abbrev pub error_options_format : ℤ
error_options_format = negsuc 23

abbrev pub error_options_set : ℤ
error_options_set = negsuc 24

abbrev pub error_safe_protocols_set : ℤ
error_safe_protocols_set = negsuc 25

abbrev pub error_user_callback : ℤ
error_user_callback = negsuc 29

abbrev pub error_url_set : ℤ
error_url_set = negsuc 30

abbrev pub error_headers_set : ℤ
error_headers_set = negsuc 31

abbrev pub error_body_set : ℤ
error_body_set = negsuc 32

abbrev pub error_mime_set : ℤ
error_mime_set = negsuc 33

abbrev pub error_recipients_set : ℤ
error_recipients_set = negsuc 34
