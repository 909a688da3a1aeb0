-- ===== src/Coordinator/Tests.antt =====
-- Global ids on concrete inputs.
use little_big_files.Common.{◌≡◌, arith}
use little_big_files.Coordinator.GlobalId.{encode, decode, decode-encode, encode-decode}

decode-encode_example : decode (encode 513 77) ≡ (513, 77)
decode-encode_example = decode-encode 513 77 (omega arith) (omega arith)

encode-decode_example :
    encode (decode 562949953421389).0 (decode 562949953421389).1 ≡ 562949953421389
encode-decode_example = encode-decode 562949953421389 (omega arith)
