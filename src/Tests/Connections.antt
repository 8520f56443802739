-- ===== src/Tests/Connections.antt =====
-- A binary RPC frame, whole and off a connection.
use audio_studio.Prelude.{◌≡◌, refl, [], ◌∷◌, ◌++◌, arith}
use audio_studio.Rpc.Parsed.{parsed}
use audio_studio.Rpc.BinaryFrame.{
  RpcBinaryFrame, RpcBinaryFrameHeader, encode_binary_frame, decode_binary_frame, read_binary_frame,
}
use audio_studio.Rpc.BinaryFrame.RoundTrip.{
  IsWellSized, sealed, decode_binary_frame-encode_binary_frame,
  read_binary_frame-encode_binary_frame,
}
use audio_studio.Rpc.Json.Scan.{codes}
use audio_studio.Rpc.TextFrame.{
  read_content_length_frame_with_prefix, read_content_length_frame, encode_content_length_frame,
}
use audio_studio.Rpc.TextFrame.RoundTrip.{read_content_length_frame-encode}
use audio_studio.Rpc.Parsed.{thrown}

abbrev a_header : RpcBinaryFrameHeader
a_header = record {
  magic = 0;
  version = 1;
  header_size = 0;
  message_type = 4;
  service_id = 5;
  method_id = 1;
  payload_type = 2;
  request_id = 9;
  session_id = 3;
  stream_id = 2;
  flags = 0;
  payload_len = 0;
  payload_crc32 = 0;
  header_crc32 = 0;
}

abbrev frame : RpcBinaryFrame
frame = record { header = a_header; payload = 1 ∷ 2 ∷ 3 ∷ [] }

frame-IsWellSized : IsWellSized frame
frame-IsWellSized = record {
  version_fits = omega arith;
  message_type_fits = omega arith;
  service_fits = omega arith;
  method_fits = omega arith;
  payload_type_fits = omega arith;
  request_fits = omega arith;
  session_fits = omega arith;
  stream_fits = omega arith;
  flags_fit = omega arith;
  payload_fits = omega arith;
}

decode_binary_frame-encode_binary_frame_example :
    decode_binary_frame (encode_binary_frame frame) ≡ parsed (sealed frame)
decode_binary_frame-encode_binary_frame_example =
    decode_binary_frame-encode_binary_frame frame frame-IsWellSized

read_binary_frame-encode_binary_frame_example :
    read_binary_frame [] 1024 (encode_binary_frame frame ++ 7 ∷ []) ≡ parsed (sealed frame, 7 ∷ [])
read_binary_frame-encode_binary_frame_example =
    read_binary_frame-encode_binary_frame frame [] (encode_binary_frame frame ++ 7 ∷ []) (7 ∷ [])
      1024 frame-IsWellSized (omega arith) (omega arith) refl

encode-null : encode_content_length_frame (codes "null") ≡ codes "Content-Length: 4\r\n\r\nnull"
unfolding encode_content_length_frame
encode-null = refl

-- A header may be in another form; one without a length is refused.
read-null :
    (read_content_length_frame 16 (codes "A: b\r\nContent-Length:04\r\n\r\nnull!")
      ≡ parsed (codes "null", codes "!"))
    × (read_content_length_frame 16 (codes "A: b\r\n\r\nnull")
        ≡ thrown "missing Content-Length header")
    × (read_content_length_frame 3 (encode_content_length_frame (codes "null"))
        ≡ thrown "RPC frame payload is too large")
unfolding read_content_length_frame encode_content_length_frame
read-null = (refl, refl, refl)

read_content_length_frame-encode_example :
    read_content_length_frame_with_prefix (codes "Cont") 16 (codes "ent-Length: 4\r\n\r\nnull!")
    ≡ parsed (codes "null", codes "!")
unfolding encode_content_length_frame
read_content_length_frame-encode_example =
    read_content_length_frame-encode (codes "null") (codes "Cont")
      (codes "ent-Length: 4\r\n\r\nnull!") (codes "!") 16 (omega arith) (omega arith) (omega arith)
      refl
