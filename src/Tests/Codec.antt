-- ===== src/Tests/Codec.antt =====
-- Envelopes, USB/IP headers and HID frames.
use zerowire.Prelude.{
  ℕ, zero, suc, take, replicate, ◌<◌, ◌==◌, if◌then◌else◌, false, ne→==_false, ◌^◌, ◌≤◌, ◌≡◌, ◌↔◌,
  refl, arith, negsuc, none, some, [], ◌∷◌, ◌++◌, length, drop, ok, err, IsOk,
}
use zerowire.Bytes.{Bytes, u32_to_be, u32_from_be, u16_to_be, u16_from_be}
use zerowire.Json.{Json}
use zerowire.Envelope
use zerowire.Envelope.{Envelope, control, hid, header, header_len, max_payload, bad_version}
use zerowire.Envelope.RoundTrip.{frame, parse-frame, parse-eq-frame}
use zerowire.Envelope.Incremental.{parse-append, parse_truncated}
use zerowire.Usbip.{cmd_submit, cmd_unlink, ret_submit, ret_unlink, peek_urb_op}
use zerowire.Usbip.Frame
use zerowire.Usbip.Frame.{UsbipFrame}
use zerowire.Usbip.CmdSubmit
use zerowire.Usbip.CmdSubmit.{CmdSubmit}
use zerowire.Usbip.RetSubmit
use zerowire.Usbip.RetSubmit.{RetSubmit}
use zerowire.Usbip.CmdUnlink
use zerowire.Usbip.CmdUnlink.{CmdUnlink}
use zerowire.Usbip.RetUnlink
use zerowire.Usbip.RetUnlink.{RetUnlink}
use zerowire.Usbip.Dispatch.{peek_selects_parser}
use zerowire.Hid
use zerowire.Hid.{
  HidFrame, BindAckMeta, bad_meta, mouse, report_in, encode_bind_ack_body, parse_bind_ack_body,
}
use zerowire.Hid.Frame as HidCodec
use zerowire.Pinned.{PinnedPeerVerifier, verify_server_cert, verify_client_cert, verify_cert_pins}
use zerowire.Hid.BindAck.{parse_bind_ack_body-encode, parse_bind_ack_body_too_long}

abbrev hello : Envelope
hello = record { channel = control; payload = 0x7b ∷ 0x7d ∷ [] }

abbrev hello_bytes : Bytes
hello_bytes = 0x5a ∷ 0x57 ∷ 1 ∷ 1 ∷ 0 ∷ 0 ∷ 0 ∷ 2 ∷ 0x7b ∷ 0x7d ∷ []

hello_encodes : Envelope.encode hello ≡ ok hello_bytes
unfolding Envelope.encode u32_to_be Envelope.to_u8
hello_encodes = refl

hello_parses : Envelope.parse (hello_bytes ++ 9 ∷ []) ≡ ok (some (hello, 10))
unfolding Envelope.parse u32_from_be Envelope.from_u8
hello_parses = refl

version_2 : Envelope.parse (0x5a ∷ 0x57 ∷ 2 ∷ 1 ∷ 0 ∷ 0 ∷ 0 ∷ 0 ∷ []) ≡ err (bad_version 2)
unfolding Envelope.parse
version_2 = refl

parse-frame_example :
    Envelope.parse (frame hello ++ (9 ∷ [])) ≡ ok (some (hello, length (frame hello)))
parse-frame_example = parse-frame hello (9 ∷ []) (omega arith)

parse-eq-frame_example :
    (hello_bytes ++ (9 ∷ []) ≡ frame hello ++ drop 10 (hello_bytes ++ (9 ∷ [])))
    × (10 ≡ length (frame hello))
    × (length hello.payload ≤ max_payload)
parse-eq-frame_example =
    parse-eq-frame (hello_bytes ++ (9 ∷ [])) hello 10 (omega arith) hello_parses

parse-append_example :
    Envelope.parse ((0x5a ∷ 0x57 ∷ 2 ∷ 1 ∷ 0 ∷ 0 ∷ 0 ∷ 0 ∷ []) ++ (7 ∷ []))
    ≡ Envelope.parse (0x5a ∷ 0x57 ∷ 2 ∷ 1 ∷ 0 ∷ 0 ∷ 0 ∷ 0 ∷ [])
parse-append_example =
    parse-append (0x5a ∷ 0x57 ∷ 2 ∷ 1 ∷ 0 ∷ 0 ∷ 0 ∷ 0 ∷ []) (7 ∷ []) (λ e. cc version_2)

parse_truncated_example : Envelope.parse (0x5a ∷ 0x57 ∷ 1 ∷ 1 ∷ 0 ∷ 0 ∷ 0 ∷ 2 ∷ 0x7b ∷ []) ≡ ok none
unfolding frame header u32_to_be Envelope.to_u8
parse_truncated_example =
    parse_truncated hello (0x5a ∷ 0x57 ∷ 1 ∷ 1 ∷ 0 ∷ 0 ∷ 0 ∷ 2 ∷ 0x7b ∷ []) [] 0x7d (omega arith)
      refl

abbrev get_device : CmdSubmit
get_device = record {
  seqnum = 1;
  devid = 0x10002;
  direction = 1;
  ep = 0;
  transfer_flags = 0;
  transfer_buffer_length = 18;
  start_frame = 0;
  number_of_packets = 0;
  interval = 0;
  setup = 0x80 ∷ 0x06 ∷ 0x00 ∷ 0x01 ∷ 0x00 ∷ 0x00 ∷ 18 ∷ 0x00 ∷ [];
}

cmd_submit_example : CmdSubmit.parse (CmdSubmit.encode get_device) ≡ ok get_device
cmd_submit_example = CmdSubmit.parse-encode_cmd_submit get_device (omega arith)

abbrev timed_out : RetSubmit
timed_out = record {
  seqnum = 1;
  devid = 0;
  direction = 1;
  ep = 1;
  status = negsuc 109;
  actual_length = 0;
  start_frame = 0;
  number_of_packets = 0;
  error_count = 0;
}

ret_submit_example : RetSubmit.parse (RetSubmit.encode timed_out) ≡ ok timed_out
ret_submit_example = RetSubmit.parse-encode_ret_submit timed_out (omega arith)

abbrev cancel : CmdUnlink
cancel = record { seqnum = 22; devid = 0; direction = 0; ep = 0; unlink_seqnum = 7 }

abbrev reset : RetUnlink
reset = record { seqnum = 22; devid = 0; direction = 0; ep = 0; status = negsuc 103 }

ret_unlink_example : RetUnlink.parse (RetUnlink.encode reset) ≡ ok reset
ret_unlink_example = RetUnlink.parse-encode_ret_unlink reset (omega arith)

abbrev cancel_bytes : Bytes
cancel_bytes = CmdUnlink.encode cancel

peek_selects_parser_example :
    ((peek_urb_op cancel_bytes ≡ some cmd_submit) ↔ IsOk (CmdSubmit.parse cancel_bytes))
    × ((peek_urb_op cancel_bytes ≡ some cmd_unlink) ↔ IsOk (CmdUnlink.parse cancel_bytes))
    × ((peek_urb_op cancel_bytes ≡ some ret_submit) ↔ IsOk (RetSubmit.parse cancel_bytes))
    × ((peek_urb_op cancel_bytes ≡ some ret_unlink) ↔ IsOk (RetUnlink.parse cancel_bytes))
peek_selects_parser_example =
    peek_selects_parser cancel_bytes (omega (arith, CmdUnlink.length-encode cancel))

abbrev packet : UsbipFrame
packet = record { import_id = 0x12345678; raw = 0xaa ∷ 0xbb ∷ [] }

packet_example : Frame.parse (Frame.encode packet) ≡ ok packet
packet_example = Frame.parse-encode_usbip_frame packet (omega arith)

abbrev report : HidFrame
report = record { op = report_in; bind_id = 7; seq = 12345; body = 1 ∷ 5 ∷ 0xfb ∷ 0 ∷ [] }

report_example : Hid.parse (Hid.encode report) ≡ ok report
report_example = HidCodec.parse-encode_hid report (omega arith)

report_bytes_parse :
    Hid.parse (0x10 ∷ 7 ∷ 0x30 ∷ 0x39 ∷ 1 ∷ [])
    ≡ ok (record { op = report_in; bind_id = 7; seq = 12345; body = 1 ∷ [] })
unfolding Hid.parse Hid.op_from_u8 u16_from_be
report_bytes_parse = refl

report_bytes_example :
    Hid.encode (record { op = report_in; bind_id = 7; seq = 12345; body = 1 ∷ [] })
    ≡ 0x10 ∷ 7 ∷ 0x30 ∷ 0x39 ∷ 1 ∷ []
report_bytes_example =
    HidCodec.encode-parse_hid (0x10 ∷ 7 ∷ 0x30 ∷ 0x39 ∷ 1 ∷ []) _ (omega arith) report_bytes_parse

abbrev logitech : BindAckMeta
logitech = record {
  busid = "1-2";
  kind = mouse;
  vendor_id = 0x046d;
  product_id = 0xc52b;
  name = "mouse";
}

-- serde's output for `logitech`, shortened
abbrev logitech_json : Json BindAckMeta
logitech_json = record { to_vec = λ m. 0x7b ∷ 0x7d ∷ []; from_slice = λ b. some logitech }

abbrev pointer_rd : Bytes
pointer_rd = 5 ∷ 1 ∷ []

parse_bind_ack_body-encode_example :
    parse_bind_ack_body logitech_json (encode_bind_ack_body logitech_json logitech pointer_rd)
    ≡ ok (logitech, pointer_rd)
parse_bind_ack_body-encode_example =
    parse_bind_ack_body-encode logitech_json logitech pointer_rd refl (omega arith)

logitech_reads_back :
    parse_bind_ack_body logitech_json (encode_bind_ack_body logitech_json logitech pointer_rd)
    ≡ ok (logitech, pointer_rd)
unfolding parse_bind_ack_body encode_bind_ack_body u16_to_be u16_from_be
logitech_reads_back = refl

-- A stand-in for serde whose JSON has `k` bytes, and that accepts no other length.
abbrev long_json : ℕ → Json BindAckMeta
long_json k = record {
  to_vec = λ m. replicate k 0x20;
  from_slice = λ b. if length b == k then some logitech else none;
}

length-replicate : (k a : ℕ) → length (replicate k a) ≡ k
length-replicate zero a = refl
length-replicate (suc k) a = omega (arith, length-replicate k a)

length-take-replicate : (n k a : ℕ) → n < k → length (take n (replicate k a)) ≡ n
length-take-replicate zero k a h = refl
length-take-replicate (suc n) zero a h = absurd (omega arith)
length-take-replicate (suc n) (suc k) a h = omega (arith, length-take-replicate n k a (omega arith))

long_json_no_part :
    (k : ℕ) (meta : BindAckMeta) (n : ℕ)
    → n < length ((long_json k).to_vec meta)
    → (long_json k).from_slice (take n ((long_json k).to_vec meta)) ≡ none
long_json_no_part k meta n h =
    let less : n < k = omega (arith, length-replicate k 0x20) in
    let other : (n == k) ≡ false = ne→==_false n k (λ e. absurd (omega arith)) in
    rw (length-take-replicate n k 0x20 less, other) refl

long_json_long :
    (k : ℕ) (meta : BindAckMeta) → 2 ^ 16 ≤ k → 2 ^ 16 ≤ length ((long_json k).to_vec meta)
long_json_long k meta h = omega (arith, length-replicate k 0x20)

-- A JSON of 70,000 bytes.
parse_bind_ack_body_too_long_example :
    parse_bind_ack_body
      (long_json 70_000)
      (encode_bind_ack_body (long_json 70_000) logitech pointer_rd)
    ≡ err bad_meta
parse_bind_ack_body_too_long_example =
    parse_bind_ack_body_too_long (long_json 70_000) logitech pointer_rd
      (long_json_no_part 70_000 logitech) (long_json_long 70_000 logitech (omega arith))

packet_bytes_parse :
    Frame.parse (0 ∷ 0 ∷ 1 ∷ 2 ∷ 0xaa ∷ []) ≡ ok (record { import_id = 258; raw = 0xaa ∷ [] })
unfolding Frame.parse u32_from_be
packet_bytes_parse = refl

packet_bytes_example :
    Frame.encode (record { import_id = 258; raw = 0xaa ∷ [] }) ≡ 0 ∷ 0 ∷ 1 ∷ 2 ∷ 0xaa ∷ []
packet_bytes_example =
    Frame.encode-parse_usbip_frame (0 ∷ 0 ∷ 1 ∷ 2 ∷ 0xaa ∷ []) _ (omega arith) packet_bytes_parse

abbrev pinned : PinnedPeerVerifier
pinned = record { expected = 0x30 ∷ 0x82 ∷ 0x01 ∷ [] }

-- A certificate whose first byte differs.
verify_cert_pins_example :
    ((verify_server_cert pinned (0x31 ∷ 0x82 ∷ 0x01 ∷ []) ≡ ok tt)
      ↔ (0x31 ∷ 0x82 ∷ 0x01 ∷ [] ≡ pinned.expected))
    × ((verify_client_cert pinned (0x31 ∷ 0x82 ∷ 0x01 ∷ []) ≡ ok tt)
        ↔ (0x31 ∷ 0x82 ∷ 0x01 ∷ [] ≡ pinned.expected))
verify_cert_pins_example = verify_cert_pins pinned (0x31 ∷ 0x82 ∷ 0x01 ∷ [])
