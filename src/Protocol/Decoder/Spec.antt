-- ===== src/Protocol/Decoder/Spec.antt =====
-- Unmarshal against a description of frames that knows bytes and no pieces.
use simple_message.Prelude.{
  ℕ, ◌≤◌, ◌≡◌, refl, List, ◌∷◌, length, take, drop, arith, leb, ltb, if◌then◌else◌,
}
use simple_message.Errors.{Result, ok, err, data_length}
use simple_message.Protocol.Wire.{uint32}
use simple_message.Protocol.Stream.{Stream, read_full, short}
use simple_message.Protocol.Stream.View.{View, view, skip, expect, read_full-expect}
use simple_message.Protocol.Decoder.{
  Message, Decoder, read_len, slice, header_data_len, unmarshal, unmarshal_data,
}

-- The data of a frame whose header announced `size` bytes
unfoldable pub decode_data : ℕ → ℕ → View → Result Message × View
decode_data id size v =
    if leb size (length v.bytes)
    then (ok (record { msg_id = id; msg_data = take size v.bytes }), skip size v)
    else (err (short v.bytes v.stop), view v.after)

-- A frame: 4 bytes of number, 4 bytes of length, the data. A length above the limit stops the
-- reader behind the header.
unfoldable pub decode : ℕ → View → Result Message × View
unfolding decode_data
decode max v =
    if leb read_len (length v.bytes)
    then if ltb max (uint32 (drop header_data_len v.bytes))
      then (err (data_length max), skip read_len v)
      else decode_data (uint32 v.bytes) (uint32 (drop header_data_len v.bytes)) (skip read_len v)
    else (err (short v.bytes v.stop), view v.after)

header_fields :
    (bs : List ℕ)
    → read_len ≤ length bs
    → (uint32 (slice 0 header_data_len (take read_len bs)) ≡ uint32 bs)
      × (uint32 (slice header_data_len read_len (take read_len bs))
          ≡ uint32 (drop header_data_len bs))
unfolding uint32
header_fields (a ∷ b ∷ c ∷ d ∷ e ∷ f ∷ g ∷ h ∷ bs) le = (refl, refl)
header_fields _ le = absurd (omega arith)

unmarshal_data-decode_data :
    (id size : ℕ) (s : Stream)
    → ((unmarshal_data id size s).0 ≡ (decode_data id size (view s)).0)
      × (view (unmarshal_data id size s).1 ≡ (decode_data id size (view s)).1)
unfolding unmarshal_data decode_data expect
unmarshal_data-decode_data id size s = ground (arith, read_full-expect size s)

-- Unmarshal reads a frame as `decode` describes it, however the bytes come in pieces: the message
-- or error is that of `decode` on the bytes before the next failure, and so is what is left.
pub unmarshal-decode :
    (d : Decoder) (s : Stream)
    → ((unmarshal d s).0 ≡ (decode d.max_data_len (view s)).0)
      × (view (unmarshal d s).1 ≡ (decode d.max_data_len (view s)).1)
unfolding unmarshal decode expect
unmarshal-decode d s = ground (
  arith,
  read_full-expect read_len s,
  header_fields (view s).bytes,
  unmarshal_data-decode_data (uint32 (view s).bytes) (uint32 (drop header_data_len (view s).bytes))
      (read_full read_len s).1,
)
