-- ===== src/Tests/Protocol.antt =====
-- Runs of protocol/decoder.go.
use simple_message.Prelude.{
  ℕ, ◌≡◌, ◌%◌, refl, List, [], ◌∷◌, length, take, replicate, length-replicate, arith,
}
use mathlib.Core.List.{flatten}
use simple_message.Errors.{ok, err, eof, unexpected_eof}
use simple_message.Protocol.Wire.{uint32, u32_mod}
use simple_message.Protocol.Stream.{Stream, chunk, fill, read_full, short}
use simple_message.Protocol.Stream.View.{view}
use simple_message.Protocol.Decoder.{
  Message, Decoder, new_decoder, unmarshal, marshal, write, default_max_data_len,
}
use simple_message.Protocol.Decoder.Spec.{decode, unmarshal-decode}
use simple_message.Protocol.Decoder.RoundTrip.{frame, nothing_sent, unmarshal-marshal}
use simple_message.Protocol.Decoder.Limits.{marshal_truncates}

abbrev small : Decoder
small = record { max_data_len = 16 }

abbrev hello : Message
hello = record { msg_id = 258; msg_data = 104 ∷ 105 ∷ [] }

abbrev hello_bytes : List ℕ
hello_bytes = 0 ∷ 0 ∷ 1 ∷ 2 ∷ 0 ∷ 0 ∷ 0 ∷ 2 ∷ 104 ∷ 105 ∷ []

-- A frame in three pieces, with a byte of the next
abbrev in_pieces : Stream
in_pieces =
    chunk (0 ∷ 0 ∷ 1 ∷ [])
    ∷ chunk []
    ∷ chunk (2 ∷ 0 ∷ 0 ∷ 0 ∷ 2 ∷ 104 ∷ [])
    ∷ chunk (105 ∷ 7 ∷ [])
    ∷ []

new_decoder_default : (new_decoder 0).max_data_len ≡ default_max_data_len
unfolding new_decoder
new_decoder_default = refl

marshal_hello : (marshal small 258 (104 ∷ 105 ∷ []) nothing_sent).1.sent ≡ hello_bytes ∷ []
unfolding marshal write
marshal_hello = refl

unmarshal_pieces : unmarshal small in_pieces ≡ (ok hello, chunk (7 ∷ []) ∷ [])
unfolding unmarshal read_full fill uint32
unmarshal_pieces = refl

unmarshal_header_cut : (unmarshal small (chunk (0 ∷ 0 ∷ []) ∷ [])).0 ≡ err unexpected_eof
unfolding unmarshal read_full fill short uint32
unmarshal_header_cut = refl

-- The end of the stream between the header and the data
unmarshal_data_missing : (unmarshal small (chunk (take 8 hello_bytes) ∷ [])).0 ≡ err eof
unfolding unmarshal read_full fill short uint32
unmarshal_data_missing = refl

unmarshal-decode_example :
    ((unmarshal small in_pieces).0 ≡ (decode 16 (view in_pieces)).0)
    × (view (unmarshal small in_pieces).1 ≡ (decode 16 (view in_pieces)).1)
unmarshal-decode_example = unmarshal-decode small in_pieces

unmarshal-marshal_example :
    ((marshal small 258 (104 ∷ 105 ∷ []) nothing_sent).0 ≡ ok tt)
    × ((unmarshal (new_decoder 0) in_pieces).0 ≡ ok hello)
    × (view (unmarshal (new_decoder 0) in_pieces).1 ≡ record (view in_pieces) { bytes = 7 ∷ [] })
unfolding new_decoder marshal write view flatten
unmarshal-marshal_example =
    unmarshal-marshal small (new_decoder 0) hello (7 ∷ []) in_pieces (omega arith) (omega arith)
      (omega arith) (omega arith) refl

-- The data of the frame ends after one byte.

-- Data too long to be written out
zeros : ℕ → List ℕ
zeros n = replicate n 0

length-zeros : (n : ℕ) → length (zeros n) ≡ n
unfolding zeros
length-zeros n = length-replicate n 0

marshal_truncates_example :
    marshal small 5 (zeros 4294967299) nothing_sent
    ≡ write
        (frame (record {
          msg_id = 5;
          msg_data = take (length (zeros 4294967299) % u32_mod) (zeros 4294967299);
        }))
        nothing_sent
marshal_truncates_example =
    marshal_truncates small 5 (zeros 4294967299) nothing_sent
      (omega (arith, length-zeros 4294967299)) (omega (arith, length-zeros 4294967299))
      (omega (arith, length-zeros 4294967299))
