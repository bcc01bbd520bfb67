-- ===== src/Protocol/Decoder/Limits.antt =====
-- Unmarshal and Marshal at their limits: what is refused, and what 32 bits do to a length.
use simple_message.Prelude.{
  ℕ, ◌+◌, ◌-◌, ◌≤◌, ◌<◌, ◌≡◌, ap, ◌∙◌, List, ◌∷◌, ◌++◌, length, take, drop, length-append,
  length-take, length-replicate, arith, ltb, if◌then◌else◌, append-nil, replicate, ◌%◌, drop_all,
  false, true,
}
use simple_message.Errors.{err, panic, data_length}
use simple_message.Protocol.Wire.{u32_mod, put_uint32, uint32, uint32-put_uint32}
use simple_message.Protocol.Stream.{Stream, short}
use simple_message.Protocol.Stream.View.{View, view}
use simple_message.Protocol.Decoder.{
  Message, Decoder, Writer, read_len, unmarshal, marshal, write, copy, frame_buffer,
}
use simple_message.Protocol.Decoder.Spec.{decode, decode_data, unmarshal-decode}
use simple_message.Protocol.Decoder.RoundTrip.{frame}

decode_oversize :
    (max id size : ℕ) (rest : List ℕ) (v : View)
    → size < u32_mod
    → max < size
    → v.bytes ≡ put_uint32 id ++ put_uint32 size ++ rest
    → decode max v ≡ (err (data_length max), record v { bytes = rest })
unfolding decode put_uint32
decode_oversize max id size rest v hs hm e = ground (arith, uint32-put_uint32 size rest)

-- A header that announces more than the limit is refused, with the data unread: the error names
-- the limit, and the bytes behind the header are left.
unmarshal_oversize :
    (d : Decoder) (id size : ℕ) (rest : List ℕ) (s : Stream)
    → size < u32_mod
    → d.max_data_len < size
    → (view s).bytes ≡ put_uint32 id ++ put_uint32 size ++ rest
    → ((unmarshal d s).0 ≡ err (data_length d.max_data_len))
      × (view (unmarshal d s).1 ≡ record (view s) { bytes = rest })
unmarshal_oversize d id size rest s hs hm e =
    let (r, v) = unmarshal-decode d s in
    let q = decode_oversize d.max_data_len id size rest (view s) hs hm e in
    (r ∙ ap (λ t. t.0) q, v ∙ ap (λ t. t.1) q)

decode_data-short :
    (id size : ℕ) (v : View)
    → length v.bytes < size
    → decode_data id size v ≡ (err (short v.bytes v.stop), view v.after)
unfolding decode_data
decode_data-short id size v h = ground arith

decode_cut :
    (max : ℕ) (m : Message) (got : List ℕ) (b : ℕ) (rest : List ℕ) (v : View)
    → length m.msg_data < u32_mod
    → length m.msg_data ≤ max
    → frame m ≡ got ++ b ∷ rest
    → v.bytes ≡ got
    → decode max v ≡ (
      err (short (if ltb (length got) read_len then got else drop read_len got) v.stop),
      view v.after,
    )
unfolding decode frame put_uint32
decode_cut max m (x1 ∷ x2 ∷ x3 ∷ x4 ∷ x5 ∷ x6 ∷ x7 ∷ x8 ∷ got) b rest v hl hm e q = ground (
  arith,
  uint32-put_uint32 (length m.msg_data) got,
  length-append {0} got (b ∷ rest),
  decode_data-short (uint32 v.bytes) (length m.msg_data) (record v { bytes = got }),
)
decode_cut max m _ b rest v hl hm e q = ground arith

-- A frame that is cut short, by a failure or the end of the stream, is never taken for a message:
-- what stopped the stream is reported, as io.ErrUnexpectedEOF if it is the end in the middle of the
-- header or of the data. Between the two it is plain io.EOF, as between frames.
unmarshal_cut :
    (d : Decoder) (m : Message) (got : List ℕ) (b : ℕ) (rest : List ℕ) (s : Stream)
    → length m.msg_data < u32_mod
    → length m.msg_data ≤ d.max_data_len
    → frame m ≡ got ++ b ∷ rest
    → (view s).bytes ≡ got
    → ((unmarshal d s).0
        ≡ err (short (if ltb (length got) read_len then got else drop read_len got) (view s).stop))
      × (view (unmarshal d s).1 ≡ view (view s).after)
unmarshal_cut d m got b rest s hl hm e q =
    let (r, v) = unmarshal-decode d s in
    let c = decode_cut d.max_data_len m got b rest (view s) hl hm e q in
    (r ∙ ap (λ t. t.0) c, v ∙ ap (λ t. t.1) c)

copy_prefix : (dst src : List ℕ) → length dst ≤ length src → copy dst src ≡ take (length dst) src
unfolding copy
copy_prefix dst src h = rw (drop_all (length src) dst h) (append-nil _)

length-take_le {ℓ} : {A : Type ℓ} (n : ℕ) (xs : List A) → n ≤ length xs → length (take n xs) ≡ n
length-take_le n xs h = omega (arith, length-take {ℓ} n xs)

frame_buffer-take :
    (id n : ℕ) (bs : List ℕ)
    → n ≤ length bs
    → frame_buffer (read_len + n) id n bs ≡ frame (record { msg_id = id; msg_data = take n bs })
unfolding frame_buffer frame
frame_buffer-take id n bs h =
    let size : length (replicate {A = ℕ} (read_len + n - read_len) 0) ≡ n =
      length-replicate _ 0 ∙ omega arith in
    let body : copy (replicate (read_len + n - read_len) 0) bs ≡ take n bs =
      copy_prefix _ bs (omega arith) ∙ ap (λ t. take t bs) size in
    rw (body, length-take_le n bs h)

-- Data of 2 ^ 32 bytes or more is not refused if the low 32 bits of its length are within the
-- limit: Marshal writes a good frame of only that many bytes of it and reports success.
pub marshal_truncates :
    (d : Decoder) (id : ℕ) (bs : List ℕ) (w : Writer)
    → u32_mod ≤ length bs
    → length bs % u32_mod ≤ d.max_data_len
    → read_len + length bs % u32_mod < u32_mod
    → marshal d id bs w
      ≡ write (frame (record { msg_id = id; msg_data = take (length bs % u32_mod) bs })) w
unfolding marshal
marshal_truncates d id bs w long within fits =
    let size : (read_len + length bs % u32_mod) % u32_mod ≡ read_len + length bs % u32_mod =
      omega arith in
    let guard : ltb d.max_data_len (length bs % u32_mod) ≡ false = ground arith in
    let room : ltb (read_len + length bs % u32_mod) read_len ≡ false = ground arith in
    rw (guard, size, room, frame_buffer-take id (length bs % u32_mod) bs (omega arith))

-- With a limit of 2 ^ 32 - 8 or more the length of the buffer wraps: Marshal panics on data of
-- 2 ^ 32 - 8 up to 2 ^ 32 - 1 bytes that the limit allows.
marshal_panics :
    (d : Decoder) (id : ℕ) (bs : List ℕ) (w : Writer)
    → u32_mod ≤ read_len + length bs
    → length bs < u32_mod
    → length bs ≤ d.max_data_len
    → marshal d id bs w ≡ (panic, w)
unfolding marshal
marshal_panics d id bs w wraps fits within =
    let n : length bs % u32_mod ≡ length bs = omega arith in
    let guard : ltb d.max_data_len (length bs) ≡ false = ground arith in
    let room : ltb ((read_len + length bs) % u32_mod) read_len ≡ true = ground arith in
    rw (n, guard, room)
