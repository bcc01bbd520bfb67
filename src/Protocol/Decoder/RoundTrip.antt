-- ===== src/Protocol/Decoder/RoundTrip.antt =====
-- What Marshal writes, and Unmarshal as its inverse in both directions.
use mathlib.Core.List.{flatten}
use simple_message.Prelude.{
  ℕ, ◌+◌, ◌-◌, ◌≤◌, ◌<◌, ◌≡◌, refl, sym, ap, ◌∙◌, List, [], ◌∷◌, ◌++◌, length, take, length-append,
  length-take, length-replicate, arith, ltb, if◌then◌else◌, append-nil, Bool-cases, inl, inr,
  Option, none, some, take-append-drop, ◌%◌, false, take-length, drop-length, take_all, drop_all,
}
use simple_message.Errors.{Error, ok, err, data_length}
use simple_message.Protocol.Wire.{
  u32_mod, put_uint32, uint32, AreBytes, uint32-put_uint32, put_uint32-uint32, uint32-lt,
}
use simple_message.Protocol.Stream.{Stream}
use simple_message.Protocol.Stream.View.{View, view}
use simple_message.Protocol.Decoder.{
  Message, Decoder, Writer, read_len, unmarshal, marshal, write, write_with, copy, frame_buffer,
}
use simple_message.Protocol.Decoder.Spec.{decode, decode_data, unmarshal-decode}

-- The frame of a message, as the protocol has it
unfoldable pub frame : Message → List ℕ
frame m = put_uint32 m.msg_id ++ put_uint32 (length m.msg_data) ++ m.msg_data

copy_full : (dst src : List ℕ) → length dst ≡ length src → copy dst src ≡ src
unfolding copy
copy_full dst src e = rw (e, take_all src, drop_all (length src) dst (omega arith)) (append-nil src)

-- The buffer of Marshal is the frame where nothing wraps.
frame_buffer-frame :
    (m : Message)
    → frame_buffer (read_len + length m.msg_data) m.msg_id (length m.msg_data) m.msg_data ≡ frame m
unfolding frame_buffer frame
frame_buffer-frame m =
    ap (λ t. put_uint32 m.msg_id ++ put_uint32 (length m.msg_data) ++ t)
      (copy_full _ m.msg_data
        (length-replicate (read_len + length m.msg_data - read_len) 0 ∙ omega arith))

-- For data whose frame fits a uint32, Marshal makes one Write of the frame, or reports a length
-- above the limit and writes nothing.
marshal-frame :
    (d : Decoder) (m : Message) (w : Writer)
    → read_len + length m.msg_data < u32_mod
    → marshal d m.msg_id m.msg_data w ≡ (
        if ltb d.max_data_len (length m.msg_data)
        then (err (data_length d.max_data_len), w)
        else write (frame m) w)
unfolding marshal
marshal-frame d m w h =
    let n : length m.msg_data % u32_mod ≡ length m.msg_data = omega arith in
    let size : (read_len + length m.msg_data) % u32_mod ≡ read_len + length m.msg_data =
      omega arith in
    let room : ltb (read_len + length m.msg_data) read_len ≡ false = ground arith in
    rw (n, size, room, frame_buffer-frame m)

decode_data-take :
    (id : ℕ) (bs rest : List ℕ) (v : View)
    → v.bytes ≡ bs ++ rest
    → decode_data id (length bs) v
      ≡ (ok (record { msg_id = id; msg_data = bs }), record v { bytes = rest })
unfolding decode_data
decode_data-take id bs rest v e =
    ground (arith, length-append {0} bs rest, take-length {0} bs rest, drop-length {0} bs rest)

pub decode-frame :
    (max : ℕ) (m : Message) (rest : List ℕ) (v : View)
    → m.msg_id < u32_mod
    → length m.msg_data < u32_mod
    → length m.msg_data ≤ max
    → v.bytes ≡ frame m ++ rest
    → decode max v ≡ (ok m, record v { bytes = rest })
unfolding decode frame put_uint32
decode-frame max m rest v hid hlen hmax e = ground (
  arith,
  uint32-put_uint32 m.msg_id (put_uint32 (length m.msg_data) ++ m.msg_data ++ rest),
  uint32-put_uint32 (length m.msg_data) (m.msg_data ++ rest),
  decode_data-take m.msg_id m.msg_data rest (record v { bytes = m.msg_data ++ rest }),
)

pub AreBytes-split : (xs ys : List ℕ) → AreBytes (xs ++ ys) → AreBytes xs × AreBytes ys
AreBytes-split [] ys h = (tt, h)
AreBytes-split (x ∷ xs) ys h = let (hx, hy) = AreBytes-split xs ys h.1 in ((h.0, hx), hy)

abbrev pub nothing_sent : Writer
nothing_sent = record { sent = []; faults = [] }

-- Unmarshal gives back what Marshal wrote and leaves the bytes behind it, whatever the pieces in
-- which they arrive, where the number is a uint32 and the data is within both ends' limits and
-- short enough for its frame's length to fit a uint32.
pub unmarshal-marshal :
    (d e : Decoder) (m : Message) (rest : List ℕ) (s : Stream)
    → m.msg_id < u32_mod
    → read_len + length m.msg_data < u32_mod
    → length m.msg_data ≤ d.max_data_len
    → length m.msg_data ≤ e.max_data_len
    → (view s).bytes ≡ flatten (marshal d m.msg_id m.msg_data nothing_sent).1.sent ++ rest
    → ((marshal d m.msg_id m.msg_data nothing_sent).0 ≡ ok tt)
      × ((unmarshal e s).0 ≡ ok m)
      × (view (unmarshal e s).1 ≡ record (view s) { bytes = rest })
unfolding write flatten
unmarshal-marshal d e m rest s hid hlen hd he arrived =
    let within : ltb d.max_data_len (length m.msg_data) ≡ false = ground arith in
    let sends : marshal d m.msg_id m.msg_data nothing_sent ≡ write (frame m) nothing_sent =
      marshal-frame d m nothing_sent hlen ∙ rw within in
    let bytes : (view s).bytes ≡ frame m ++ rest =
      arrived
      ∙ ap (λ t. flatten t.1.sent ++ rest) sends
      ∙ ap (λ t. t ++ rest) (append-nil (frame m)) in
    let decoded : decode e.max_data_len (view s) ≡ (ok m, record (view s) { bytes = rest }) =
      decode-frame e.max_data_len m rest (view s) hid (omega arith) he bytes in
    let (r, v) = unmarshal-decode e s in
    (ap (λ t. t.0) sends, r ∙ ap (λ t. t.0) decoded, v ∙ ap (λ t. t.1) decoded)

pub decode_data_ok :
    (id size : ℕ) (v v' : View) (m : Message)
    → decode_data id size v ≡ (ok m, v')
    → (v.bytes ≡ m.msg_data ++ v'.bytes) × (length m.msg_data ≡ size) × (m.msg_id ≡ id)
unfolding decode_data
decode_data_ok id size v v' m h =
    ground (arith, take-append-drop {0} size v.bytes, length-take {0} size v.bytes)

decode_ok :
    (max : ℕ) (bs : List ℕ) (stop : Error) (after : Stream) (m : Message) (v' : View)
    → AreBytes bs
    → decode max (record { bytes = bs; stop = stop; after = after }) ≡ (ok m, v')
    → (bs ≡ frame m ++ v'.bytes) × (length m.msg_data ≤ max) × (m.msg_id < u32_mod)
unfolding decode frame
decode_ok max (a ∷ b ∷ c ∷ d ∷ e ∷ f ∷ g ∷ h ∷ bs) stop after m v' hb q = ground (
  arith,
  decode_data_ok (uint32 (a ∷ b ∷ c ∷ d ∷ e ∷ f ∷ g ∷ h ∷ bs)) (uint32 (e ∷ f ∷ g ∷ h ∷ bs))
      (record { bytes = bs; stop = stop; after = after }) v' m,
  put_uint32-uint32 a b c d (e ∷ f ∷ g ∷ h ∷ bs) (omega arith),
  put_uint32-uint32 e f g h bs (omega arith),
  uint32-lt (a ∷ b ∷ c ∷ d ∷ e ∷ f ∷ g ∷ h ∷ bs) hb,
)
decode_ok max _ stop after m v' hb q = ground arith

-- A message that Unmarshal returns is what the bytes spell: they begin with its frame and go on
-- with what Unmarshal leaves, its data is within the limit and its number a uint32.
pub unmarshal-frame :
    (d : Decoder) (s : Stream) (m : Message)
    → AreBytes (view s).bytes
    → (unmarshal d s).0 ≡ ok m
    → ((view s).bytes ≡ frame m ++ (view (unmarshal d s).1).bytes)
      × (length m.msg_data ≤ d.max_data_len)
      × (m.msg_id < u32_mod)
unfolding frame
unmarshal-frame d s m hb h =
    let (r, v) = unmarshal-decode d s in
    decode_ok d.max_data_len (view s).bytes (view s).stop (view s).after m (view (unmarshal d s).1)
      hb (λ i. ((sym r ∙ h) i, sym v i))

-- The buffer that Marshal hands to Write
unfoldable pub buffer_of : Message → List ℕ
buffer_of m =
    let n = length m.msg_data % u32_mod in
    frame_buffer ((read_len + n) % u32_mod) m.msg_id n m.msg_data

pub buffer_of-frame : (m : Message) → read_len + length m.msg_data < u32_mod → buffer_of m ≡ frame m
unfolding buffer_of
buffer_of-frame m h =
    let n : length m.msg_data % u32_mod ≡ length m.msg_data = omega arith in
    let size : (read_len + length m.msg_data) % u32_mod ≡ read_len + length m.msg_data =
      omega arith in
    rw (n, size, frame_buffer-frame m)

write_ok :
    (b : List ℕ) (sent : List (List ℕ)) (fs : List (Option (ℕ × Error)))
    → (write_with b sent fs).0 ≡ ok tt
    → (write_with b sent fs).1.sent ≡ sent ++ b ∷ []
unfolding write_with
write_ok b sent [] h = refl
write_ok b sent (none ∷ fs) h = refl
write_ok b sent (some (k, e) ∷ fs) h = cc

-- A Marshal that succeeds adds its buffer to what was sent.
pub marshal_sent :
    (d : Decoder) (m : Message) (w : Writer)
    → (marshal d m.msg_id m.msg_data w).0 ≡ ok tt
    → (marshal d m.msg_id m.msg_data w).1.sent ≡ w.sent ++ buffer_of m ∷ []
unfolding marshal buffer_of write
marshal_sent d m w h = ground (arith, write_ok (buffer_of m) w.sent w.faults)

write_torn :
    (b : List ℕ) (sent : List (List ℕ)) (fs : List (Option (ℕ × Error)))
    → (t : List (List ℕ)) × ((write_with b sent fs).1.sent ≡ sent ++ t)
unfolding write_with
write_torn b sent [] = (b ∷ [], refl)
write_torn b sent (none ∷ fs) = (b ∷ [], refl)
write_torn b sent (some (k, e) ∷ fs) = (take k b ∷ [], refl)

-- A Marshal adds to what was sent, whatever its result.
pub marshal_torn :
    (d : Decoder) (m : Message) (w : Writer)
    → (t : List (List ℕ)) × ((marshal d m.msg_id m.msg_data w).1.sent ≡ w.sent ++ t)
unfolding marshal write buffer_of
marshal_torn d m w =
    let n : ℕ = length m.msg_data % u32_mod in
    elim (Bool-cases (ltb d.max_data_len n)) [
      | inl over ↦ ([], ground (arith, append-nil {0} w.sent))
      | inr within ↦ elim (Bool-cases (ltb ((read_len + n) % u32_mod) read_len)) [
        | inl tight ↦ ([], ground (arith, append-nil {0} w.sent))
        | inr room ↦ let (t, e) = write_torn (buffer_of m) w.sent w.faults in (t, ground (arith, e))
      ]
    ]
