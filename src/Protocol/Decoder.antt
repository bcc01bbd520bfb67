-- ===== src/Protocol/Decoder.antt =====
-- protocol/decoder.go and protocol/message.go: frames of a message number, a length and the data.
pub mod Spec
pub mod RoundTrip
pub mod Limits
use simple_message.Prelude.{
  ℕ, ◌+◌, ◌-◌, ◌*◌, ◌%◌, List, [], ◌∷◌, ◌++◌, length, take, drop, replicate, ltb, ◌==◌,
  if◌then◌else◌, Option, none, some,
}
use simple_message.Errors.{Error, Result, ok, err, panic, data_length}
use simple_message.Protocol.Wire.{u32_mod, put_uint32, uint32}
use simple_message.Protocol.Stream.{Reads, ◌>>=◌, pure, throw, read_full}

abbrev pub header_data_len : ℕ
header_data_len = 4

abbrev pub data_size_len : ℕ
data_size_len = 4

abbrev pub read_len : ℕ
read_len = header_data_len + data_size_len

abbrev pub default_max_data_len : ℕ
default_max_data_len = 1024 * 1024 * 2

pub record Message : Type 0 where
  pub msg_id : ℕ
  pub msg_data : List ℕ

pub record Decoder : Type 0 where
  pub max_data_len : ℕ

unfoldable pub new_decoder : ℕ → Decoder
new_decoder n = record { max_data_len = if n == 0 then default_max_data_len else n }

-- The slice `bs[lo:hi]`
abbrev pub slice : ℕ → ℕ → List ℕ → List ℕ
slice lo hi bs = take (hi - lo) (drop lo bs)

-- The second half of Unmarshal: the data, once its length is known.
unfoldable pub unmarshal_data : ℕ → ℕ → Reads Message
unmarshal_data id size = do buf ← read_full size; pure (record { msg_id = id; msg_data = buf })

unfoldable pub unmarshal : Decoder → Reads Message
unfolding unmarshal_data
unmarshal d = do
  buf ← read_full read_len
  let id = uint32 (slice 0 header_data_len buf)
  let size = uint32 (slice header_data_len read_len buf)
  if ltb d.max_data_len size then throw (data_length d.max_data_len) else unmarshal_data id size

-- io.Writer: each Write takes one piece. A fault `(k, e)` takes the first `k` bytes and returns `e`;
-- `none`, and the end of the list, is a Write that succeeds.
pub record Writer : Type 0 where
  pub sent : List (List ℕ)
  pub faults : List (Option (ℕ × Error))

unfoldable pub write_with :
    List ℕ → List (List ℕ) → List (Option (ℕ × Error)) → Result (Unit {0}) × Writer
write_with b sent [] = (ok tt, record { sent = sent ++ b ∷ []; faults = [] })
write_with b sent (none ∷ fs) = (ok tt, record { sent = sent ++ b ∷ []; faults = fs })
write_with b sent (some (k, e) ∷ fs) = (err e, record { sent = sent ++ take k b ∷ []; faults = fs })

unfoldable pub write : List ℕ → Writer → Result (Unit {0}) × Writer
unfolding write_with
write b w = write_with b w.sent w.faults

-- `copy(dst, src)`: as many bytes as both have
unfoldable pub copy : List ℕ → List ℕ → List ℕ
copy dst src = take (length dst) src ++ drop (length src) dst

-- The buffer of Marshal, of `size` bytes, once it has room for the header
unfoldable pub frame_buffer : ℕ → ℕ → ℕ → List ℕ → List ℕ
unfolding copy put_uint32
frame_buffer size id n bs = put_uint32 id ++ put_uint32 n ++ copy (replicate (size - read_len) 0) bs

-- `len(data)` is converted to uint32, and `ReadLen+n` wraps; a buffer with no room for the header
-- panics on its slices.
unfoldable pub marshal : Decoder → ℕ → List ℕ → Writer → Result (Unit {0}) × Writer
unfolding frame_buffer write
marshal d id bs w =
    let n = length bs % u32_mod in
    let size = (read_len + n) % u32_mod in
    if ltb d.max_data_len n
    then (err (data_length d.max_data_len), w)
    else if ltb size read_len
    then (panic, w)
    else write (frame_buffer size id n bs) w
