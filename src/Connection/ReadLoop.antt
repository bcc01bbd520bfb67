-- ===== src/Connection/ReadLoop.antt =====
-- HandlerManager.read of connection/handler.go: messages are read and handled until one fails.
pub mod Pieces
use simple_message.Prelude.{
  ℕ, zero, suc, ◌≤◌, ◌<◌, ◌≡◌, refl, sym, ap, ◌∙◌, List, [], ◌∷◌, ◌++◌, length, drop, length-drop,
  arith, append_assoc, Option, none, some, subst, inl, inr, ◌≢◌,
}
use simple_message.Errors.{Error, Result-cases, ok, err, panic}
use simple_message.Protocol.Wire.{u32_mod, AreBytes, All, uint32}
use simple_message.Protocol.Stream.{Stream, short}
use simple_message.Protocol.Stream.View.{View, view}
use simple_message.Protocol.Decoder.{Message, Decoder, unmarshal, read_len, header_data_len}
use simple_message.Protocol.Decoder.Spec.{decode, decode_data, unmarshal-decode}
use simple_message.Protocol.Decoder.RoundTrip.{frame, unmarshal-frame, decode-frame, AreBytes-split}

-- `handle` is handleMsg over the state `W` of the handlers. The result is the error that ends the
-- loop, the state and what is left to read; `none` is fuel that has run out.
unfoldable pub read :
    {W : Type 0} → ℕ → Decoder → (Message → W → W) → W → Stream → Option (Error × W × Stream)
read zero d handle w s = none
read (suc fuel) d handle w s =
    let (r, t) = unmarshal d s in
    elim r [ ok m ↦ read fuel d handle (handle m w) t | err e ↦ some (e, w, t) | panic ↦ none ]

abbrev pub handle_all : {W : Type 0} → (Message → W → W) → List Message → W → W
handle_all handle [] w = w
handle_all handle (m ∷ ms) w = handle_all handle ms (handle m w)

abbrev pub frames : List Message → List ℕ
frames [] = []
frames (m ∷ ms) = frame m ++ frames ms

decode_shorter :
    (max : ℕ) (v : View) (m : Message)
    → (decode max v).0 ≡ ok m
    → length (decode max v).1.bytes < length v.bytes
unfolding decode decode_data
decode_shorter max v m h = ground (
  arith,
  length-drop {0} read_len v.bytes,
  length-drop {0} (uint32 (drop header_data_len v.bytes)) (drop read_len v.bytes),
)

decode-ne-panic : (max : ℕ) (v : View) → (decode max v).0 ≢ panic
unfolding decode decode_data
decode-ne-panic max v = ground arith

-- One round of the loop, by the outcome of Unmarshal
module _ {W : Type 0} (d : Decoder) (handle : Message → W → W) where
  read_ok :
      (fuel : ℕ) (w : W) (s : Stream) (m : Message)
      → (unmarshal d s).0 ≡ ok m
      → read (suc fuel) d handle w s ≡ read fuel d handle (handle m w) (unmarshal d s).1
  unfolding read
  read_ok fuel w s m e = rw (e, read)

  read_err :
      (fuel : ℕ) (w : W) (s : Stream) (e : Error)
      → (unmarshal d s).0 ≡ err e
      → read (suc fuel) d handle w s ≡ some (e, w, (unmarshal d s).1)
  unfolding read
  read_err fuel w s e q = rw (q, read)

  unmarshal_shorter :
      (s : Stream) (m : Message)
      → (unmarshal d s).0 ≡ ok m
      → length (view (unmarshal d s).1).bytes < length (view s).bytes
  unmarshal_shorter s m e =
      let (r, v) = unmarshal-decode d s in
      omega
        (arith, ap (λ t. length t.bytes) v, decode_shorter d.max_data_len (view s) m (sym r ∙ e))

  -- The loop ends with an error, with fuel for one message more than there are bytes; it has then
  -- handled messages in the order of their frames: the bytes before the failure are those frames
  -- and then what was left for the Unmarshal that failed, and no message's data is above the limit.
  pub read_total :
      (fuel : ℕ) (w : W) (s : Stream)
      → length (view s).bytes < fuel
      → AreBytes (view s).bytes
      → (ms : List Message) × (e : Error) × (last : Stream) × (read fuel d handle w s
          ≡ some (e, handle_all handle ms w, (unmarshal d last).1))
        × ((unmarshal d last).0 ≡ err e)
        × ((view s).bytes ≡ frames ms ++ (view last).bytes)
        × All (λ m. length m.msg_data ≤ d.max_data_len) ms
  read_total zero w s h hb = absurd (omega arith)
  read_total (suc fuel) w s h hb = elim (Result-cases (unmarshal d s).0) [
    | inl (m, q) ↦
        let (split, small, id) = unmarshal-frame d s m hb q in
        let (ms, e, last, r, f, b, a) =
          read_total fuel (handle m w) (unmarshal d s).1 (omega (arith, unmarshal_shorter s m q))
            (AreBytes-split (frame m) (view (unmarshal d s).1).bytes (subst AreBytes split hb)).1 in
        (
          m ∷ ms,
          e,
          last,
          read_ok fuel w s m q ∙ r,
          f,
          split
              ∙ ap (◌++◌ (frame m)) b
              ∙ sym (append_assoc (frame m) (frames ms) (view last).bytes),
          (small, a),
        )
    | inr (inl (e, q)) ↦ ([], e, s, read_err fuel w s e q, q, refl, tt)
    | inr (inr q) ↦
        absurd (decode-ne-panic d.max_data_len (view s) (sym (unmarshal-decode d s).0 ∙ q))
  ]

  -- A message that its frame can carry and the reader's limit allows
  abbrev pub IsSendable : Message → Type 0
  IsSendable m =
      (m.msg_id < u32_mod) × (length m.msg_data < u32_mod) × (length m.msg_data ≤ d.max_data_len)

  decode_nothing : (v : View) → v.bytes ≡ [] → (decode d.max_data_len v).0 ≡ err v.stop
  unfolding decode short
  decode_nothing v e = ground arith

  -- Frames one after the other are handled as their messages, each once and in order, in whatever
  -- pieces they come, and then the loop ends with what stopped the stream.
  pub read-frames :
      (ms : List Message) (fuel : ℕ) (w : W) (s : Stream)
      → length ms < fuel
      → All IsSendable ms
      → (view s).bytes ≡ frames ms
      → (t : Stream) × (read fuel d handle w s ≡ some ((view s).stop, handle_all handle ms w, t))
  read-frames ms zero w s h hm e = absurd (omega arith)
  read-frames [] (suc fuel) w s h hm e = (
    (unmarshal d s).1,
    read_err fuel w s (view s).stop ((unmarshal-decode d s).0 ∙ decode_nothing (view s) e),
  )
  read-frames (m ∷ ms) (suc fuel) w s h hm e =
      let (r, v) = unmarshal-decode d s in
      let q = decode-frame d.max_data_len m (frames ms) (view s) hm.0.0 hm.0.1 hm.0.2 e in
      let left : view (unmarshal d s).1 ≡ record (view s) { bytes = frames ms } =
        v ∙ ap (λ t. t.1) q in
      let (t, ih) =
        read-frames ms fuel (handle m w) (unmarshal d s).1 (omega arith) hm.1
          (ap (λ x. x.bytes) left) in
      (
        t,
        read_ok fuel w s m (r ∙ ap (λ t. t.0) q)
            ∙ ih
            ∙ ap (λ x. some (x, handle_all handle ms (handle m w), t)) (ap (λ x. x.stop) left),
      )
