-- ===== src/Connection/ReadLoop/Pieces.antt =====
-- HandlerManager.read of connection/handler.go, for the same bytes in other pieces.
use simple_message.Prelude.{ℕ, zero, suc, ◌≡◌, refl, sym, ap, ◌∙◌, Option, none, some, inl, inr}
use simple_message.Errors.{Error, Result-cases}
use simple_message.Protocol.Stream.{Stream}
use simple_message.Protocol.Stream.View.{View, view}
use simple_message.Protocol.Decoder.{Message, Decoder, unmarshal}
use simple_message.Protocol.Decoder.Spec.{decode, unmarshal-decode}
use simple_message.Connection.ReadLoop.{read, read_ok, read_err, decode-ne-panic}

-- The error that ends the loop, the handlers' state, and what is left, however it comes
abbrev pub outcome : {W : Type 0} → Option (Error × W × Stream) → Option (Error × W × View)
outcome none = none
outcome (some (e, w, t)) = some (e, w, view t)

module _ {W : Type 0} (d : Decoder) (handle : Message → W → W) where
  same_result : (s t : Stream) → view s ≡ view t → (unmarshal d s).0 ≡ (unmarshal d t).0
  same_result s t e =
      (unmarshal-decode d s).0
      ∙ ap (λ v. (decode d.max_data_len v).0) e
      ∙ sym (unmarshal-decode d t).0

  same_left : (s t : Stream) → view s ≡ view t → view (unmarshal d s).1 ≡ view (unmarshal d t).1
  same_left s t e =
      (unmarshal-decode d s).1
      ∙ ap (λ v. (decode d.max_data_len v).1) e
      ∙ sym (unmarshal-decode d t).1

  -- Of two streams that carry the same bytes up to the same failure, and the same behind it, cut into
  -- pieces in any two ways, the loop makes the same: it gives the same messages to handleMsg and ends
  -- with the same error, or still runs after as many rounds, with the same left to read.
  read-view :
      (fuel : ℕ) (w : W) (s t : Stream)
      → view s ≡ view t
      → outcome (read fuel d handle w s) ≡ outcome (read fuel d handle w t)
  unfolding read
  read-view zero w s t e = refl
  read-view (suc fuel) w s t e = elim (Result-cases (unmarshal d s).0) [
    | inl (m, q) ↦
        ap outcome (read_ok d handle fuel w s m q)
        ∙ read-view fuel (handle m w) (unmarshal d s).1 (unmarshal d t).1 (same_left s t e)
        ∙ sym (ap outcome (read_ok d handle fuel w t m (sym (same_result s t e) ∙ q)))
    | inr (inl (x, q)) ↦
        ap outcome (read_err d handle fuel w s x q)
        ∙ ap (λ v. some (x, w, v)) (same_left s t e)
        ∙ sym (ap outcome (read_err d handle fuel w t x (sym (same_result s t e) ∙ q)))
    | inr (inr q) ↦
        absurd (decode-ne-panic d.max_data_len (view s) (sym (unmarshal-decode d s).0 ∙ q))
  ]
