-- ===== src/Protocol/Stream/View.antt =====
-- A stream as its reader can know it: the bytes up to the first failure, the failure, and what
-- follows it. How the bytes were cut into pieces is forgotten.
use simple_message.Prelude.{
  ℕ, zero, suc, ◌-◌, ◌≤◌, ◌<◌, ◌≡◌, refl, List, [], ◌∷◌, ◌++◌, length, take, drop, take_append_le,
  take_append_ge, length-append, arith, leb, if◌then◌else◌, append_assoc, append-nil,
}
use simple_message.Errors.{Error, Result, ok, err, eof}
use simple_message.Protocol.Stream.{chunk, fail, Stream, short, fill, read_full}

pub record View : Type 0 where
  pub bytes : List ℕ
  pub stop : Error
  pub after : Stream

unfoldable pub view : Stream → View
view [] = record { bytes = []; stop = eof; after = [] }
view (fail e ∷ s) = record { bytes = []; stop = e; after = s }
view (chunk bs ∷ s) = let v = view s in record v { bytes = bs ++ v.bytes }

-- What is asked for is there: exactly that is read, whatever the pieces.
fill-enough :
    (got : List ℕ) (need : ℕ) (s : Stream)
    → need ≤ length (view s).bytes
    → ((fill got need s).0 ≡ ok (got ++ take need (view s).bytes))
      × (view (fill got need s).1 ≡ record (view s) { bytes = drop need (view s).bytes })
unfolding fill view
fill-enough got zero s h = (rw append-nil, refl)
fill-enough got (suc k) [] h = absurd (omega arith)
fill-enough got (suc k) (fail e ∷ s) h = absurd (omega arith)
fill-enough got (suc k) (chunk bs ∷ s) h = ground (
  arith,
  length-append {0} bs (view s).bytes,
  take_append_ge {0} (suc k) bs (view s).bytes,
  take_append_le {0} (suc k) bs (view s).bytes,
  append_assoc {0} got bs (take (suc k - length bs) (view s).bytes),
  fill-enough (got ++ bs) (suc k - length bs) s,
)

-- It is not: the bytes that are there are lost, and the failure is reported.
fill-short :
    (got : List ℕ) (need : ℕ) (s : Stream)
    → length (view s).bytes < need
    → ((fill got need s).0 ≡ err (short (got ++ (view s).bytes) (view s).stop))
      × ((fill got need s).1 ≡ (view s).after)
unfolding fill view
fill-short got zero s h = absurd (omega arith)
fill-short got (suc k) [] h = (rw append-nil, refl)
fill-short got (suc k) (fail e ∷ s) h = (rw append-nil, refl)
fill-short got (suc k) (chunk bs ∷ s) h = ground (
  arith,
  length-append {0} bs (view s).bytes,
  append_assoc {0} got bs (view s).bytes,
  fill-short (got ++ bs) (suc k - length bs) s,
)

-- The view from the `n`-th byte on
abbrev pub skip : ℕ → View → View
skip n v = record v { bytes = drop n v.bytes }

-- `n` bytes of a view
unfoldable pub expect : ℕ → View → Result (List ℕ) × View
expect n v =
    if leb n (length v.bytes)
    then (ok (take n v.bytes), skip n v)
    else (err (short v.bytes v.stop), view v.after)

pub read_full-expect :
    (n : ℕ) (s : Stream)
    → ((read_full n s).0 ≡ (expect n (view s)).0) × (view (read_full n s).1 ≡ (expect n (view s)).1)
unfolding read_full expect
read_full-expect n s = ground (arith, fill-enough [] n s, fill-short [] n s)
