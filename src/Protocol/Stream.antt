-- ===== src/Protocol/Stream.antt =====
-- io.Reader and io.ReadFull: what a connection delivers, in pieces of any size.
pub mod View
use simple_message.Prelude.{
  ℕ, zero, suc, ◌+◌, ◌-◌, List, [], ◌∷◌, ◌++◌, length, take, drop, leb, if◌then◌else◌,
}
use simple_message.Errors.{Error, Result, ok, err, panic, eof, unexpected_eof}

-- A piece that one Read hands over (an empty one is a Read of no bytes), or a Read that fails.
-- After the last event every Read returns io.EOF.
pub data Event : Type 0 where
  chunk : List ℕ → Event
  fail : Error → Event

abbrev pub Stream : Type 0
Stream = List Event

-- A call that reads: its result, and what the connection still has.
abbrev pub Reads : Type 0 → Type 0
Reads A = Stream → Result A × Stream

infixl 5 ◌>>=◌ ◌>>◌
abbrev pub ◌>>=◌ : {A B : Type 0} → Reads A → (A → Reads B) → Reads B
◌>>=◌ m f s = let (r, t) = m s in elim r [ ok a ↦ f a t | err e ↦ (err e, t) | panic ↦ (panic, t) ]

abbrev pub ◌>>◌ : {B : Type 0} → Reads (Unit {0}) → Reads B → Reads B
m >> k = m >>= λ _. k

abbrev pub pure : {A : Type 0} → A → Reads A
pure a s = (ok a, s)

abbrev pub throw : {A : Type 0} → Error → Reads A
throw e s = (err e, s)

-- io.EOF in the middle of what was asked for is io.ErrUnexpectedEOF.
unfoldable pub short : List ℕ → Error → Error
short [] e = e
short (b ∷ bs) eof = unexpected_eof
short (b ∷ bs) e = e

-- The loop of io.ReadAtLeast: `got` is read, `need` bytes are wanted still.
unfoldable pub fill : List ℕ → ℕ → Stream → Result (List ℕ) × Stream
fill got zero s = (ok got, s)
fill got (suc k) [] = (err (short got eof), [])
fill got (suc k) (fail e ∷ s) = (err (short got e), s)
fill got (suc k) (chunk bs ∷ s) =
    let rest = fill (got ++ bs) (suc k - length bs) s in
    if leb (length bs) (suc k)
    then rest
    else (ok (got ++ take (suc k) bs), chunk (drop (suc k) bs) ∷ s)

-- io.ReadFull into a buffer of `n` bytes
unfoldable pub read_full : ℕ → Reads (List ℕ)
read_full n s = fill [] n s
