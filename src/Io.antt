-- ===== src/Io.antt =====
-- io.Writer as WriteTo uses it: the sequence of Write calls that stops at the first error.
use go_nsq.Base.{
  ℕ, ◌+◌, ◌-◌, ◌≤◌, ◌≡◌, Bool, true, false, List, [], ◌++◌, arith, length, take, leb, if◌then◌else◌,
  length-append, take-append, take-append_past,
}
use mathlib.Core.List.{append_assoc}

-- What the writer has accepted, how many bytes more it will accept, the running `total` of WriteTo,
-- and whether a Write call has returned an error. A Write that is cut short returns an error.
pub record Writer : Type 0 where
  pub out : List ℕ
  pub room : ℕ
  pub total : ℕ
  pub failed : Bool

-- `n, err := w.Write(p); total += n; if err != nil { return }`
unfoldable pub write : List ℕ → Writer → Writer
write p w =
    if w.failed
    then w
    else if leb (length p) w.room
    then record w { out = w.out ++ p; room = w.room - length p; total = w.total + length p }
    else record { out = w.out ++ take w.room p; room = 0; total = w.total + w.room; failed = true }

abbrev pub start : ℕ → Writer
start room = record { out = []; room = room; total = 0; failed = false }

-- Two writes in a row are one write of both.
pub write-append : (p q : List ℕ) (w : Writer) → write q (write p w) ≡ write (p ++ q) w
unfolding write
write-append p q w = ground (
  arith,
  length-append {0} p q,
  append_assoc w.out p q,
  append_assoc w.out p (take (w.room - length p) q),
  take-append_past w.room p q,
  take-append w.room p q,
)

-- A write that fits is all there; one that does not leaves the longest prefix that fits, and an error.
pub write_fits :
    (p : List ℕ) (room : ℕ)
    → length p ≤ room
    → write p (start room)
      ≡ record { out = p; room = room - length p; total = length p; failed = false }
unfolding write
write_fits p room h = ground arith
