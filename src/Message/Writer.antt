-- ===== src/Message/Writer.antt =====
-- The way message/option.go and message/options.go write into a `buf []byte`: a function that meets
-- a buffer that is too small sets `buf = nil` and goes on, to report the size that it needs.
-- What a failed call leaves in the buffer is not modelled: every caller discards it.
use go_coap.Prelude.{le→leb, leb, if◌then◌else◌}
use go_coap.Prelude.{length, length-append}
use go_coap.Prelude.{ℕ, ◌+◌, ◌-◌, ◌≤◌}
use go_coap.Prelude.{◌≡◌, refl}
use go_coap.Prelude.{List, [], ◌++◌, arith}

-- A byte slice to write to: only whether it is nil, and its length, matter.
pub data Buffer : Type 0 where
  nil : Buffer
  of_len : ℕ → Buffer

abbrev pub buffer_len : Buffer → ℕ
buffer_len nil = 0
buffer_len (of_len k) = k

-- What a Marshal function returns: `done n bytes` for (n, nil) with `bytes` written at the front of
-- the buffer, `too_small n` for (n, ErrTooSmall).
pub data Marshaled : Type 0 where
  done : ℕ → List ℕ → Marshaled
  too_small : ℕ → Marshaled

-- The variables of a Marshal function: `live k size bytes` while `buf` is the caller's slice of
-- length `k`, `dead size` once `buf` is nil.
pub data Cursor : Type 0 where
  live : ℕ → ℕ → List ℕ → Cursor
  dead : ℕ → Cursor

abbrev pub start : Buffer → Cursor
start nil = dead 0
start (of_len k) = live k 0 []

-- `buf[size:]`, or nil
abbrev pub rest_of : Cursor → Buffer
rest_of (live k size bytes) = of_len (k - size)
rest_of (dead size) = nil

-- The switch on a part's error, and `size += n`.
abbrev pub advance : Cursor → Marshaled → Cursor
advance (live k size bytes) (done n part) = live k (size + n) (bytes ++ part)
advance (live k size bytes) (too_small n) = dead (size + n)
advance (dead size) (done n part) = dead (size + n)
advance (dead size) (too_small n) = dead (size + n)

-- `if buf == nil { return size, ErrTooSmall }; return size, nil`
abbrev pub finish : Cursor → Marshaled
finish (live k size bytes) = done size bytes
finish (dead size) = too_small size

-- A part that writes `part` whenever it fits.
abbrev pub fit : Buffer → List ℕ → Marshaled
fit b part =
    if leb (length part) (buffer_len b) then done (length part) part else too_small (length part)

-- The variables after `w` has been written, as far as there was room.
unfoldable pub cursor : Buffer → List ℕ → Cursor
cursor nil w = dead (length w)
cursor (of_len k) w = if leb (length w) k then live k (length w) w else dead (length w)

pub cursor-start : (b : Buffer) → start b ≡ cursor b []
unfolding cursor
cursor-start nil = refl
cursor-start (of_len k) = ground arith

pub cursor-advance :
    (b : Buffer) (w part : List ℕ)
    → advance (cursor b w) (fit (rest_of (cursor b w)) part) ≡ cursor b (w ++ part)
unfolding cursor
cursor-advance nil w part = ground (arith, length-append w part)
cursor-advance (of_len k) w part = ground (arith, length-append w part)

-- What the whole function returns when it has written `w`.
abbrev pub outcome : Buffer → List ℕ → Marshaled
outcome b w = finish (cursor b w)

-- A whole outcome serves as a part again: inside a slice of its caller, or with a nil buffer.
pub advance-outcome :
    (b : Buffer) (w part : List ℕ)
    → advance (cursor b w) (outcome (rest_of (cursor b w)) part) ≡ cursor b (w ++ part)
unfolding cursor
advance-outcome nil w part = ground (arith, length-append w part)
advance-outcome (of_len k) w part = ground (arith, length-append w part)

-- A part written at the very front, through the caller's own buffer.
pub start-fit : (b : Buffer) (w : List ℕ) → advance (start b) (fit b w) ≡ cursor b w
unfolding cursor
start-fit nil w = ground arith
start-fit (of_len k) w = ground arith

pub start-outcome : (b : Buffer) (w : List ℕ) → advance (start b) (outcome b w) ≡ cursor b w
unfolding cursor
start-outcome nil w = ground arith
start-outcome (of_len k) w = ground arith

pub outcome-fits : (k : ℕ) (w : List ℕ) → length w ≤ k → outcome (of_len k) w ≡ done (length w) w
unfolding cursor
outcome-fits k w h = rw (le→leb (length w) k h)

pub outcome-nil : (w : List ℕ) → outcome nil w ≡ too_small (length w)
unfolding cursor
outcome-nil w = refl
