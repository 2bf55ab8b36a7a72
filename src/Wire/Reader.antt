-- ===== src/Wire/Reader.antt =====
-- What the readers of server/internal/relay/stream.go read from: an io.Reader as the bytes that it
-- will give and what follows them, and io.ReadFull; also big-endian numbers.
use hhrouter.Base.{
  ℕ, ◌+◌, ◌*◌, ◌/◌, ◌%◌, ◌^◌, ◌<◌, true, [], ◌∷◌, ◌++◌, ◌≡◌, refl, leb, length, take, drop, arith,
  if◌then◌else◌, length-append, take-length_append, drop-length_append, le→leb,
}
use hhrouter.Base.Text.{Bytes}

-- After the bytes: io.EOF, io.ErrUnexpectedEOF (a body that is shorter than it was announced), or
-- another error.
pub data ReadEnd : Type 0 where
  eof cut : ReadEnd
  broken : Bytes → ReadEnd

pub record Source : Type 0 where
  pub bytes : Bytes
  pub end : ReadEnd

pub data ReadError : Type 0 where
  at_eof unexpected_eof : ReadError
  read_failed : Bytes → ReadError

pub data Full : Type 0 where
  full : Bytes → Source → Full
  short : ReadError → Full

abbrev pub short_read : Bytes → ReadEnd → ReadError
short_read bytes (broken e) = read_failed e
short_read bytes cut = unexpected_eof
short_read [] eof = at_eof
short_read (b ∷ bytes) eof = unexpected_eof

-- What running code comes to: a result, a panic, or, in the model alone, an end of the fuel.
pub data Reading (A : Type 0) : Type 0 where
  read : A → Reading A
  panicked out_of_fuel : Reading A

-- v[:n] in Go, and what is done with it
abbrev pub slice : {A : Type 0} → ℕ → Bytes → (Bytes → Reading A) → Reading A
slice n v k = if leb n (length v) then k (take n v) else panicked

-- io.ReadFull of n bytes
unfoldable pub read_full : ℕ → Source → Full
read_full n r =
    if leb n (length r.bytes)
    then full (take n r.bytes) (record r { bytes = drop n r.bytes })
    else short (short_read r.bytes r.end)

-- binary.BigEndian.PutUint32 of uint32(n), and Uint32
unfoldable pub put_u32 : ℕ → Bytes
put_u32 n = (n / 2 ^ 24 % 256) ∷ (n / 2 ^ 16 % 256) ∷ (n / 256 % 256) ∷ (n % 256) ∷ []

unfoldable pub get_u32 : Bytes → ℕ
get_u32 (a ∷ b ∷ c ∷ d ∷ s) = (a * 2 ^ 24 + b * 2 ^ 16 + c * 256 + d) % 2 ^ 32
get_u32 s = 0

unfoldable pub put_u16 : ℕ → Bytes
put_u16 n = (n / 256 % 256) ∷ (n % 256) ∷ []

unfoldable pub get_u16 : Bytes → ℕ
get_u16 (a ∷ b ∷ s) = a * 256 + b
get_u16 s = 0

pub get_u32-put_u32 : (n : ℕ) (s : Bytes) → n < 2 ^ 32 → get_u32 (put_u32 n ++ s) ≡ n
unfolding get_u32 put_u32
get_u32-put_u32 n s h = omega arith

pub get_u32_bound : (s : Bytes) → get_u32 s < 2 ^ 32
unfolding get_u32
get_u32_bound (a ∷ b ∷ c ∷ d ∷ s) = omega arith
get_u32_bound (a ∷ b ∷ c ∷ []) = omega arith
get_u32_bound (a ∷ b ∷ []) = omega arith
get_u32_bound (a ∷ []) = omega arith
get_u32_bound [] = omega arith

pub get_u16-put_u16 : (n : ℕ) (s : Bytes) → n < 2 ^ 16 → get_u16 (put_u16 n ++ s) ≡ n
unfolding get_u16 put_u16
get_u16-put_u16 n s h = omega arith

pub length-put_u32 : (n : ℕ) → length (put_u32 n) ≡ 4
unfolding put_u32
length-put_u32 n = refl

-- A read of exactly what comes first.
pub read_full_prefix :
    (n : ℕ) (s rest : Bytes) (end : ReadEnd)
    → n ≡ length s
    → read_full n (record { bytes = s ++ rest; end = end })
      ≡ full s (record { bytes = rest; end = end })
unfolding read_full
read_full_prefix n s rest end e =
    let enough : leb (length s) (length (s ++ rest)) ≡ true =
      le→leb (length s) (length (s ++ rest)) (omega (arith, length-append s rest)) in
    rw e (rw (enough, take-length_append s rest, drop-length_append s rest) refl)
