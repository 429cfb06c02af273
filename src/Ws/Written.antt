-- ===== src/Ws/Written.antt =====
-- What the server writes, read back.
use punchline.Base.{
  ℕ, zero, suc, ◌+◌, ◌*◌, ◌/◌, ◌%◌, ◌^◌, ◌<◌, ◌≡◌, refl, List, [], ◌∷◌, ◌++◌, arith, length,
  length-append,
}
use punchline.Ws.{
  Read, got, failed, read_full, read_length, unexpected_eof, big_endian, byte_at, put_big_endian,
  sent_payload, written_length, write_frame,
}

big_endian-append :
    (n : ℕ) (bs : List ℕ) (b : ℕ) → big_endian n (bs ++ b ∷ []) ≡ big_endian n bs * 256 + b
unfolding big_endian
big_endian-append n [] b = refl
big_endian-append n (c ∷ bs) b = big_endian-append (n * 256 + c) bs b

div-lt : (n m : ℕ) → n < m * 256 → n / 256 < m
div-lt n m h = omega arith

big_endian-put_big_endian : (k n : ℕ) → n < 256 ^ k → big_endian 0 (put_big_endian k n) ≡ n
unfolding big_endian put_big_endian
big_endian-put_big_endian zero n h = omega arith
big_endian-put_big_endian (suc k) n h = omega (
  arith,
  big_endian-append 0 (put_big_endian k (n / 256)) (n % 256),
  big_endian-put_big_endian k (n / 256) (div-lt n (256 ^ k) (omega (arith, h))),
)

length-put_big_endian : (k n : ℕ) → length (put_big_endian k n) ≡ k
unfolding put_big_endian
length-put_big_endian zero n = refl
length-put_big_endian (suc k) n = omega (
  arith,
  length-append (put_big_endian k (n / 256)) (n % 256 ∷ []),
  length-put_big_endian k (n / 256),
)

read_full-append :
    (k : ℕ) (bs rest : List ℕ) → length bs ≡ k → read_full k (bs ++ rest) ≡ got bs rest
unfolding read_full
read_full-append zero [] rest h = refl
read_full-append zero (b ∷ bs) rest h = absurd (omega (arith, h))
read_full-append (suc k) [] rest h = absurd (omega (arith, h))
read_full-append (suc k) (b ∷ bs) rest h = rw (read_full-append k bs rest (omega (arith, h))) refl

byte_at-put_big_endian : (n : ℕ) → n < 2 ^ 63 → byte_at 0 (put_big_endian 8 n) < 128
unfolding byte_at put_big_endian
byte_at-put_big_endian n h = omega arith

-- The length of a frame, read as from a peer, and what comes after it.
abbrev pub read_sent : List ℕ → Read ℕ
read_sent (first ∷ second ∷ bs) = read_length second bs
read_sent _ = failed unexpected_eof

read_length-written :
    (first l : ℕ) (rest : List ℕ)
    → l < 2 ^ 63
    → read_sent (first ∷ written_length l ++ rest) ≡ got l rest
unfolding written_length read_length
read_length-written first l rest h = ground (
  arith,
  read_full-append 2 (put_big_endian 2 l) rest (length-put_big_endian 2 l),
  read_full-append 8 (put_big_endian 8 l) rest (length-put_big_endian 8 l),
  big_endian-put_big_endian 2 l,
  big_endian-put_big_endian 8 l,
  byte_at-put_big_endian l h,
)

-- In every frame that the server writes, the length is written in the fewest bytes and is the length
-- of the payload that follows: read by the rules that the server holds its clients to, it is that
-- length, with exactly the payload left. The payload is shorter than 2^63 bytes.
pub read_sent-write_frame :
    (opcode : ℕ) (payload : List ℕ)
    → length (sent_payload opcode payload) < 2 ^ 63
    → read_sent (write_frame opcode payload)
      ≡ got (length (sent_payload opcode payload)) (sent_payload opcode payload)
unfolding write_frame
read_sent-write_frame opcode payload h =
    read_length-written (128 + opcode) (length (sent_payload opcode payload))
      (sent_payload opcode payload) h
