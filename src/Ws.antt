-- ===== src/Ws.antt =====
-- The server's side of the WebSocket protocol (backend/internal/ws/ws.go): the frames that are read
-- from a client, the messages put together from them, and the frames that are written. A connection
-- is the list of the bytes that are still to come, and it ends where the list ends; the deadlines are
-- left out.
pub mod Bounds
pub mod Written
use Prim.Native.Nat.{bit_xor}
use punchline.Base.{
  ℕ, zero, suc, ◌+◌, ◌*◌, ◌/◌, ◌%◌, ◌==◌, ◌||◌, ◌&&◌, not, Bool, true, List, [], ◌∷◌, ◌++◌, Option,
  none, some, if◌then◌else◌, ltb, leb, length, take,
}

abbrev pub max_client_message_bytes : ℕ
max_client_message_bytes = 8192

pub data WsError : Type 0 where
  unexpected_eof extensions unmasked non_minimal invalid_length frame_too_large : WsError
  invalid_control interleaved message_too_large unexpected_continuation unsupported closed : WsError

pub record Frame : Type 0 where
  pub opcode : ℕ
  pub payload : List ℕ
  pub fin : Bool

-- What a read gives and the bytes that are left, or its error.
pub data Read {ℓ} (A : Type ℓ) : Type ℓ where
  got : A → List ℕ → Read A
  failed : WsError → Read A

infixl 5 ◌>>=◌
abbrev ◌>>=◌ {ℓ κ} : {A : Type ℓ} {B : Type κ} → Read A → (A → List ℕ → Read B) → Read B
got a rest >>= f = f a rest
failed e >>= f = failed e

-- `io.ReadFull`.
unfoldable pub read_full : ℕ → List ℕ → Read (List ℕ)
read_full zero bs = got [] bs
read_full (suc n) [] = failed unexpected_eof
read_full (suc n) (b ∷ bs) = elim (read_full n bs) [
  | got p rest ↦ got (b ∷ p) rest
  | failed e ↦ failed e
]

-- `binary.BigEndian`, after the bytes whose value is `n`.
unfoldable pub big_endian : ℕ → List ℕ → ℕ
big_endian n [] = n
big_endian n (b ∷ bs) = big_endian (n * 256 + b) bs

-- The byte at a position.
unfoldable pub byte_at : ℕ → List ℕ → ℕ
byte_at i [] = 0
byte_at zero (b ∷ bs) = b
byte_at (suc i) (b ∷ bs) = byte_at i bs

-- The length that the second byte of a frame begins.
unfoldable pub read_length : ℕ → List ℕ → Read ℕ
read_length first bs =
    if first == 126
    then (read_full 2 bs >>= λ b rest.
        let n = big_endian 0 b in if ltb n 126 then failed non_minimal else got n rest)
    else if first == 127
    then (read_full 8 bs >>= λ b rest.
        if leb 128 (byte_at 0 b)
        then failed invalid_length
        else (let n = big_endian 0 b in if ltb n 65536 then failed non_minimal else got n rest))
    else got first bs

-- The loop that takes the mask off the payload, from position `i`.
unfoldable pub unmask : List ℕ → ℕ → List ℕ → List ℕ
unfolding byte_at
unmask mask i [] = []
unmask mask i (b ∷ bs) = bit_xor b (byte_at (i % 4) mask) ∷ unmask mask (i + 1) bs

-- The rest of a frame whose first byte is `first`, after its length: the mask and the payload.
unfoldable pub read_body : ℕ → ℕ → List ℕ → Read Frame
read_body first n bs =
    if ltb max_client_message_bytes n
    then failed frame_too_large
    else if leb 8 (first % 16) && (not (leb 128 first) || ltb 125 n)
    then failed invalid_control
    else (read_full 4 bs >>= λ mask rest. read_full n rest >>= λ payload rest'.
        got (record { opcode = first % 16; payload = unmask mask 0 payload; fin = leb 128 first })
          rest')

-- `readFrame`. Of the bytes, `& 0x80` asks for 128 or more, `& 0x70` is `/ 16 % 8`, `& 0x7F` is
-- `% 128` and `& 0x0F` is `% 16`.
unfoldable pub read_frame : List ℕ → Read Frame
read_frame bs = read_full 2 bs >>= λ head rest.
    let first = byte_at 0 head in
    let second = byte_at 1 head in
    if not (first / 16 % 8 == 0)
    then failed extensions
    else if ltb second 128
    then failed unmasked
    else read_length (second % 128) rest >>= λ n rest'. read_body first n rest'

-- What the loop of `readMessage` does with a frame: it goes on with the data so far, with a pong to
-- offer to the writer, or it returns.
pub data Turn : Type 0 where
  goes_on : (gathered : List ℕ) (fragmented : Bool) (pong : Option (List ℕ)) → Turn
  returns : List ℕ → Turn
  refuses : WsError → Turn

-- The end of the two data cases.
unfoldable pub gather : Frame → List ℕ → Turn
gather f gathered =
    if ltb max_client_message_bytes (length gathered + length f.payload)
    then refuses message_too_large
    else if f.fin
    then returns (gathered ++ f.payload)
    else goes_on (gathered ++ f.payload) true none

unfoldable pub on_frame : Frame → List ℕ → Bool → Turn
on_frame f gathered fragmented =
    if f.opcode == 8
    then refuses closed
    else if f.opcode == 9
    then goes_on gathered fragmented (some f.payload)
    else if f.opcode == 10
    then goes_on gathered fragmented none
    else if f.opcode == 1 || f.opcode == 2
    then (if fragmented then refuses interleaved else gather f gathered)
    else if f.opcode == 0
    then (if fragmented then gather f gathered else refuses unexpected_continuation)
    else refuses unsupported

-- A message and the bytes after it, or an error; `unfinished` is want of fuel.
pub data Message : Type 0 where
  received : (gathered rest : List ℕ) → Message
  broken : WsError → Message
  unfinished : Message

abbrev pub offered : Option (List ℕ) → List (List ℕ) → List (List ℕ)
offered none pongs = pongs
offered (some p) pongs = p ∷ pongs

-- `readMessage`, one frame for each unit of fuel, with the pongs offered to the writer, the last one
-- first.
unfoldable pub read_message : ℕ → List ℕ → List ℕ → Bool → List (List ℕ) → Message × List (List ℕ)
unfolding on_frame
read_message zero bs gathered fragmented pongs = (unfinished, pongs)
read_message (suc n) bs gathered fragmented pongs = elim (read_frame bs) [
  | failed e ↦ (broken e, pongs)
  | got f rest ↦ elim (on_frame f gathered fragmented) [
    | goes_on d b p ↦ read_message n rest d b (offered p pongs)
    | returns d ↦ (received d rest, pongs)
    | refuses e ↦ (broken e, pongs)
  ]
]

-- `binary.BigEndian.PutUint16` and `PutUint64`, for two and for eight bytes.
unfoldable pub put_big_endian : ℕ → ℕ → List ℕ
put_big_endian zero n = []
put_big_endian (suc k) n = put_big_endian k (n / 256) ++ n % 256 ∷ []

-- The payload that `writeFrame` sends: that of a control frame is cut off.
unfoldable pub sent_payload : ℕ → List ℕ → List ℕ
sent_payload opcode payload =
    if (opcode == 9 || opcode == 10 || opcode == 8) && ltb 125 (length payload)
    then take 125 payload
    else payload

-- The bytes of a length: one, or a mark and two or eight.
unfoldable pub written_length : ℕ → List ℕ
written_length l =
    if ltb l 126
    then l ∷ []
    else if leb l 65535
    then 126 ∷ put_big_endian 2 l
    else 127 ∷ put_big_endian 8 l

-- `writeFrame`, the bytes that go to the socket. `0x80 | opcode` is a sum for opcodes below 128.
unfoldable pub write_frame : ℕ → List ℕ → List ℕ
write_frame opcode payload =
    let sent = sent_payload opcode payload in (128 + opcode) ∷ written_length (length sent) ++ sent
