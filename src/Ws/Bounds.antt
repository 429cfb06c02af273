-- ===== src/Ws/Bounds.antt =====
-- The size of what a client can make the server hold, and the end of the loop that reads it.
use punchline.Base.{
  ℕ, zero, suc, ◌+◌, ◌≤◌, ◌<◌, ◌≡◌, refl, Bool, true, false, List, [], ◌∷◌, length, arith,
  length-append, ◌%◌, ◌/◌, ◌==◌, ◌&&◌, ◌||◌, not, if◌then◌else◌, ltb, leb,
}
use punchline.Ws.{
  WsError, Frame, Read, got, failed, ◌>>=◌, read_full, read_length, read_body, read_frame, unmask,
  byte_at, big_endian, Turn, goes_on, returns, refuses, gather, on_frame, Message, received, broken,
  unfinished, offered, read_message, max_client_message_bytes,
}

-- What holds of the result of a read, if it gives one.
Ensures : {A : Type 0} → (A → List ℕ → Type 0) → Read A → Type 0
Ensures P (got a rest) = P a rest
Ensures P (failed e) = Unit {0}

Ensures-got :
    {A : Type 0} (P : A → List ℕ → Type 0) (a : A) (rest : List ℕ)
    → P a rest
    → Ensures P (got a rest)
unfolding Ensures
Ensures-got P a rest h = h

Ensures-failed : {A : Type 0} (P : A → List ℕ → Type 0) (e : WsError) → Ensures P (failed e)
unfolding Ensures
Ensures-failed P e = tt

Ensures-bind :
    {A B : Type 0} (P : A → List ℕ → Type 0) (Q : B → List ℕ → Type 0) (m : Read A)
    (f : A → List ℕ → Read B)
    → Ensures P m
    → ((a : A) (rest : List ℕ) → P a rest → Ensures Q (f a rest))
    → Ensures Q (m >>= f)
unfolding Ensures
Ensures-bind P Q (got a rest) f h k = k a rest h
Ensures-bind P Q (failed e) f h k = tt

Ensures-weaken :
    {A : Type 0} (P Q : A → List ℕ → Type 0) (m : Read A)
    → Ensures P m
    → ((a : A) (rest : List ℕ) → P a rest → Q a rest)
    → Ensures Q m
unfolding Ensures
Ensures-weaken P Q (got a rest) h k = k a rest h
Ensures-weaken P Q (failed e) h k = tt

Ensures-if :
    {A : Type 0} (Q : A → List ℕ → Type 0) (b : Bool) (x y : Read A)
    → Ensures Q x
    → (b ≡ false → Ensures Q y)
    → Ensures Q (if b then x else y)
unfolding Ensures
Ensures-if Q true x y h k = h
Ensures-if Q false x y h k = k refl

-- At most `n` bytes are left.
abbrev Leaves : {A : Type 0} → ℕ → A → List ℕ → Type 0
Leaves n a rest = length rest ≤ n

-- `n` bytes have been read, and at most `m` are left.
abbrev Filled : ℕ → ℕ → List ℕ → List ℕ → Type 0
Filled n m p rest = (length p ≡ n) × (n + length rest ≤ m)

read_full-Filled : (n : ℕ) (bs : List ℕ) → Ensures (Filled n (length bs)) (read_full n bs)
unfolding read_full Ensures
read_full-Filled zero bs = (refl, omega arith)
read_full-Filled (suc n) [] = tt
read_full-Filled (suc n) (b ∷ bs) = filled_after (read_full n bs) (read_full-Filled n bs)
  where
    filled_after :
        (r : Read (List ℕ))
        → Ensures (Filled n (length bs)) r
        → Ensures
            (Filled (suc n) (suc (length bs)))
            (elim r [ got p rest ↦ got (b ∷ p) rest | failed e ↦ failed e ])
    filled_after (got p rest) h = (omega (arith, h.0), omega (arith, h.1))
    filled_after (failed e) h = tt

read_length-Leaves : (first : ℕ) (bs : List ℕ) → Ensures (Leaves (length bs)) (read_length first bs)
unfolding read_length
read_length-Leaves first bs =
    Ensures-if (Leaves (length bs)) (first == 126) _ _
      (Ensures-bind (Filled 2 (length bs)) (Leaves (length bs)) (read_full 2 bs) _
        (read_full-Filled 2 bs)
        (λ b rest h.
          Ensures-if (Leaves (length bs)) (ltb (big_endian 0 b) 126) _ _ (Ensures-failed _ _)
            (λ _. Ensures-got _ _ _ (omega (arith, h.1)))))
      (λ _.
        Ensures-if (Leaves (length bs)) (first == 127) _ _
          (Ensures-bind (Filled 8 (length bs)) (Leaves (length bs)) (read_full 8 bs) _
            (read_full-Filled 8 bs)
            (λ b rest h.
              Ensures-if (Leaves (length bs)) (leb 128 (byte_at 0 b)) _ _ (Ensures-failed _ _) (λ _.
                Ensures-if (Leaves (length bs)) (ltb (big_endian 0 b) 65536) _ _
                  (Ensures-failed _ _) (λ _. Ensures-got _ _ _ (omega (arith, h.1))))))
          (λ _. Ensures-got _ _ _ (omega arith)))

length-unmask : (mask : List ℕ) (i : ℕ) (bs : List ℕ) → length (unmask mask i bs) ≡ length bs
unfolding unmask
length-unmask mask i [] = refl
length-unmask mask i (b ∷ bs) = omega (arith, length-unmask mask (i + 1) bs)

-- A payload within the limit, and at most `n` bytes left.
abbrev Small : ℕ → Frame → List ℕ → Type 0
Small n f rest = (length f.payload ≤ max_client_message_bytes) × (length rest ≤ n)

read_body-Small : (first n : ℕ) (bs : List ℕ) → Ensures (Small (length bs)) (read_body first n bs)
unfolding read_body
read_body-Small first n bs =
    Ensures-if (Small (length bs)) (ltb max_client_message_bytes n) _ _ (Ensures-failed _ _) (λ le.
      Ensures-if (Small (length bs)) (leb 8 (first % 16) && (not (leb 128 first) || ltb 125 n)) _ _
        (Ensures-failed _ _)
        (λ _.
          Ensures-bind (Filled 4 (length bs)) (Small (length bs)) (read_full 4 bs) _
            (read_full-Filled 4 bs)
            (λ mask rest h.
              Ensures-bind (Filled n (length rest)) (Small (length bs)) (read_full n rest) _
                (read_full-Filled n rest)
                (λ payload rest' k.
                  Ensures-got _ _ _ (
                    ground (arith, length-unmask mask 0 payload, k, le),
                    omega (arith, h.1, k.1),
                  )))))

-- The same, and at least two bytes taken of `n`.
abbrev Taken : ℕ → Frame → List ℕ → Type 0
Taken n f rest = (length f.payload ≤ max_client_message_bytes) × (2 + length rest ≤ n)

-- A frame that is read carries at most 8192 bytes and took at least two.
read_frame-Small : (bs : List ℕ) → Ensures (Taken (length bs)) (read_frame bs)
unfolding read_frame
read_frame-Small bs =
    let Q = Taken (length bs) in
    Ensures-bind (Filled 2 (length bs)) Q (read_full 2 bs) _ (read_full-Filled 2 bs) (λ head rest h.
      Ensures-if Q (not (byte_at 0 head / 16 % 8 == 0)) _ _ (Ensures-failed _ _) (λ _.
        Ensures-if Q (ltb (byte_at 1 head) 128) _ _ (Ensures-failed _ _) (λ _.
          Ensures-bind (Leaves (length rest)) Q (read_length (byte_at 1 head % 128) rest) _
            (read_length-Leaves _ rest)
            (λ n rest' k.
              Ensures-weaken (Small (length rest')) Q (read_body (byte_at 0 head) n rest')
                (read_body-Small _ n rest') (λ f left j. (j.0, omega (arith, h.1, j.1)))))))

-- What a turn of the loop of `readMessage` keeps.
abbrev Holds : Turn → Type 0
Holds (goes_on d b p) = length d ≤ max_client_message_bytes
Holds (returns d) = length d ≤ max_client_message_bytes
Holds (refuses e) = Unit {0}

gather-Holds : (f : Frame) (d : List ℕ) → Holds (gather f d)
unfolding gather
gather-Holds f d = ground (arith, length-append d f.payload)

on_frame-Holds :
    (f : Frame) (d : List ℕ) (b : Bool)
    → length d ≤ max_client_message_bytes
    → Holds (on_frame f d b)
unfolding on_frame
on_frame-Holds f d b h = ground (arith, gather-Holds f d)

-- A message within the limit, or an error, whatever pongs were offered.
abbrev pub IsBounded : Message × List (List ℕ) → Type 0
IsBounded (received d rest, pongs) = length d ≤ max_client_message_bytes
IsBounded (broken e, pongs) = Unit {0}
IsBounded (unfinished, pongs) = ⊥

-- The rest of a turn, with the next turns as a function.
turn-IsBounded :
    (n : ℕ) (rest : List ℕ) (t : Turn) (pongs : List (List ℕ))
    → ((d : List ℕ) (b : Bool) (pongs : List (List ℕ))
        → length d ≤ max_client_message_bytes
        → IsBounded (read_message n rest d b pongs))
    → Holds t
    → IsBounded (elim t [
      | goes_on d b p ↦ read_message n rest d b (offered p pongs)
      | returns d ↦ (received d rest, pongs)
      | refuses e ↦ (broken e, pongs)
    ])
turn-IsBounded n rest (goes_on d b p) pongs k j = k d b (offered p pongs) j
turn-IsBounded n rest (returns d) pongs k j = j
turn-IsBounded n rest (refuses e) pongs k j = tt

frame-IsBounded :
    (n m : ℕ) (r : Read Frame) (d : List ℕ) (b : Bool) (pongs : List (List ℕ))
    → ((rest d : List ℕ) (b : Bool) (pongs : List (List ℕ))
        → 2 + length rest ≤ m
        → length d ≤ max_client_message_bytes
        → IsBounded (read_message n rest d b pongs))
    → length d ≤ max_client_message_bytes
    → Ensures (Taken m) r
    → IsBounded (elim r [
      | failed e ↦ (broken e, pongs)
      | got f rest ↦ elim (on_frame f d b) [
        | goes_on d b p ↦ read_message n rest d b (offered p pongs)
        | returns d ↦ (received d rest, pongs)
        | refuses e ↦ (broken e, pongs)
      ]
    ])
unfolding Ensures
frame-IsBounded n m (got f rest) d b pongs k l j =
    turn-IsBounded n rest (on_frame f d b) pongs (λ d b pongs. k rest d b pongs j.1)
      (on_frame-Holds f d b l)
frame-IsBounded n m (failed e) d b pongs k l j = tt

read_message-IsBounded_from :
    (n : ℕ) (bs d : List ℕ) (b : Bool) (pongs : List (List ℕ))
    → length bs < n
    → length d ≤ max_client_message_bytes
    → IsBounded (read_message n bs d b pongs)
unfolding read_message
read_message-IsBounded_from zero bs d b pongs h k = absurd (omega arith)
read_message-IsBounded_from (suc n) bs d b pongs h k =
    frame-IsBounded n (length bs) (read_frame bs) d b pongs
      (λ rest d b pongs l j. read_message-IsBounded_from n rest d b pongs (omega arith) j) k
      (read_frame-Small bs)

-- Whatever bytes a client sends, reading a message ends, with an error or with a message of at most
-- 8192 bytes: as much fuel as there are bytes, and one more, is enough.
pub read_message-IsBounded : (bs : List ℕ) → IsBounded (read_message (length bs + 1) bs [] false [])
read_message-IsBounded bs =
    read_message-IsBounded_from (length bs + 1) bs [] false [] (omega arith) (omega arith)
