-- ===== src/Socket/Reader/Frames.antt =====
-- What `OnReadEvent` finds in a buffer of whole frames is what `SerializeSendMsg` put there.
use robot_ddz.Prelude.{
  ℕ, zero, suc, ◌+◌, ◌-◌, ◌%◌, ◌≤◌, ◌<◌, ◌≡◌, refl, inl, inr, Bool-cases, Bool, true, false, List,
  [], ◌∷◌, ◌++◌, some, length, length-append, ltb, ◌==◌, if◌then◌else◌, arith, All,
}
use robot_ddz.Session.Wire.{Bytes, frame, big_endian}
use robot_ddz.Socket.Reader.{
  positive_int, get_read_buffer_data, number, read_messages, on_read_event,
}

-- Messages that a frame can carry: a body that is not empty, and an identifier of 32 bits.
abbrev pub Carried : List (ℕ × Bytes) → Type 0
Carried ms = All (λ m. (m.0 < 4294967296) × (1 ≤ length m.1)) ms

abbrev pub frames : List (ℕ × Bytes) → Bytes
frames [] = []
frames ((id, body) ∷ ms) = frame id body ++ frames ms

number-big_endian : (n : ℕ) → n < 4294967296 → number 0 (big_endian n) ≡ n
unfolding big_endian
number-big_endian n h = omega arith

length-big_endian : (n : ℕ) → length (big_endian n) ≡ 4
unfolding big_endian
length-big_endian n = refl

read-append : (n : ℕ) (xs ys : Bytes) → length xs ≡ n → get_read_buffer_data n (xs ++ ys) ≡ (xs, ys)
unfolding get_read_buffer_data
read-append zero [] ys e = refl
read-append zero (x ∷ xs) ys e = ground arith
read-append (suc n) [] ys e = ground arith
read-append (suc n) (x ∷ xs) ys e = rw (read-append n xs ys (omega arith)) refl

no_bytes : (xs : Bytes) → length xs ≡ 0 → xs ≡ []
no_bytes [] e = refl
no_bytes (x ∷ xs) e = ground arith

append_nil : (xs : Bytes) → xs ++ [] ≡ xs
append_nil [] = refl
append_nil (x ∷ xs) = rw (append_nil xs) refl

length-frame : (id : ℕ) (body : Bytes) → length (frame id body) ≡ length body + 8
unfolding frame big_endian
length-frame id body = omega arith

length-frames : (ms : List (ℕ × Bytes)) → length ms ≤ length (frames ms)
length-frames [] = omega arith
length-frames ((id, body) ∷ ms) =
    omega (arith, length-append (frame id body) (frames ms), length-frame id body, length-frames ms)

positive : (n : ℕ) → 1 ≤ n → n < 2147483648 → positive_int n ≡ true
unfolding positive_int
positive n some_bytes short =
    let same : n % 4294967296 ≡ n = omega arith in rw (positive_int, same) (ground arith)

module _ {S : Type 0} (robot_process : S → ℕ → Bytes → S × Bool) where
  -- The messages in turn, until one closes the connection, and those that are left then.
  abbrev pub deliver : S → List (ℕ × Bytes) → S × List (ℕ × Bytes)
  deliver s [] = (s, [])
  deliver s ((id, body) ∷ ms) =
      let rest = deliver (robot_process s id body).0 ms in
      if (robot_process s id body).1 then ((robot_process s id body).0, ms) else rest

  module _ (unset : ℕ → Bytes) (sized : (n : ℕ) → length (unset n) ≡ n) where
    whole_body : (body : Bytes) → body ++ unset (length body - length body) ≡ body
    whole_body body =
        let none_left : length body - length body ≡ 0 = omega arith in
        rw (none_left, no_bytes (unset 0) (sized 0)) (append_nil body)

    one_message :
        (fuel id : ℕ) (l i body rest : Bytes) (s : S)
        → length l ≡ 4
        → length i ≡ 4
        → number 0 l ≡ length body
        → number 0 i ≡ id
        → 1 ≤ length body
        → length (l ++ (i ++ (body ++ rest))) < 2147483648
        → read_messages robot_process unset (suc fuel) (l ++ (i ++ (body ++ rest))) s ≡ (
            if (robot_process s id body).1
            then some ((robot_process s id body).0, rest)
            else read_messages robot_process unset fuel rest (robot_process s id body).0)
    unfolding read_messages
    one_message fuel id l i body rest s four four' len num some_body short =
        let whole : length (l ++ (i ++ (body ++ rest))) ≡ length body + length rest + 8 = omega (
          arith,
          length-append l (i ++ (body ++ rest)),
          length-append i (body ++ rest),
          length-append body rest,
        ) in
        let r1 = read-append 4 l (i ++ (body ++ rest)) four in
        let r2 = read-append 4 i (body ++ rest) four' in
        let r3 = read-append (length body) body rest refl in
        let t0 = positive (length (l ++ (i ++ (body ++ rest)))) (omega arith) short in
        let t1 : (length l == 4) ≡ true = rw four refl in
        let t2 : (length i == 4) ≡ true = rw four' refl in
        let t3 : (length body == 0) ≡ false = ground arith in
        let t4 : ltb (length body) 2147483647 ≡ true = ground arith in
        rw (read_messages, r1, len, r2, num, r3, whole_body body, t0, t1, t2, t3, t4) refl

    one_frame :
        (fuel id : ℕ) (body rest : Bytes) (s : S)
        → id < 4294967296
        → 1 ≤ length body
        → length (frame id body ++ rest) < 2147483648
        → read_messages robot_process unset (suc fuel) (frame id body ++ rest) s ≡ (
            if (robot_process s id body).1
            then some ((robot_process s id body).0, rest)
            else read_messages robot_process unset fuel rest (robot_process s id body).0)
    unfolding frame big_endian
    one_frame fuel id body rest s small some_body short =
        let n = length body in
        let fits : n < 4294967296 =
          omega (arith, length-append (frame id body) rest, length-frame id body) in
        one_message fuel id (big_endian n) (big_endian id) body rest s (length-big_endian n)
          (length-big_endian id) (number-big_endian n fits) (number-big_endian id small) some_body
          short

    read_messages-frames :
        (fuel : ℕ) (ms : List (ℕ × Bytes)) (s : S)
        → Carried ms
        → length (frames ms) < 2147483648
        → length ms < fuel
        → read_messages robot_process unset fuel (frames ms) s
          ≡ some ((deliver s ms).0, frames (deliver s ms).1)
    read_messages-frames zero ms s fit short enough = ground arith
    read_messages-frames (suc fuel) [] s fit short enough =
        unfold read_messages positive_int in refl
    read_messages-frames (suc fuel) ((id, body) ∷ ms) s ((small, some_body), fit) short enough =
        let step = one_frame fuel id body (frames ms) s small some_body short in
        let shorter : length (frames ms) < 2147483648 =
          omega (arith, length-append (frame id body) (frames ms)) in
        elim (Bool-cases (robot_process s id body).1) [
          | inl closes ↦ rw (step, closes) refl
          | inr goes_on ↦
              rw (step, goes_on)
                (read_messages-frames fuel ms (robot_process s id body).0 fit shorter (omega arith))
        ]

    -- From a buffer of whole frames as SerializeSendMsg makes them, each with a body that is not
    -- empty, and less than 2^31 bytes in all, OnReadEvent hands RobotProcess exactly the messages
    -- in their order, up to the one that closes the connection, and leaves the frames behind it in
    -- the buffer.
    pub on_read_event-frames :
        (ms : List (ℕ × Bytes)) (s : S)
        → Carried ms
        → length (frames ms) < 2147483648
        → on_read_event robot_process unset (frames ms) s
          ≡ some ((deliver s ms).0, frames (deliver s ms).1)
    unfolding on_read_event
    on_read_event-frames ms s fit short =
        read_messages-frames (length (frames ms) + 1) ms s fit short
          (omega (arith, length-frames ms))
