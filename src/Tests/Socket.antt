-- ===== src/Tests/Socket.antt =====
-- A buffer of concrete frames.
use robot_ddz.Prelude.{
  ℕ, zero, suc, ◌≡◌, ◌==◌, refl, ap, List, [], ◌∷◌, ◌++◌, some, Bool, length, arith,
}
use robot_ddz.Session.Wire.{Bytes, frame}
use robot_ddz.Socket.Reader.{on_read_event}
use robot_ddz.Socket.Reader.Frames.{Carried, frames, on_read_event-frames}

-- The identifiers that have come; the message 5060 closes the connection.
abbrev note : List ℕ → ℕ → Bytes → List ℕ × Bool
note ids id body = (ids ++ id ∷ [], id == 5060)

abbrev zeros : ℕ → Bytes
zeros zero = []
zeros (suc n) = 0 ∷ zeros n

length-zeros : (n : ℕ) → length (zeros n) ≡ n
length-zeros zero = refl
length-zeros (suc n) = ap suc (length-zeros n)

abbrev three_messages : List (ℕ × Bytes)
three_messages = (12, 8 ∷ 0 ∷ []) ∷ (5060, 8 ∷ []) ∷ (5055, 10 ∷ 1 ∷ []) ∷ []

three_messages-Carried : Carried three_messages
three_messages-Carried =
    ((omega arith, omega arith), ((omega arith, omega arith), ((omega arith, omega arith), tt)))

on_read_event-frames_example :
    on_read_event note zeros (frames three_messages) []
    ≡ some (12 ∷ 5060 ∷ [], frames ((5055, 10 ∷ 1 ∷ []) ∷ []))
unfolding frame
on_read_event-frames_example =
    on_read_event-frames note zeros length-zeros three_messages [] three_messages-Carried
      (omega arith)
