-- ===== src/Socket/Reader.antt =====
-- `EventProcess::OnReadEvent` (new_robot_client/src/EventProcess.cpp) and `Conn::GetReadBufferData`
-- (new_robot_client/src/Connection.cpp): the messages in a connection's input buffer.
pub mod Frames
use robot_ddz.Prelude.{
  ℕ, zero, suc, ◌+◌, ◌-◌, ◌*◌, ◌%◌, ◌&&◌, Bool, true, false, List, [], ◌∷◌, ◌++◌, Option, some,
  none, length, ltb, ◌==◌, if◌then◌else◌,
}
use robot_ddz.Session.Wire.{Bytes}

-- `bufferevent_read` of `n` bytes: the bytes, fewer if the buffer has fewer, and what is left.
unfoldable pub get_read_buffer_data : ℕ → Bytes → Bytes × Bytes
get_read_buffer_data zero buffer = ([], buffer)
get_read_buffer_data (suc n) [] = ([], [])
get_read_buffer_data (suc n) (b ∷ buffer) =
    let (got, left) = get_read_buffer_data n buffer in (b ∷ got, left)

-- `ntohl`. An identifier from 2^31 on, a negative `int` in the source, stays the unsigned number.
abbrev pub number : ℕ → Bytes → ℕ
number acc [] = acc
number acc (b ∷ bytes) = number (acc * 256 + b) bytes

-- `dataLength > 0`: the length of the buffer, as `GetReadBufferLen` turns it into an `int` of 32
-- bits, is positive.
unfoldable pub positive_int : ℕ → Bool
positive_int n = let k = n % 4294967296 in ltb 0 k && ltb k 2147483648

-- What `RobotProcess` makes of a message, and whether it closes the connection; and what the `n`
-- bytes at the end of a new array hold, which the source does not set.
module _ {S : Type 0} (robot_process : S → ℕ → Bytes → S × Bool) (unset : ℕ → Bytes) where
  -- The loop, in as many rounds as `fuel`. A length from 2^31 on is a negative size of an array,
  -- and `iMsgLen + 1` overflows at 2^31 - 1.
  unfoldable pub read_messages : ℕ → Bytes → S → Option (S × Bytes)
  read_messages zero buffer s = none
  read_messages (suc fuel) buffer s =
      let (l, b1) = get_read_buffer_data 4 buffer in
      let (i, b2) = get_read_buffer_data 4 b1 in
      let n = number 0 l in
      let (m, b3) = get_read_buffer_data n b2 in
      let (s', close) = robot_process s (number 0 i) (m ++ unset (n - length m)) in
      let rest = read_messages fuel b3 s' in
      if positive_int (length buffer)
      then (if length l == 4
          then (if n == 0
              then some (s, b1)
              else if length i == 4
              then (if ltb n 2147483647 then (if close then some (s', b3) else rest) else none)
              else some (s, b2))
          else some (s, b1))
      else some (s, buffer)

  -- Each round takes a byte at least.
  unfoldable pub on_read_event : Bytes → S → Option (S × Bytes)
  unfolding read_messages
  on_read_event buffer s = read_messages (length buffer + 1) buffer s
