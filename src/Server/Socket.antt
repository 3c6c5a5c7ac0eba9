-- ===== src/Server/Socket.antt =====
-- server.cpp, ServerCommon: Read, Write, SendSample, RecvSample, SendString and RecvString over a
-- socket whose `recv` and `send` may stop short.
use jackalope.Prelude.{
  ℕ, zero, suc, ◌-◌, Option, none, some, List, [], ◌∷◌, ◌++◌, Bool, true, false, ltb, ◌==◌,
  if◌then◌else◌, length, take, drop,
}
use jackalope.Prelude.Memory.{Bytes, ◌>>=◌, store_le, load_le}
use jackalope.Sample.{Sample, content, init}

-- A connection: the segments in which `recv` delivers what the peer has sent, how many bytes each
-- call of `send` takes, and what it has taken so far. When a list is at its end, the call fails.
pub record Socket : Type 0 where
  pub incoming : List Bytes
  pub room : List ℕ
  pub outgoing : Bytes

-- `0x100000`, the greatest number of bytes asked for at once.
abbrev pub max_chunk : ℕ
max_chunk = 0x100000

abbrev pub chunk_of : ℕ → ℕ
chunk_of n = if ltb max_chunk n then max_chunk else n

abbrev pub unread : Bytes → List Bytes → List Bytes
unread [] segments = segments
unread (b ∷ bs) segments = (b ∷ bs) ∷ segments

abbrev pub take_bytes : ℕ → List Bytes → Bytes × List Bytes
take_bytes n [] = ([], [])
take_bytes n (segment ∷ rest) = (take n segment, unread (drop n segment) rest)

-- `recv(sock, p, n, 0)`: the bytes that it stores at `p`, none of them where it returns 0 or less.
unfoldable pub recv : Socket → ℕ → Bytes × Socket
recv sock n = let r = take_bytes n sock.incoming in (r.0, record sock { incoming = r.1 })

-- The loop of Read: `to_read` bytes are still to come, and `fuel` is the bound on its rounds.
unfoldable pub read_loop : ℕ → ℕ → Socket → Option (Bytes × Socket)
unfolding recv
read_loop fuel zero sock = some ([], sock)
read_loop zero (suc to_read) sock = none
read_loop (suc fuel) (suc to_read) sock =
    let r = recv sock (chunk_of (suc to_read)) in
    let rest = read_loop fuel (suc to_read - length r.0) r.1 in
    if length r.0 == 0 then none else (do (bytes, sock') ← rest; some (r.0 ++ bytes, sock'))

-- ServerCommon::Read; `none` is the return value 0. Each round reads a byte at least.
unfoldable pub read : ℕ → Socket → Option (Bytes × Socket)
unfolding read_loop
read size sock = read_loop size size sock

abbrev pub accept : Bytes → ℕ → List ℕ → ℕ × List ℕ
accept p n [] = (0, [])
accept p n (r ∷ room) = (length (take r (take n p)), room)

-- `send(sock, p, n, 0)`: how many bytes it takes, 0 where it fails.
unfoldable pub send : Bytes → ℕ → Socket → ℕ × Socket
send p n sock =
    let a = accept p n sock.room in
    (a.0, record sock { room = a.1; outgoing = sock.outgoing ++ take a.0 p })

-- The loop of Write; the flag is its return value.
unfoldable pub write_loop : ℕ → Bytes → ℕ → Socket → Bool × Socket
unfolding send
write_loop fuel p zero sock = (true, sock)
write_loop zero p (suc to_write) sock = (false, sock)
write_loop (suc fuel) p (suc to_write) sock =
    let s = send p (chunk_of (suc to_write)) sock in
    let rest = write_loop fuel (drop s.0 p) (suc to_write - s.0) s.1 in
    if s.0 == 0 then (false, s.1) else rest

-- ServerCommon::Write of a whole buffer.
unfoldable pub write : Bytes → Socket → Bool × Socket
unfolding write_loop
write buf sock = write_loop (length buf) buf (length buf) sock

-- SendSample and SendString write the size, as 8 bytes, and the bytes; they ignore what Write
-- returns, and return 1.
unfoldable pub send_sized : Bytes → Socket → Bool × Socket
unfolding write
send_sized bytes sock = (true, (write bytes (write (store_le 8 (length bytes)) sock).1).1)

unfoldable pub send_sample : Sample → Socket → Bool × Socket
unfolding send_sized
send_sample sample sock = send_sized (take sample.size (content sample)) sock

-- The bytes that RecvSample and RecvString read into a buffer of the size that comes first.
unfoldable pub recv_sized : Socket → Option (Bytes × Socket)
unfolding read
recv_sized sock = do
  (size, sock1) ← read 8 sock
  (bytes, sock2) ← read (load_le size) sock1
  some (bytes, sock2)

-- RecvString
unfoldable pub recv_string : Socket → Option (Bytes × Socket)
unfolding recv_sized
recv_string sock = recv_sized sock

-- RecvSample into a given sample
unfoldable pub recv_sample : Sample → Socket → Option (Sample × Socket)
unfolding recv_sized
recv_sample sample sock = do
  (bytes, sock') ← recv_sized sock
  s ← init sample bytes (length bytes)
  some (s, sock')
