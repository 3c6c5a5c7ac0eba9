-- ===== src/Server/Wire/Room.antt =====
-- Read leaves alone what can still be sent.
use jackalope.Prelude.{
  ℕ, zero, suc, ◌-◌, ◌≡◌, refl, sym, ap, ◌∙◌, none, some, some_eq, Bool-cases, inl, inr, ◌==◌, ◌++◌,
  length, Option-cases,
}
use jackalope.Prelude.Memory.{Bytes}
use jackalope.Server.Socket.{Socket, chunk_of, recv, read_loop, read}

recv-room : (sock : Socket) (n : ℕ) → (recv sock n).1.room ≡ sock.room
unfolding recv
recv-room sock n = refl

read_loop-room :
    (fuel n : ℕ) (sock : Socket) {r : Bytes × Socket}
    → read_loop fuel n sock ≡ some r
    → r.1.room ≡ sock.room
unfolding read_loop
read_loop-room fuel zero sock e = ap (λ (q : Bytes × Socket). q.1.room) (sym (some_eq e))
read_loop-room zero (suc n) sock e = cc
read_loop-room (suc fuel) (suc n) sock {r} e =
    let got = recv sock (chunk_of (suc n)) in
    elim (Bool-cases (length got.0 == 0)) [
      | inl stop ↦ (let none_read : read_loop (suc fuel) (suc n) sock ≡ none = rw stop refl in cc)
      | inr more ↦ elim (Option-cases (read_loop fuel (suc n - length got.0) got.1)) [
        | inl fails ↦
            (let none_read : read_loop (suc fuel) (suc n) sock ≡ none = rw (more, fails) refl in cc)
        | inr (q, rest) ↦
            (let read_so : read_loop (suc fuel) (suc n) sock ≡ some (got.0 ++ q.0, q.1) =
                rw (more, rest) refl in
              ap (λ (k : Bytes × Socket). k.1.room) (sym (some_eq (sym read_so ∙ e)))
              ∙ read_loop-room fuel (suc n - length got.0) got.1 rest
              ∙ recv-room sock (chunk_of (suc n)))
      ]
    ]

pub read-room :
    (n : ℕ) (sock : Socket) {r : Bytes × Socket} → read n sock ≡ some r → r.1.room ≡ sock.room
unfolding read
read-room n sock e = read_loop-room n n sock e
