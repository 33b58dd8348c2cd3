-- ===== src/Dns/Tcp.antt =====
-- backend/src/dns/server.rs: one connection over TCP, whose messages carry their length.
pub mod Frames
use denis.Base.{
  ℕ, zero, suc, Bool, true, false, List, [], ◌∷◌, ◌++◌, Bytes, Result, ok, err, ltb, ◌==◌, ◌||◌,
  if◌then◌else◌, length, take, drop, u16_from_be_bytes, u16_to_be_bytes,
}

abbrev pub tcp_max_msg : ℕ
tcp_max_msg = 65535

-- How a connection ends: the loop was left, or the client closed it inside a message.
pub data End : Type 0 where
  left : End
  io_error : End

-- `(response.len() as u16).to_be_bytes()`, which cuts the length to 16 bits, and the response.
abbrev pub framed : Bytes → Bytes
framed response = u16_to_be_bytes (length response) ++ response

module _ {S E : Type 0} (handle : Bytes → S → Result E Bytes × S) where
  -- `handle_tcp_conn` on all that the client sends before it closes the connection, with what is
  -- written back. Silence between messages ends the loop as closing does. The reading of a message
  -- has no time-out: a client that falls silent inside one holds the task, and what it has sent is
  -- not such an input until it closes. Writing does not fail. A round takes two bytes off at least,
  -- so one round more than there are bytes is fuel enough.
  unfoldable pub conn_loop : ℕ → Bytes → Bytes → S → End × Bytes × S
  conn_loop zero input out s = (left, out, s)
  conn_loop (suc fuel) [] out s = (left, out, s)
  conn_loop (suc fuel) (hi ∷ []) out s = (left, out, s)
  conn_loop (suc fuel) (hi ∷ lo ∷ input) out s =
      let msg_len = u16_from_be_bytes hi lo in
      let (res, s') = handle (take msg_len input) s in
      let answered : End × Bytes × S = elim res [
        | ok response ↦ conn_loop fuel (drop msg_len input) (out ++ framed response) s'
        | err e ↦ (left, out, s')
      ] in
      if msg_len == 0 || ltb tcp_max_msg msg_len
      then (left, out, s)
      else if ltb (length input) msg_len
      then (io_error, out, s)
      else answered

  unfoldable pub handle_tcp_conn : Bytes → S → End × Bytes × S
  handle_tcp_conn input s = conn_loop (suc (length input)) input [] s
