-- ===== src/Dns/Udp.antt =====
-- backend/src/dns/server.rs and backend/src/dns/config.rs: the pool of buffers, and the loop of
-- `serve_udp` with the tasks that it starts.
pub mod Handed
use denis.Base.{
  ℕ, zero, suc, ◌+◌, ◌*◌, Option, none, some, List, [], ◌∷◌, ◌++◌, Result, ok, err, length, take,
  drop, min, leb, if◌then◌else◌, pick,
}

abbrev pub udp_buffer_size : ℕ
udp_buffer_size = 512

abbrev pub udp_buffer_count : ℕ
udp_buffer_count = 1000

pub record ServerConfig (Addr : Type 0) : Type 0 where
  pub bind_addr : Addr
  pub buffer_size : ℕ
  pub buffer_count : ℕ

-- `BytesMut`
pub record Buffer : Type 0 where
  pub bytes : List ℕ
  pub capacity : ℕ

-- The capacities that the crate `bytes` gives: to a new buffer for so many bytes, and to a buffer
-- of a capacity that is to hold so many bytes.
pub record Capacities : Type 0 where
  pub with_capacity : ℕ → ℕ
  pub reserve : ℕ → ℕ → ℕ

unfoldable pub repeat {ℓ} : {A : Type ℓ} → ℕ → A → List A
repeat zero a = []
repeat (suc n) a = a ∷ repeat n a

-- The buffers of a `BufferPool`, with the one that is taken next in front, and its size.
pub record BufferPool : Type 0 where
  pub pool : List Buffer
  pub buffer_size : ℕ

-- The pool, the buffers of the tasks that have not ended with where each came from, and what has
-- been sent.
pub record Serving (Addr : Type 0) : Type 0 where
  pub buffers : BufferPool
  pub tasks : List (Buffer × Addr)
  pub sent : List (List ℕ × Addr)

abbrev pub reply :
    {Addr Failure : Type 0}
    → Result Failure (List ℕ)
    → Addr
    → List (List ℕ × Addr)
    → List (List ℕ × Addr)
reply (ok res) src sent = sent ++ (res, src) ∷ []
reply (err e) src sent = sent

-- `recv_from`: what fits of a datagram is written over the first bytes. The result has the number
-- of these.
unfoldable pub recv_from : List ℕ → Buffer → ℕ × Buffer
recv_from datagram buf =
    let len = min (length datagram) (length buf.bytes) in
    (len, record buf { bytes = take len datagram ++ drop len buf.bytes })

unfoldable pub truncate : ℕ → Buffer → Buffer
truncate n buf = record buf { bytes = take n buf.bytes }

-- `BufferPool::put`
unfoldable pub put : Buffer → BufferPool → BufferPool
put buf p =
    if leb buf.capacity (p.buffer_size * 2)
    then record p { pool = record buf { bytes = [] } ∷ p.pool }
    else p

module _ (caps : Capacities) where
  -- `BytesMut::zeroed`
  unfoldable pub zeroed : ℕ → Buffer
  zeroed n = record { bytes = repeat n 0; capacity = caps.with_capacity n }

  -- `BufferPool::new`
  unfoldable pub new_pool : ℕ → ℕ → BufferPool
  new_pool buffer_size initial_count = record {
    pool = repeat initial_count (zeroed buffer_size);
    buffer_size = buffer_size;
  }

  abbrev taken : ℕ → List Buffer → Buffer × List Buffer
  taken size [] = (record { bytes = []; capacity = caps.with_capacity size }, [])
  taken size (b ∷ rest) = (b, rest)

  -- `BufferPool::get`
  unfoldable pub get : BufferPool → Buffer × BufferPool
  get p = let (buf, rest) = taken p.buffer_size p.pool in (buf, record p { pool = rest })

  -- `resize`, with zeros for new bytes.
  unfoldable pub resize : ℕ → Buffer → Buffer
  resize n buf = record {
    bytes = take n (buf.bytes ++ repeat n 0);
    capacity = if leb n buf.capacity then buf.capacity else caps.reserve buf.capacity n;
  }

  -- A round of the loop: the bytes that the new task gives to the handler.
  unfoldable pub receive :
      {Addr : Type 0} → ServerConfig Addr → List ℕ → Addr → Serving Addr → List ℕ × Serving Addr
  receive config datagram src s =
      let (taken_buf, rest) = get s.buffers in
      let (len, filled) = recv_from datagram (resize config.buffer_size taken_buf) in
      let buf = truncate len filled in
      (buf.bytes, record s { buffers = rest; tasks = s.tasks ++ (buf, src) ∷ [] })

  -- The end of the task numbered i, once the handler has returned.
  unfoldable pub finish :
      {Addr Failure : Type 0} → ℕ → Result Failure (List ℕ) → Serving Addr → Serving Addr
  finish i result s =
      let (found, others) = pick i s.tasks in
      elim found [
        | none ↦ s
        | some task ↦
            let (buf, src) = task in
            record { buffers = put buf s.buffers; tasks = others; sent = reply result src s.sent }
      ]
