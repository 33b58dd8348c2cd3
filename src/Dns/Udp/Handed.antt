-- ===== src/Dns/Udp/Handed.antt =====
-- What the handler of backend/src/dns/server.rs gets to see of the datagrams.
use denis.Base.{
  take-min, ℕ, zero, suc, ◌≤◌, List, [], ◌∷◌, ◌++◌, Result, length, length-append, length-take,
  take, drop, min, map, take-append, ◌≡◌, refl, sym, ap, ◌∙◌, arith,
}
use denis.Dns.Udp.{
  ServerConfig, Buffer, Capacities, repeat, get, resize, recv_from, truncate, Serving, receive,
  finish,
}

length-repeat : (n : ℕ) → length (repeat n (zero)) ≡ n
unfolding repeat
length-repeat zero = refl
length-repeat (suc n) = ap suc (length-repeat n)

pub take-take_append :
    (n m : ℕ) (xs ys : List ℕ) → n ≤ length xs → m ≡ n → take m (take n xs ++ ys) ≡ take n xs
take-take_append n m xs ys h e =
    let size : length (take n xs) ≡ m = length-take n xs ∙ omega (arith, h, e) in
    ap (λ (k : ℕ). take k (take n xs ++ ys)) (sym size) ∙ take-append (take n xs) ys

-- What happens to the server, in any order: a datagram arrives, or the handler of a task returns.
pub data Event (Addr Failure : Type 0) : Type 0 where
  arrives : List ℕ → Addr → Event Addr Failure
  returns : ℕ → Result Failure (List ℕ) → Event Addr Failure

module _ (caps : Capacities) where
  length-resize : (n : ℕ) (buf : Buffer) → length (resize caps n buf).bytes ≡ n
  unfolding resize
  length-resize n buf =
      length-take n (buf.bytes ++ repeat n 0)
      ∙ omega (arith, length-append buf.bytes (repeat n 0), length-repeat n)

  pub receive-take :
      {Addr : Type 0} (config : ServerConfig Addr) (datagram : List ℕ) (src : Addr)
      (s : Serving Addr)
      → (receive caps config datagram src s).0 ≡ take config.buffer_size datagram
  unfolding receive recv_from truncate
  receive-take config datagram src s =
      let buf = resize caps config.buffer_size (get caps s.buffers).0 in
      let size = length-resize config.buffer_size (get caps s.buffers).0 in
      take-take_append (min (length datagram) (length buf.bytes))
        (min (length datagram) (length buf.bytes)) datagram
        (drop (min (length datagram) (length buf.bytes)) buf.bytes) (omega arith) refl
      ∙ ap (λ (k : ℕ). take (min (length datagram) k) datagram) size
      ∙ take-min config.buffer_size datagram

module _ (caps : Capacities) {Addr Failure : Type 0} where
  -- What the handler is given, in the order of arrival, and the state at the end.
  unfoldable pub run_udp :
      ServerConfig Addr → List (Event Addr Failure) → Serving Addr → List (List ℕ) × Serving Addr
  run_udp config [] s = ([], s)
  run_udp config (arrives datagram src ∷ events) s =
      let (given, s') = receive caps config datagram src s in
      let (more, after) = run_udp config events s' in (given ∷ more, after)
  run_udp config (returns i result ∷ events) s = run_udp config events (finish caps i result s)

  unfoldable pub datagrams : List (Event Addr Failure) → List (List ℕ)
  datagrams [] = []
  datagrams (arrives datagram src ∷ events) = datagram ∷ datagrams events
  datagrams (returns i result ∷ events) = datagrams events

  -- Whatever is left in the buffers, and in whatever order the tasks end, the handler is given
  -- each datagram in the order of arrival, cut to the size of a buffer, and no byte of another.
  pub run_udp-datagrams :
      (config : ServerConfig Addr) (events : List (Event Addr Failure)) (s : Serving Addr)
      → (run_udp config events s).0 ≡ map (take config.buffer_size) (datagrams events)
  unfolding run_udp datagrams
  run_udp-datagrams config [] s = refl
  run_udp-datagrams config (arrives datagram src ∷ events) s =
      ap (λ given. given ∷ (run_udp config events (receive caps config datagram src s).1).0)
        (receive-take caps config datagram src s)
      ∙ ap (◌∷◌ (take config.buffer_size datagram))
          (run_udp-datagrams config events (receive caps config datagram src s).1)
  run_udp-datagrams config (returns i result ∷ events) s =
      run_udp-datagrams config events (finish caps i result s)
