-- ===== src/Analytics/Consumer/Batches.antt =====
-- What becomes of the rows in the batches of backend/src/analytics/consumer.rs.
use denis.Analytics.Consumer.{
  Reading, DnsQueryRow, ClickHouse, Round, received, receive_error, tick, batch_size, Consuming,
  write_rows, flush_batch, decoded, push_row, flush_some, flush_rest, on_round, run_rounds,
}
use denis.Base.{
  ℕ, suc, ◌<◌, true, Option, none, some, List, [], ◌∷◌, ◌++◌, length, length-append, leb, ◌≡◌, inl,
  inr, refl, sym, ap, ◌∙◌, arith, Bool-cases, Option-cases,
}
use mathlib.Core.List.{append_assoc, append-nil}

-- A server that never fails: a new insert is empty, writing adds a row to it, and its end stores
-- its rows behind those of the table.
pub record Healthy (ch : ClickHouse) : Type 0 where
  pub holds : ch.Insert → List DnsQueryRow
  pub insert_some : (s : ch.Server) → (i : ch.Insert) × (ch.insert s ≡ some i) × (holds i ≡ [])
  pub write_holds :
      (row : DnsQueryRow) (i : ch.Insert) → holds (ch.write row i).1 ≡ holds i ++ row ∷ []
  pub end_rows : (i : ch.Insert) (s : ch.Server) → ch.rows (ch.end i s).1 ≡ ch.rows s ++ holds i

module _ (ch : ClickHouse) where
  -- The rows in the table, with those in the batch behind them.
  unfoldable pub stored_rows : Consuming ch → List DnsQueryRow
  stored_rows s = ch.rows s.server ++ s.batch

  flush_batch-empty : (batch : List DnsQueryRow) (s : ch.Server) → (flush_batch ch batch s).0 ≡ []
  unfolding flush_batch
  flush_batch-empty batch s = elim (Option-cases (ch.insert s)) [
    | inl e ↦ rw (flush_batch, e) refl
    | inr (i, e) ↦ rw (flush_batch, e) refl
  ]

  module _ (healthy : Healthy ch) where
    write_rows-holds :
        (rows : List DnsQueryRow) (i : ch.Insert)
        → healthy.holds (write_rows ch rows i) ≡ healthy.holds i ++ rows
    unfolding write_rows
    write_rows-holds [] i = sym (append-nil (healthy.holds i))
    write_rows-holds (row ∷ rows) i =
        write_rows-holds rows (ch.write row i).1
        ∙ ap (λ held. held ++ rows) (healthy.write_holds row i)
        ∙ append_assoc (healthy.holds i) (row ∷ []) rows

    pub flush_batch-rows :
        (batch : List DnsQueryRow) (s : ch.Server)
        → ch.rows (flush_batch ch batch s).1 ≡ ch.rows s ++ batch
    unfolding flush_batch
    flush_batch-rows batch s =
        let (i, some_i, none_held) = healthy.insert_some s in
        rw (flush_batch, some_i)
          (healthy.end_rows (write_rows ch batch i) s
            ∙ ap (◌++◌ (ch.rows s))
                (write_rows-holds batch i ∙ ap (λ held. held ++ batch) none_held))

  module _ (reading : Reading) where
    -- The rows of the messages among some rounds that can be read.
    abbrev pub row_list : Option DnsQueryRow → List DnsQueryRow
    row_list none = []
    row_list (some row) = row ∷ []

    unfoldable pub round_rows : Round → List DnsQueryRow
    round_rows (received m) = row_list (decoded ch reading m)
    round_rows receive_error = []
    round_rows tick = []

    unfoldable pub rounds_rows : List Round → List DnsQueryRow
    rounds_rows [] = []
    rounds_rows (r ∷ rounds) = round_rows r ++ rounds_rows rounds

    push_row-bound :
        (offset : ℕ) (row : DnsQueryRow) (s : Consuming ch)
        → length (push_row ch reading offset row s).batch < batch_size
    unfolding push_row
    push_row-bound offset row s =
        elim (Bool-cases (leb batch_size (length (s.batch ++ row ∷ [])))) [
          | inl full ↦ rw (full, flush_batch-empty (s.batch ++ row ∷ []) s.server) (omega arith)
          | inr room ↦ rw room (ground (arith, room))
        ]

    flush_some-bound :
        (b : List DnsQueryRow) (s : Consuming ch)
        → length s.batch < batch_size
        → length (flush_some ch reading b s).batch < batch_size
    flush_some-bound [] s h = h
    flush_some-bound (row ∷ rows) s h = rw (flush_batch-empty s.batch s.server) (omega arith)

    on_round-bound :
        (r : Round) (s : Consuming ch)
        → length s.batch < batch_size
        → length (on_round ch reading r s).batch < batch_size
    unfolding on_round flush_rest
    on_round-bound (received m) s h = elim (Option-cases (decoded ch reading m)) [
      | inl e ↦ rw e h
      | inr (row, e) ↦ rw e (push_row-bound m.offset row s)
    ]
    on_round-bound receive_error s h = h
    on_round-bound tick s h = flush_some-bound s.batch s h

    -- A batch that holds fewer than 1,000 rows does so after any rounds, whatever the server does.
    pub run_rounds-bound :
        (rounds : List Round) (s : Consuming ch)
        → length s.batch < batch_size
        → length (run_rounds ch reading rounds s).batch < batch_size
    unfolding run_rounds
    run_rounds-bound [] s h = h
    run_rounds-bound (r ∷ rounds) s h =
        run_rounds-bound rounds (on_round ch reading r s) (on_round-bound r s h)

    module _ (healthy : Healthy ch) where
      flushed-rows :
          (batch : List DnsQueryRow) (s : ch.Server)
          → ch.rows (flush_batch ch batch s).1 ++ (flush_batch ch batch s).0 ≡ ch.rows s ++ batch
      flushed-rows batch s =
          rw (flush_batch-empty batch s)
            (append-nil (ch.rows (flush_batch ch batch s).1) ∙ flush_batch-rows healthy batch s)

      push_row-rows :
          (offset : ℕ) (row : DnsQueryRow) (s : Consuming ch)
          → stored_rows (push_row ch reading offset row s) ≡ stored_rows s ++ row ∷ []
      unfolding push_row stored_rows
      push_row-rows offset row s =
          let behind : ch.rows s.server ++ (s.batch ++ row ∷ [])
              ≡ (ch.rows s.server ++ s.batch) ++ row ∷ [] =
            sym (append_assoc (ch.rows s.server) s.batch (row ∷ [])) in
          elim (Bool-cases (leb batch_size (length (s.batch ++ row ∷ [])))) [
            | inl full ↦ rw full (flushed-rows (s.batch ++ row ∷ []) s.server ∙ behind)
            | inr room ↦ rw room behind
          ]

      flush_some-rows :
          (b : List DnsQueryRow) (s : Consuming ch)
          → stored_rows (flush_some ch reading b s) ≡ stored_rows s
      unfolding stored_rows
      flush_some-rows [] s = refl
      flush_some-rows (row ∷ rows) s = flushed-rows s.batch s.server

      on_round-rows :
          (r : Round) (s : Consuming ch)
          → stored_rows (on_round ch reading r s) ≡ stored_rows s ++ round_rows r
      unfolding on_round round_rows flush_rest
      on_round-rows (received m) s = elim (Option-cases (decoded ch reading m)) [
        | inl e ↦ rw e (sym (append-nil (stored_rows s)))
        | inr (row, e) ↦ rw e (push_row-rows m.offset row s)
      ]
      on_round-rows receive_error s = sym (append-nil (stored_rows s))
      on_round-rows tick s = flush_some-rows s.batch s ∙ sym (append-nil (stored_rows s))

      -- On a server that never fails, the rows in the table followed by those in the batch are,
      -- after any rounds, what they were before with the rows of the messages that could be read
      -- behind them, in the order of receiving.
      pub run_rounds-rows :
          (rounds : List Round) (s : Consuming ch)
          → stored_rows (run_rounds ch reading rounds s) ≡ stored_rows s ++ rounds_rows rounds
      unfolding run_rounds rounds_rows
      run_rounds-rows [] s = sym (append-nil (stored_rows s))
      run_rounds-rows (r ∷ rounds) s =
          run_rounds-rows rounds (on_round ch reading r s)
          ∙ ap (λ front. front ++ rounds_rows rounds) (on_round-rows r s)
          ∙ append_assoc (stored_rows s) (round_rows r) (rounds_rows rounds)

    -- Where no insert can be opened, a row that fills the batch is dropped with the whole batch,
    -- and its message is committed all the same.
    pub push_row-lost :
        (offset : ℕ) (row : DnsQueryRow) (s : Consuming ch)
        → ch.insert s.server ≡ none
        → suc (length s.batch) ≡ batch_size
        → push_row ch reading offset row s
          ≡ record { batch = []; server = s.server; commits = offset ∷ s.commits }
    unfolding push_row flush_batch
    push_row-lost offset row s down full =
        let filled : leb batch_size (length (s.batch ++ row ∷ [])) ≡ true =
          ground (arith, full, length-append s.batch (row ∷ [])) in
        rw (filled, flush_batch, down) refl
