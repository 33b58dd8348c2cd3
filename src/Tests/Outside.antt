-- ===== src/Tests/Outside.antt =====
-- What lies outside of the program, for the examples: crates and servers that are told apart by
-- little.
use denis.Analytics.Clients.{Rdkafka, ChClient}
use denis.Analytics.Metrics.{new_metrics}
use denis.Analytics.Stats.{Kafka, Query}
use denis.Api.Router.{Outside, Moment, ApiState}
use denis.Base.{
  take, length, ℕ, true, false, none, some, List, [], ◌∷◌, ok, err, length, take, drop,
}
use denis.Base.Int.{ℤ, pos}
use denis.Repo.Pages.{Paging, Table, blocked_table, allowed_table}
use denis.Startup.Launch.{Socket2}
use denis.Tests.Accounting.{accounts, plain, digest, at_second, state}
use denis.Tests.Managing.{row, json, unicode, show}
use denis.Tests.Samples.{Tables, tables}
use denis.Tests.Serving.{config}
use denis.Text.{Str, codes}

-- The rows of a table are taken to be in their order.
abbrev rows_of : Table → Tables → List Str
rows_of blocked_table p = p.0
rows_of allowed_table p = p.1

abbrev page : Table → ℤ → ℤ → Tables → List Str
page t (pos limit) (pos offset) p = take limit (drop offset (rows_of t p))
page t _ _ p = []

abbrev pub paging : Paging Tables
paging = record {
  create_table = λ t p. ok p;
  select_page = λ t limit offset p. ok (page t limit offset p);
  count_rows = λ t p. ok (length (rows_of t p));
  ordered = rows_of;
}

abbrev query : Query
query = record {
  F64 = ℕ;
  zero_f64 = 0;
  is_finite = λ f. true;
  fetch_one_u64 = λ figure. none;
  fetch_one_f64 = λ figure. none;
  fetch = λ figure. none;
}

abbrev no_kafka : Kafka
no_kafka = record {
  Consumer = ℕ;
  create = λ s. none;
  fetch_metadata = λ c. none;
  committed = λ pids c. none;
  fetch_watermarks = λ pid c. none;
}

abbrev pub outside : Outside
outside = record {
  db = tables;
  pages = paging;
  show = show;
  unicode = unicode;
  fetch_url = λ url. err [];
  is_ip = λ word. false;
  table = row;
  json = json;
  accounts = accounts;
  argon = plain;
  sha256 = digest;
  encode = λ m. [];
  query = query;
  kafka = no_kafka;
}

abbrev pub moment : ℕ → Moment
moment n = record {
  now = at_second n;
  bytes = 1 ∷ 171 ∷ [];
  salt = [];
  entries = 0;
  finished = true;
}

abbrev pub api : ApiState outside
api = record {
  cache = record {
    block_list = [];
    allow_list = [];
    pool = (codes "a.io" ∷ codes "b.io" ∷ codes "c.io" ∷ [], []);
  };
  brokers = none;
  metrics = some new_metrics;
  settings = record { config = config; pool = none };
  auth = state;
}

-- Clients that are told apart by nothing.
abbrev pub rdkafka : Rdkafka
rdkafka = record {
  Producer = ℕ;
  Consumer = ℕ;
  create_producer = λ settings. ok 0;
  create_consumer = λ settings. ok 0;
  subscribe = λ topics c. ok c;
}

abbrev pub clickhouse : ChClient
clickhouse = record {
  Client = ℕ;
  default = 0;
  with_url = λ url c. c;
  with_user = λ user c. c;
  with_password = λ password c. c;
}

-- Sockets that are told apart by nothing.
abbrev pub plain_sockets : Socket2
plain_sockets = record {
  Sock = ℕ;
  new = λ addr. ok addr;
  set_reuse_address = λ s. ok s;
  set_reuse_port = λ s. ok s;
  set_nonblocking = λ s. ok s;
  bind = λ addr s. ok s;
}

abbrev pub no_digits : ℕ → Str
no_digits n = codes "7"
