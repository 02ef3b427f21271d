-- ===== src/Storage/Service/Login.antt =====
-- A login over the tables, from the task to the rooms of the connection.
use socket_prac.Prelude.{suc, int_eq}
use socket_prac.Reactor.Registry.State.{Registry}
use socket_prac.Storage.Transaction.{Database}

-- One more transaction over the same tables.
abbrev pub after_query : Database → Database
after_query db = record db { transactions = suc db.transactions }
