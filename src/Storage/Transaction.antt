-- ===== src/Storage/Transaction.antt =====
-- The transactions of src/database/db_service.cpp: a body of statements between `tx` and
-- `tx.commit()`, and the `catch` around it.
pub mod Kept
pub mod Committed
pub mod Apart
use socket_prac.Prelude.{ℕ, suc, Option, none, some, Text}
use socket_prac.Core.ErrorCode.{Expected, unexpected}
use socket_prac.Storage.Tables.{Tables, Collation}
use socket_prac.Storage.Connector.{Exception, map_exception, constraint_violation}

-- Statements either give their rows or violate a constraint; both have their tables, since a
-- sequence keeps what it has handed out.
abbrev pub Sql : Type 0 → Type 0
Sql A = Tables → Option A × Tables

infixl 5 ◌>>=◌
abbrev pub ◌>>=◌ : {A B : Type 0} → Sql A → (A → Sql B) → Sql B
◌>>=◌ m f t = let (r, t') = m t in elim r [ none ↦ (none, t') | some a ↦ f a t' ]

abbrev pub pure : {A : Type 0} → A → Sql A
pure a t = (some a, t)

abbrev pub query : {A : Type 0} → (Tables → A) → Sql A
query f t = (some (f t), t)

abbrev pub violates : {A : Type 0} → Sql A
violates t = (none, t)

-- How the connection and the server serve a transaction.
pub data Outcome : Type 0 where
  -- to the end
  commits : Outcome
  -- not even the first statement
  fails_at_once : Exception → Outcome
  -- every statement, but not the commit
  fails_to_commit : Exception → Outcome
  -- it is committed, but the program does not hear of it
  commits_unheard : Exception → Outcome

-- A transaction that is rolled back leaves the rows as they were.
unfoldable pub roll_back : Tables → Tables → Tables
roll_back t t' = record t { room_seq = t'.room_seq; message_seq = t'.message_seq }

abbrev pub caught : {A : Type 0} → Exception → Expected A
caught ex = unexpected (map_exception ex)

-- `try{ … tx.commit(); return … } catch(const std::exception& ex){ … }`
unfoldable pub finish :
    {A : Type 0} → Outcome → Tables → Option (Expected A) × Tables → Expected A × Tables
unfolding roll_back map_exception
finish o t (none, t') = (caught constraint_violation, roll_back t t')
finish commits t (some r, t') = (r, t')
finish (fails_at_once ex) t (some r, t') = (caught ex, t)
finish (fails_to_commit ex) t (some r, t') = (caught ex, roll_back t t')
finish (commits_unheard ex) t (some r, t') = (caught ex, t')

unfoldable pub transact : {A : Type 0} → Outcome → Sql (Expected A) → Tables → Expected A × Tables
unfolding finish map_exception
transact o body t = elim o [ fails_at_once ex ↦ (caught ex, t) | other ↦ finish other t (body t) ]

-- What the database adds: the outcome of a transaction and its now(), by the number of the
-- transaction, the text of a time, and the order of texts.
pub record Server : Type 0 where
  pub outcome : ℕ → Outcome
  pub now : ℕ → ℕ
  pub timestamp : ℕ → Text
  pub collation : Collation

-- The tables, and how many transactions there were.
pub record Database : Type 0 where
  pub tables : Tables
  pub transactions : ℕ

-- The mutex of db_service makes one transaction of every call.
unfoldable pub run : {A : Type 0} → Server → Sql (Expected A) → Database → Expected A × Database
unfolding transact
run server body db =
    let (r, t) = transact (server.outcome db.transactions) body db.tables in
    (r, record db { tables = t; transactions = suc db.transactions })
