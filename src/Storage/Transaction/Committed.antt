-- ===== src/Storage/Transaction/Committed.antt =====
-- What a call of db_service that succeeds, or fails, tells of its transaction.
use socket_prac.Prelude.{◌≡◌, refl, ap, sym, ◌⊎◌, inl, inr, Option, none, some, arith}
use socket_prac.Core.ErrorCode.{ErrorCode, Expected, ok, unexpected}
use socket_prac.Storage.Tables.{Tables}
use socket_prac.Storage.Connector.{Exception, map_exception}
use socket_prac.Storage.Transaction.{
  Sql, Outcome, commits, fails_at_once, fails_to_commit, commits_unheard, roll_back, finish,
  transact, Server, Database, run,
}

module _ {A : Type 0} where
  finish-ok :
      (o : Outcome) (t : Tables) (r : Option (Expected A) × Tables) (a : A)
      → (finish o t r).0 ≡ ok a
      → r ≡ (some (ok a), (finish o t r).1)
  unfolding finish
  finish-ok o t (none, t') a e = ground arith
  finish-ok commits t (some r, t') a e = ap (λ (x : Expected A). (some x, t')) e
  finish-ok (fails_at_once ex) t (some r, t') a e = ground arith
  finish-ok (fails_to_commit ex) t (some r, t') a e = ground arith
  finish-ok (commits_unheard ex) t (some r, t') a e = ground arith

  transact-ok :
      (o : Outcome) (body : Sql (Expected A)) (t : Tables) (a : A)
      → (transact o body t).0 ≡ ok a
      → body t ≡ (some (ok a), (transact o body t).1)
  unfolding transact
  transact-ok commits body t a e = finish-ok commits t (body t) a e
  transact-ok (fails_at_once ex) body t a e = ground arith
  transact-ok (fails_to_commit ex) body t a e = finish-ok (fails_to_commit ex) t (body t) a e
  transact-ok (commits_unheard ex) body t a e = finish-ok (commits_unheard ex) t (body t) a e

  -- A call that answers has run its statements to the end, over the tables that it leaves.
  pub run-ok :
      (server : Server) (body : Sql (Expected A)) (db : Database) (a : A)
      → (run server body db).0 ≡ ok a
      → body db.tables ≡ (some (ok a), (run server body db).1.tables)
  unfolding run
  run-ok server body db a e = transact-ok (server.outcome db.transactions) body db.tables a e

-- The rows of all tables; only the sequences may differ.
pub record SameRows (t t' : Tables) : Type 0 where
  pub users : t'.users ≡ t.users
  pub friendships : t'.friendships ≡ t.friendships
  pub friend_requests : t'.friend_requests ≡ t.friend_requests
  pub rooms : t'.rooms ≡ t.rooms
  pub room_members : t'.room_members ≡ t.room_members
  pub messages : t'.messages ≡ t.messages

SameRows-refl : (t : Tables) → SameRows t t
SameRows-refl t = record {
  users = refl;
  friendships = refl;
  friend_requests = refl;
  rooms = refl;
  room_members = refl;
  messages = refl;
}

roll_back-SameRows : (t t' : Tables) → SameRows t (roll_back t t')
unfolding roll_back
roll_back-SameRows t t' = record {
  users = refl;
  friendships = refl;
  friend_requests = refl;
  rooms = refl;
  room_members = refl;
  messages = refl;
}

-- The transaction was committed and the program has not heard of it.
pub data Unheard : Outcome → ErrorCode → Type 0 where
  unheard : (ex : Exception) → Unheard (commits_unheard ex) (map_exception ex)

module _ {A : Type 0} where
  finish-unexpected :
      (o : Outcome) (t : Tables) (r : Option (Expected A) × Tables) (ec : ErrorCode)
      → (finish o t r).0 ≡ unexpected ec
      → SameRows t (finish o t r).1 ⊎ (r.0 ≡ some (unexpected ec)) ⊎ Unheard o ec
  unfolding finish
  finish-unexpected o t (none, t') ec e = inl (roll_back-SameRows t t')
  finish-unexpected commits t (some r, t') ec e = inr (inl (ap some e))
  finish-unexpected (fails_at_once ex) t (some r, t') ec e = inl (SameRows-refl t)
  finish-unexpected (fails_to_commit ex) t (some r, t') ec e = inl (roll_back-SameRows t t')
  finish-unexpected (commits_unheard ex) t (some r, t') ec e = inr (inr (heard ec (cc e)))
    where
      heard : (ec : ErrorCode) → map_exception ex ≡ ec → Unheard (commits_unheard ex) ec
      heard ec same = rw (sym same) (unheard ex)

  transact-unexpected :
      (o : Outcome) (body : Sql (Expected A)) (t : Tables) (ec : ErrorCode)
      → (transact o body t).0 ≡ unexpected ec
      → SameRows t (transact o body t).1 ⊎ ((body t).0 ≡ some (unexpected ec)) ⊎ Unheard o ec
  unfolding transact
  transact-unexpected commits body t ec e = finish-unexpected commits t (body t) ec e
  transact-unexpected (fails_at_once ex) body t ec e = inl (SameRows-refl t)
  transact-unexpected (fails_to_commit ex) body t ec e =
      finish-unexpected (fails_to_commit ex) t (body t) ec e
  transact-unexpected (commits_unheard ex) body t ec e =
      finish-unexpected (commits_unheard ex) t (body t) ec e

  -- A call that fails leaves every row as it was, unless its own statements gave the error, or the
  -- transaction was committed and the program did not hear of it.
  pub run-unexpected :
      (server : Server) (body : Sql (Expected A)) (db : Database) (ec : ErrorCode)
      → (run server body db).0 ≡ unexpected ec
      → SameRows db.tables (run server body db).1.tables
        ⊎ ((body db.tables).0 ≡ some (unexpected ec))
        ⊎ Unheard (server.outcome db.transactions) ec
  unfolding run
  run-unexpected server body db ec e =
      transact-unexpected (server.outcome db.transactions) body db.tables ec e
