-- ===== src/Witnesses/Storage.antt =====
-- The theorems on the tables of the database, at a small database.
use socket_prac.Prelude.{
  ◌≡◌, refl, ◌⊎◌, inl, inr, pos, Bool, true, false, ◌&&◌, [], ◌∷◌, Bool-cases, Each, Text, codes,
  ltb, eqb, text_eq, int_eq, contains, if◌then◌else◌, arith,
}
use socket_prac.Core.ErrorCode.{ok}
use socket_prac.Protocol.Codec.{cmd_say}
use socket_prac.Reactor.Registry.State.{Registry, empty_registry}
use socket_prac.Storage.Select.{exists}
use socket_prac.Storage.Tables.{Tables, Collation, pending, accepted, owner, is_request, has_member}
use socket_prac.Storage.Connector.{Exception}
use socket_prac.Storage.Transaction.{Server, Database, commits, fails_to_commit}
use socket_prac.Storage.Friends.{
  are_friends, is_pending, select_friends, remove_friend, accept_friend_request, request_friend,
}
use socket_prac.Storage.Friends.Requests.{IsConsented}
use socket_prac.Storage.Rooms.{list_room_messages}
use socket_prac.Storage.Rooms.Sound.{IsSound}
use socket_prac.Storage.Service.{db_service}
use socket_prac.Storage.Keys.{IsKeyed}
use socket_prac.Storage.Service.Atomic.{Atomic, db_service-Atomic}
use socket_prac.Storage.Service.Valid.{IsValid}
use socket_prac.Storage.Service.Invariants.{execute_in_order-IsValid}
use socket_prac.Storage.Service.Authority.{Authorised, execute-Authorised}
use socket_prac.Storage.Service.Friendship.{accept_friends, remove_friends, request_friend-refused}
use socket_prac.Storage.Service.Page.{Page}
use socket_prac.Storage.Service.History.{list_room_messages-Page}
use socket_prac.Database.Executor.{Task, execute}
use socket_prac.Database.Executor.Queue.{execute_in_order}
use socket_prac.Witnesses.Data.{member as connection}

-- The order of bytes, as of the collation "C".
abbrev byte_before : Text → Text → Bool
byte_before [] [] = false
byte_before [] (y ∷ ys) = true
byte_before (x ∷ xs) [] = false
byte_before (x ∷ xs) (y ∷ ys) = if ltb x y then true else (eqb x y && byte_before xs ys)

byte_irreflexive : (a : Text) → byte_before a a ≡ false
byte_irreflexive [] = refl
byte_irreflexive (x ∷ xs) = ground (arith, byte_irreflexive xs)

byte_asymmetric : (a b : Text) → byte_before a b ≡ true → byte_before b a ≡ false
byte_asymmetric [] [] e = refl
byte_asymmetric [] (y ∷ ys) e = refl
byte_asymmetric (x ∷ xs) [] e = ground arith
byte_asymmetric (x ∷ xs) (y ∷ ys) e = ground (arith, byte_asymmetric xs ys)

byte_trichotomous : (a b : Text) → (byte_before a b ≡ true) ⊎ (byte_before b a ≡ true) ⊎ (a ≡ b)
byte_trichotomous [] [] = inr (inr refl)
byte_trichotomous [] (y ∷ ys) = inl refl
byte_trichotomous (x ∷ xs) [] = inr (inl refl)
byte_trichotomous (x ∷ xs) (y ∷ ys) = elim (Bool-cases (ltb x y)) [
  | inl less ↦ inl (ground arith)
  | inr ge ↦ elim (Bool-cases (ltb y x)) [
    | inl more ↦ inr (inl (ground arith))
    | inr le ↦ elim (byte_trichotomous xs ys) [
      | inl h ↦ inl (ground arith)
      | inr (inl h) ↦ inr (inl (ground arith))
      | inr (inr e) ↦ inr (inr (ground arith))
    ]
  ]
]

abbrev bytes : Collation
bytes = record {
  before = byte_before;
  irreflexive = byte_irreflexive;
  asymmetric = byte_asymmetric;
  trichotomous = byte_trichotomous;
}

-- Everything is committed, and time is the number of the transaction.
abbrev calm_server : Server
calm_server = record {
  outcome = λ n. commits;
  now = λ n. n;
  timestamp = λ n. codes "now";
  collation = bytes;
}

abbrev no_rows : Tables
no_rows = record {
  users = [];
  friendships = [];
  friend_requests = [];
  rooms = [];
  room_members = [];
  messages = [];
  room_seq = 1;
  message_seq = 1;
}

-- Two users, a request, and a room of the first with a message.
abbrev den_tables : Tables
den_tables = record {
  users =
      record { id = codes "ann"; pw = codes "pw"; nickname = codes "Ann" }
      ∷ record { id = codes "bob"; pw = codes "wp"; nickname = codes "Bob" }
      ∷ [];
  friendships = [];
  friend_requests =
      record {
        from_user_id = codes "bob";
        to_user_id = codes "ann";
        status = pending;
        created_at = 3;
        updated_at = 3;
      }
      ∷ [];
  rooms = record { id = pos 1; name = codes "den"; owner_user_id = codes "ann" } ∷ [];
  room_members = record { room_id = pos 1; user_id = codes "ann"; role = owner } ∷ [];
  messages =
      record {
        id = pos 1;
        room_id = pos 1;
        sender_user_id = codes "ann";
        body = codes "hi";
        created_at = 4;
      }
      ∷ [];
  room_seq = 2;
  message_seq = 2;
}

abbrev den : Database
den = record { tables = den_tables; transactions = 5 }

den-IsSound : IsSound den_tables
unfolding exists
den-IsSound = record {
  owners = (refl, tt);
  homes = (refl, tt);
  threads = (refl, tt);
  drawn = (refl, tt);
  numbered = (refl, tt);
  distinct = (refl, tt);
}

den-IsConsented : IsConsented bytes den_tables
den-IsConsented = record { consent = tt; ordered = tt }

den-IsKeyed : IsKeyed den_tables
unfolding exists
den-IsKeyed = record {
  users = (refl, (refl, tt));
  friendships = tt;
  friend_requests = (refl, tt);
  room_members = (refl, tt);
  messages = (refl, tt);
  numbered = (refl, tt);
  friends = tt;
  requesters = ((refl, refl), tt);
  owners = (refl, tt);
  joined = (refl, tt);
  senders = (refl, tt);
}

abbrev ann_says : Task
ann_says = record { cmd = cmd_say (codes "1") (codes "ho"); fd = pos 5; user_id = codes "ann" }

execute_in_order-IsValid_example :
    IsValid bytes (execute_in_order (db_service calm_server) (ann_says ∷ []) den).1.tables
execute_in_order-IsValid_example =
    execute_in_order-IsValid calm_server (ann_says ∷ []) den
      (record { sound = den-IsSound; consented = den-IsConsented; keyed = den-IsKeyed })

execute-Authorised_example :
    Each (Authorised calm_server ann_says den) (execute (db_service calm_server) ann_says den).0
execute-Authorised_example = execute-Authorised calm_server ann_says den

accept_friends_example :
    (exists
        (λ r. is_request (codes "bob") (codes "ann") r && is_pending r.status)
        den_tables.friend_requests
      ≡ true)
    × (contains (codes "ann") (
          select_friends bytes
            (codes "bob")
            (accept_friend_request calm_server (codes "bob") (codes "ann") den).1.tables)
        ≡ true)
    × (contains (codes "bob") (
          select_friends bytes
            (codes "ann")
            (accept_friend_request calm_server (codes "bob") (codes "ann") den).1.tables)
        ≡ true)
unfolding accept_friend_request
accept_friends_example =
    accept_friends calm_server (codes "bob") (codes "ann") den den-IsConsented refl

remove_friends_example :
    (contains (codes "bob") (
        select_friends bytes
          (codes "ann")
          (remove_friend calm_server (codes "ann") (codes "bob") den).1.tables)
      ≡ false)
    × (contains (codes "ann") (
          select_friends bytes
            (codes "bob")
            (remove_friend calm_server (codes "ann") (codes "bob") den).1.tables)
        ≡ false)
unfolding remove_friend
remove_friends_example =
    remove_friends calm_server (codes "ann") (codes "bob") den false den-IsConsented refl

-- The request of den_tables accepted, and the friendship over.
abbrev parted : Database
parted = record den {
  tables = record den_tables {
    friend_requests =
        record {
          from_user_id = codes "bob";
          to_user_id = codes "ann";
          status = accepted;
          created_at = 3;
          updated_at = 5;
        }
        ∷ [];
  };
}

request_friend-refused_example :
    ¬ ((request_friend calm_server (codes "bob") (codes "ann") parted).0 ≡ ok true)
unfolding are_friends exists
request_friend-refused_example =
    request_friend-refused calm_server (codes "bob") (codes "ann") parted refl refl (λ _. refl, tt)

list_room_messages-Page_example :
    (has_member (pos 1) (codes "ann") den_tables ≡ true)
    × Page den_tables (pos 1) 20 (
        record {
          id = pos 1;
          sender_user_id = codes "ann";
          body = codes "hi";
          created_at = codes "now";
        }
        ∷ [])
unfolding list_room_messages
list_room_messages-Page_example =
    list_room_messages-Page calm_server (codes "ann") (pos 1) 20 den _ refl

abbrev ann_registry : Registry
ann_registry = record empty_registry { infos = (pos 5, connection) ∷ [] }

abbrev lost_connection : Exception
lost_connection = record {
  is_broken_connection = true;
  is_in_doubt_error = false;
  is_transaction_rollback = false;
  is_sql_error = false;
}

-- The first transaction after den is lost at its commit, the others are committed.
abbrev rough_server : Server
rough_server = record calm_server {
  outcome = λ n. if eqb n 5 then fails_to_commit lost_connection else commits;
}

db_service-Atomic_example : Atomic rough_server (db_service rough_server)
db_service-Atomic_example = db_service-Atomic rough_server
