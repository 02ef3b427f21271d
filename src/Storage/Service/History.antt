-- ===== src/Storage/Service/History.antt =====
-- What list_room_messages of db_service gives.
use socket_prac.Prelude.{
  ◌≡◌, ℕ, ℤ, pos, true, Option, some, List, map, Text, text_eq, int_eq, inl, inr, Bool-cases, arith,
}
use socket_prac.Core.ErrorCode.{Expected, ok}
use socket_prac.Storage.Tables.{Tables, has_member}
use socket_prac.Storage.Transaction.{Server, Database, pure, run}
use socket_prac.Storage.Transaction.Kept.{>>=-eq-some}
use socket_prac.Storage.Transaction.Committed.{run-ok}
use socket_prac.Storage.Rooms.{select_messages, message_info, history_body, list_room_messages}
use socket_prac.Database.Service.{MessageInfo}
use socket_prac.Storage.Service.Page.{Page, rows-Page}

module _ (server : Server) where
  -- A history that is given is a member's, and a page of the room: each message stands in a row of
  -- the room with that id, sender and text; the ids ascend; and there are as many messages as the
  -- room has, or as many as the limit where it has more. A message of the room that is not on the
  -- page is no newer than any on it: made earlier, or at the same time with no larger id.
  pub list_room_messages-Page :
      (user_id : Text) (room_id : ℤ) (n : ℕ) (db : Database) (page : List MessageInfo)
      → (list_room_messages server user_id room_id (pos n) db).0 ≡ ok (some page)
      → (has_member room_id user_id db.tables ≡ true) × Page db.tables room_id n page
  unfolding list_room_messages history_body
  list_room_messages-Page user_id room_id n db page e =
      let body = history_body server user_id room_id (pos n) in
      let ran = run-ok server body db (some page) e in
      elim (Bool-cases (has_member room_id user_id db.tables)) [
        | inr stranger ↦ absurd (ground (arith, rw stranger at ran))
        | inl in_room ↦
            let (rows, t1, selects, answers) =
              >>=-eq-some (select_messages room_id (pos n))
                (λ rows. pure (ok (some (map (message_info server.timestamp) rows)))) db.tables
                (run server body db).1.tables (ok (some page)) (rw in_room at ran) in
            (
              in_room,
              rw (paged (map (message_info server.timestamp) rows) t1 answers)
                  (rows-Page server.timestamp room_id n db.tables t1 rows selects),
            )
      ]
    where
      paged :
          (xs : List MessageInfo) (t1 : Tables)
          → ◌≡◌ {A = Option (Expected (Option (List MessageInfo))) × Tables}
              (some (ok (some xs)), t1)
              (
                some (ok (some page)),
                (run server (history_body server user_id room_id (pos n)) db).1.tables,
              )
          → page ≡ xs
      paged xs t1 h = cc
