-- ===== src/Storage/Sqlite.antt =====
-- server/dedicated-server/src/storage/mod.rs behind the interfaces that the handlers of game sessions and
-- of tickets are written against.
use scbl.Prelude.{ℕ, Bool, true, false, List, Option, some, Outcome, ok, err, panic}
use scbl.GameSession.{Storage}
use scbl.Ticket.{Accounts}
use scbl.Storage.{Db, DbError, run, game_session_is_active}
use scbl.Storage.Games
use scbl.Storage.Lobby
use scbl.Storage.Users
use scbl.Storage.Accepted
use scbl.Storage.Searches

abbrev pub sqlite : Storage Db
sqlite = record {
  create_game_session = λ db user_id type_id attributes.
      run db (Games.create_game_session user_id type_id attributes db);
  update_game_session =
      λ db type_id id attributes. (Games.update_game_session type_id id attributes db, some tt);
  delete_game_session =
      λ db user_id type_id id. run db (Lobby.delete_game_session user_id type_id id db);
  migrate_game_session_host = λ db user_id type_id id.
      let r = Games.migrate_game_session_host user_id type_id id db in (r.0, some r.1);
  leave_game_session =
      λ db user_id type_id id. (Games.leave_game_session user_id type_id id db, some tt);
  add_participants = λ db caller_id type_id id private_ids public_ids.
      run db (Games.add_participants caller_id type_id id private_ids public_ids db);
  remove_participants = λ db type_id id ids. (Games.remove_participants type_id id ids db, some tt);
  join_game_session_unbounded =
      λ db user_id type_id id. run db (Games.join_game_session_unbounded user_id type_id id db);
  game_session_is_active = λ db type_id id. some (game_session_is_active db type_id id);
  restore_abandoned_game_session_for_split = λ db user_id type_id id.
      run db (Games.restore_abandoned_game_session_for_split user_id type_id id db);
  find_accepted_manual_invited_session = λ db user_id type_id.
      (db, some (Accepted.find_accepted_invited_session user_id type_id true db));
  find_accepted_invited_session = λ db user_id type_id.
      (db, some (Accepted.find_accepted_invited_session user_id type_id false db));
  note_manual_invitation_search =
      λ db user_id type_id. Users.note_manual_invitation_search user_id type_id db;
  clear_manual_invitation_search =
      λ db user_id type_id. Users.clear_manual_invitation_search user_id type_id db;
  search_sessions = λ db type_id user_id. some (Searches.search_sessions type_id user_id db);
  search_sessions_with_participants =
      λ db type_id ids. some (Searches.search_sessions_with_participants type_id ids db);
}

-- The state behind a call without an answer; its failure is only logged.
unfoldable pub keep_or : Db → Outcome DbError Db → Db
keep_or db (ok db') = db'
keep_or db (err e) = db
keep_or db panic = db

abbrev pub accounts : (List ℕ → List ℕ → Option Bool) → Accounts Db
accounts verify = record {
  find_user_id_by_name = λ db username. some (Users.find_user_id_by_name db username);
  find_password_for_user = λ db user_id. some (Users.find_password_for_user db user_id);
  login_user = λ db username password. run db (Users.login_user verify username password db);
  create_user_session = λ db user_id key. keep_or db (Users.create_user_session user_id key db);
}
