-- ===== src/Witnesses/Client.antt =====
-- Tests of the client.
use socket_prac.Prelude.{pos, refl, true, some, [], codes, arith}
use socket_prac.Net.Buffer.{empty_buffer}
use socket_prac.Client.Worker.{ChatIo, client_execute}
use socket_prac.Client.Worker.Commands.{OneSent}
use socket_prac.Client.Worker.Sent.{client_execute-OneSent}

abbrev in_chat : ChatIo
in_chat = record {
  send = empty_buffer;
  logged_in = true;
  selected_room_id = some (pos 7);
  output = [];
}

client_execute-OneSent_example : OneSent in_chat (client_execute (codes "/history  7 20") in_chat)
client_execute-OneSent_example =
    client_execute-OneSent (codes "/history  7 20") in_chat (omega arith) refl refl refl
