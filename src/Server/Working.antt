-- ===== src/Server/Working.antt =====
-- A thread of the server from its start to its work.
use rinha.Absl.{Absl}
use rinha.Os.{Os}
use rinha.MariaDatabase.Mysql.{Mysql}
