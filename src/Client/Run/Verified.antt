-- ===== src/Client/Run/Verified.antt =====
-- The client sends nothing before the server's certificate has been verified.
use socket_prac.Client.Session.{Client}
